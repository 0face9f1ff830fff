-- ===== src/Machine/Words.antt =====
-- `memcpy` of an `int` to and from four bytes, the lowest first.
use remote_procedure_control.Prelude.{
  ℕ, ◌+◌, ◌-◌, ◌*◌, ◌/◌, ◌%◌, ◌^◌, ◌<◌, ◌≡◌, refl, ap, ◌∙◌, [], ◌∷◌, ◌++◌, arith, ltb,
  if◌then◌else◌, length,
}
use remote_procedure_control.Prelude.Int.{ℤ, pos, negsuc}
use remote_procedure_control.Machine.{Exec, done, undefined, Bytes, IsInt}

-- The bit pattern of an `int`.
abbrev pub bits32 : ℤ → ℕ
bits32 (pos n) = n % 2 ^ 32
bits32 (negsuc n) = 2 ^ 32 - 1 - n % 2 ^ 32

abbrev pub signed32 : ℕ → ℤ
signed32 w = if ltb w (2 ^ 31) then pos w else negsuc (2 ^ 32 - 1 - w)

abbrev pub word_bytes : ℕ → Bytes
word_bytes w = (w % 256) ∷ (w / 256 % 256) ∷ (w / 65536 % 256) ∷ (w / 16777216 % 256) ∷ []

-- `memcpy(dst, &i, sizeof(int))`
unfoldable pub int_bytes : ℤ → Bytes
int_bytes i = word_bytes (bits32 i)

-- `memcpy(&i, src, sizeof(int))`, and what follows. Bytes outside the buffer are undefined.
unfoldable pub read_int : Bytes → Exec (ℤ × Bytes)
read_int (a ∷ b ∷ c ∷ d ∷ rest) = done (signed32 (a + b * 256 + c * 65536 + d * 16777216), rest)
read_int _ = undefined

pub signed32-bits32 : (i : ℤ) → IsInt i → signed32 (bits32 i) ≡ i
signed32-bits32 (pos n) h = ground arith
signed32-bits32 (negsuc n) h = ground arith

word_bytes_sum :
    (w : ℕ)
    → w < 2 ^ 32
    → w % 256 + w / 256 % 256 * 256 + w / 65536 % 256 * 65536 + w / 16777216 % 256 * 16777216 ≡ w
word_bytes_sum w h = omega arith

bits32-lt : (i : ℤ) → bits32 i < 2 ^ 32
bits32-lt (pos n) = omega arith
bits32-lt (negsuc n) = omega arith

-- An `int` is read back from the bytes that were copied, and what follows is left alone.
pub read_int-int_bytes :
    (i : ℤ) (rest : Bytes) → IsInt i → read_int (int_bytes i ++ rest) ≡ done (i, rest)
unfolding read_int int_bytes
read_int-int_bytes i rest h =
    ap (λ w. done (signed32 w, rest)) (word_bytes_sum (bits32 i) (bits32-lt i))
    ∙ ap (λ j. done (j, rest)) (signed32-bits32 i h)

pub length-int_bytes : (i : ℤ) → length (int_bytes i) ≡ 4
unfolding int_bytes
length-int_bytes i = refl
