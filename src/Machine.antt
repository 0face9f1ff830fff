-- ===== src/Machine.antt =====
-- What the C code takes from its platform: an outcome for undefined behaviour and endless loops,
-- 32-bit `int`, bytes read as signed `char`, and strings that end at a zero byte.
pub mod Cells
pub mod Words
use remote_procedure_control.Prelude.{
  ℕ, suc, ◌+◌, ◌-◌, ◌*◌, ◌/◌, ◌%◌, ◌^◌, ◌<◌, ◌≡◌, refl, Bool, true, false, ◌&&◌, List, [], ◌∷◌,
  arith, ltb, leb, ◌==◌, if◌then◌else◌, length, All, zero, ◌++◌,
}
use remote_procedure_control.Prelude.Int.{ℤ, pos, negsuc, ◌≤ℤ◌, leb_ℤ}

-- The outcome of a computation: it returns, its behaviour is undefined, or it never ends.
pub data Exec {ℓ} (A : Type ℓ) : Type ℓ where
  done : A → Exec A
  undefined : Exec A
  diverges : Exec A

infixl 5 ◌>>=◌
abbrev pub ◌>>=◌ {ℓ κ} : {A : Type ℓ} {B : Type κ} → Exec A → (A → Exec B) → Exec B
done a >>= f = f a
undefined >>= f = undefined
diverges >>= f = diverges

abbrev pub Bytes : Type 0
Bytes = List ℕ

abbrev pub IsByte : ℕ → Type 0
IsByte b = b < 256

abbrev pub int_max : ℕ
int_max = 2 ^ 31 - 1

-- A value of type `int`.
abbrev pub IsInt : ℤ → Type 0
IsInt i = (negsuc int_max ≤ℤ i) × (i ≤ℤ pos int_max)

-- Signed arithmetic: a result outside `int` is undefined behaviour.
abbrev pub checked : ℤ → Exec ℤ
checked i = if leb_ℤ (negsuc int_max) i && leb_ℤ i (pos int_max) then done i else undefined

-- A size that is kept in an `int`.
abbrev pub checked_size : ℕ → Exec ℕ
checked_size n = if leb n int_max then done n else undefined

-- A `char` is signed: the value of its bit pattern.
abbrev pub signed_char : ℕ → ℤ
signed_char b = if ltb b 128 then pos b else negsuc (255 - b)

-- The string that a buffer holds: what stands before its first zero byte.
unfoldable pub c_string : Bytes → Bytes
c_string [] = []
c_string (c ∷ cs) = let rest = c ∷ c_string cs in if c == 0 then [] else rest

unfoldable pub strlen : Bytes → ℕ
strlen s = length (c_string s)

-- The characters of a string: bytes, none of them zero.
abbrev pub IsText : Bytes → Type 0
IsText = All (λ c. (0 < c) × (c < 256))

pub c_string-IsText : (s : Bytes) → IsText s → c_string s ≡ s
unfolding c_string
c_string-IsText [] h = refl
c_string-IsText (c ∷ cs) h = ground (arith, c_string-IsText cs h.1)

pub strlen-IsText : (s : Bytes) → IsText s → strlen s ≡ length s
unfolding strlen
strlen-IsText s h = ground (arith, c_string-IsText s h)

-- `strcmp(a, b) == 0`
unfoldable pub str_eq : Bytes → Bytes → Bool
str_eq [] [] = true
str_eq [] (d ∷ ds) = false
str_eq (c ∷ cs) [] = false
str_eq (c ∷ cs) (d ∷ ds) = (c == d) && str_eq cs ds

abbrev pub strcmp_zero : Bytes → Bytes → Bool
strcmp_zero a b = str_eq (c_string a) (c_string b)

pub str_eq_refl : (s : Bytes) → str_eq s s ≡ true
unfolding str_eq
str_eq_refl [] = refl
str_eq_refl (c ∷ cs) = ground (arith, str_eq_refl cs)

pub str_eq→eq : (s t : Bytes) → str_eq s t ≡ true → s ≡ t
unfolding str_eq
str_eq→eq [] [] h = refl
str_eq→eq [] (d ∷ ds) h = cc
str_eq→eq (c ∷ cs) [] h = cc
str_eq→eq (c ∷ cs) (d ∷ ds) h = ground (arith, str_eq→eq cs ds)

-- The next `n` bytes of a buffer, and those behind them. Bytes outside the buffer are undefined.
unfoldable pub read_bytes : ℕ → Bytes → Exec (Bytes × Bytes)
read_bytes zero src = done ([], src)
read_bytes (suc n) [] = undefined
read_bytes (suc n) (b ∷ src) = do (bs, rest) ← read_bytes n src; done (b ∷ bs, rest)

pub read_bytes-append :
    (n : ℕ) (bs rest : Bytes) → n ≡ length bs → read_bytes n (bs ++ rest) ≡ done (bs, rest)
unfolding read_bytes
read_bytes-append zero [] rest h = refl
read_bytes-append zero (b ∷ bs) rest h = absurd (omega arith)
read_bytes-append (suc n) [] rest h = absurd (omega arith)
read_bytes-append (suc n) (b ∷ bs) rest h = rw (read_bytes-append n bs rest (omega arith))

-- Inversion of a chain that returns.
pub >>=-eq-done {ℓ κ} :
    {A : Type ℓ} {B : Type κ} (m : Exec A) (f : A → Exec B) {b : B}
    → (m >>= f) ≡ done b
    → (a : A) × (m ≡ done a) × (f a ≡ done b)
>>=-eq-done (done a) f h = (a, refl, h)
>>=-eq-done undefined f h = cc
>>=-eq-done diverges f h = cc

pub done-injective {ℓ} : {A : Type ℓ} (a b : A) → done a ≡ done b → a ≡ b
done-injective a b e = cc
