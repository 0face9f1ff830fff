-- ===== src/RpcData/Integer/RoundTrip.antt =====
-- `deserialize_integer` reads back what `serialize_integer` writes.
use remote_procedure_control.Prelude.{
  ℕ, zero, suc, ◌+◌, ◌-◌, ◌/◌, ◌%◌, ◌^◌, ◌≤◌, ◌<◌, ◌≡◌, refl, ◌∙◌, [], ◌∷◌, ◌++◌, arith, ◌==◌,
  length, ◌≢◌, inl, inr, Bool-cases,
}
use remote_procedure_control.Prelude.Int.{ℤ, pos, negsuc, neg_ℤ}
use remote_procedure_control.Machine.{done, Bytes, IsInt, int_max, checked}
use remote_procedure_control.RpcData.Integer.{scan_digits, deserialize_integer, digits_of}
use remote_procedure_control.RpcData.Integer.Decimal.{
  digits_onto, integer_bytes, int_min, bytes_positive, bytes_negative, decimal, decimal_ℤ,
  length-digits, digits_count-le,
}

-- Reading the last digit of `n` after the digits before it gives `n`.
scan_last :
    (n rounds : ℕ) (msg : Bytes)
    → n ≤ int_max
    → scan_digits (suc rounds) ((b'0' + n % 10) ∷ msg) (pos (n / 10))
      ≡ scan_digits rounds msg (pos n)
unfolding scan_digits
scan_last n rounds msg h = ground arith

scan-digits_onto :
    (fuel n : ℕ) (acc rest : Bytes)
    → n < 10 ^ fuel
    → n ≤ int_max
    → scan_digits (length (digits_onto fuel n acc)) (digits_onto fuel n acc ++ rest) (pos 0)
      ≡ scan_digits (length acc) (acc ++ rest) (pos n)
unfolding digits_onto
scan-digits_onto zero n acc rest h k = rw (let e : n ≡ 0 = omega arith in e) refl
scan-digits_onto (suc fuel) n acc rest h k = ground (
  arith,
  scan-digits_onto fuel (n / 10) ((b'0' + n % 10) ∷ acc) rest,
  scan_last n (length acc) (acc ++ rest),
)

scan-digits :
    (n : ℕ) (rest : Bytes)
    → n ≤ int_max
    → scan_digits (length (digits_onto 10 n [])) (digits_onto 10 n [] ++ rest) (pos 0)
      ≡ done (pos n, rest)
scan-digits n rest h = scan-digits_onto 10 n [] rest (omega arith) h ∙ unfold scan_digits in refl

-- A text that does not start with a sign.
abbrev IsUnsigned : Bytes → Type 0
IsUnsigned [] = ⊥
IsUnsigned (c ∷ msg) = c ≢ b'-'

digit-ne-sign : (n : ℕ) → b'0' + n % 10 ≢ b'-'
digit-ne-sign n = omega arith

digits_onto-IsUnsigned :
    (fuel n : ℕ) (acc : Bytes) → IsUnsigned acc → IsUnsigned (digits_onto fuel n acc)
unfolding digits_onto
digits_onto-IsUnsigned zero n acc h = h
digits_onto-IsUnsigned (suc fuel) n acc h = elim (Bool-cases (n == 0)) [
  | inl t ↦ rw t h
  | inr t ↦ rw t (digits_onto-IsUnsigned fuel (n / 10) ((b'0' + n % 10) ∷ acc) (digit-ne-sign n))
]

digits-IsUnsigned : (n : ℕ) → IsUnsigned (digits_onto 10 (suc n) [])
digits-IsUnsigned n =
    rw
      (let step : digits_onto 10 (suc n) []
            ≡ digits_onto 9 (suc n / 10) ((b'0' + suc n % 10) ∷ []) =
          unfold digits_onto in ground arith in
        step)
      (digits_onto-IsUnsigned 9 (suc n / 10) ((b'0' + suc n % 10) ∷ []) (digit-ne-sign (suc n)))

deserialize_unsigned :
    (text rest : Bytes) {i : ℤ}
    → IsUnsigned text
    → length text < 128
    → scan_digits (length text) (text ++ rest) (pos 0) ≡ done (i, rest)
    → deserialize_integer (length text ∷ (text ++ rest)) ≡ done (i, suc (length text), rest)
unfolding deserialize_integer
deserialize_unsigned [] rest u h s = absurd u
deserialize_unsigned (c ∷ text) rest u h s = ground arith

deserialize_negative :
    (text rest : Bytes) (n : ℕ)
    → length text < 127
    → n < int_max
    → scan_digits (length text) (text ++ rest) (pos 0) ≡ done (pos (suc n), rest)
    → deserialize_integer (suc (length text) ∷ b'-' ∷ (text ++ rest))
      ≡ done (negsuc n, suc (suc (length text)), rest)
unfolding deserialize_integer
deserialize_negative text rest n h k s =
    let rounds : digits_of (suc (length text)) - 1 ≡ length text = ground arith in
    let fits : checked (neg_ℤ (pos (suc n))) ≡ done (negsuc n) = ground arith in
    rw (rounds, s, fits)
      (let e : 2 + length text ≡ suc (suc (length text)) = omega arith in rw e refl)

length-digits-le : (n : ℕ) → length (digits_onto 10 n []) ≤ 10
length-digits-le n = omega (arith, length-digits n, digits_count-le 10 n)

-- Every `int` but the least is read back from its wire form, and what follows is left alone.
pub deserialize-integer_bytes :
    (i : ℤ) (rest : Bytes)
    → IsInt i
    → i ≢ int_min
    → deserialize_integer (integer_bytes i ++ rest) ≡ done (i, length (integer_bytes i), rest)
deserialize-integer_bytes (pos zero) rest hi hm =
    unfold deserialize_integer integer_bytes decimal_ℤ decimal scan_digits in refl
deserialize-integer_bytes (pos (suc n)) rest hi hm =
    rw (bytes_positive n, ← length-digits (suc n))
      (deserialize_unsigned (digits_onto 10 (suc n) []) rest (digits-IsUnsigned n)
        (omega (arith, length-digits-le (suc n))) (scan-digits (suc n) rest (ground arith)))
deserialize-integer_bytes (negsuc n) rest hi hm =
    rw (bytes_negative n, ← length-digits (suc n))
      (deserialize_negative (digits_onto 10 (suc n) []) rest n
        (omega (arith, length-digits-le (suc n))) (ground arith)
        (scan-digits (suc n) rest (ground arith)))
