-- ===== src/RpcData/Integer/Decimal.antt =====
-- The format of an integer on the wire, in plain arithmetic.
use remote_procedure_control.Prelude.{
  ℕ, zero, suc, ◌+◌, ◌/◌, ◌%◌, ◌≤◌, ◌≡◌, refl, ap, [], ◌∷◌, arith, ◌==◌, if◌then◌else◌, length,
}
use remote_procedure_control.Prelude.Int.{ℤ, pos, negsuc}
use remote_procedure_control.Machine.{Bytes, int_max}
use remote_procedure_control.RpcData.Integer.{count_digits}

-- The digits of a number before `acc`, the highest first, with no digit for zero.
unfoldable pub digits_onto : ℕ → ℕ → Bytes → Bytes
digits_onto zero n acc = acc
digits_onto (suc fuel) n acc =
    let more = digits_onto fuel (n / 10) ((b'0' + n % 10) ∷ acc) in if n == 0 then acc else more

-- The decimal print of a number below 10 ^ 10.
unfoldable pub decimal : ℕ → Bytes
decimal n = if n == 0 then b'0' ∷ [] else digits_onto 10 n []

-- The text of an integer, with its sign.
unfoldable pub decimal_ℤ : ℤ → Bytes
decimal_ℤ (pos n) = decimal n
decimal_ℤ (negsuc n) = b'-' ∷ decimal (suc n)

-- How many digits.
unfoldable pub digits_count : ℕ → ℕ → ℕ
digits_count zero n = 0
digits_count (suc fuel) n =
    let more = suc (digits_count fuel (n / 10)) in if n == 0 then 0 else more

pub count_digits-add : (fuel n size : ℕ) → count_digits fuel n size ≡ size + digits_count fuel n
unfolding count_digits digits_count
count_digits-add zero n size = omega arith
count_digits-add (suc fuel) n size = ground (arith, count_digits-add fuel (n / 10) (suc size))

length-digits_onto :
    (fuel n : ℕ) (acc : Bytes) → length (digits_onto fuel n acc) ≡ digits_count fuel n + length acc
unfolding digits_onto digits_count
length-digits_onto zero n acc = omega arith
length-digits_onto (suc fuel) n acc =
    ground (arith, length-digits_onto fuel (n / 10) ((b'0' + n % 10) ∷ acc))

pub digits_count-le : (fuel n : ℕ) → digits_count fuel n ≤ fuel
unfolding digits_count
digits_count-le zero n = omega arith
digits_count-le (suc fuel) n = ground (arith, digits_count-le fuel (n / 10))

-- An integer on the wire: the length of its text in one byte, then the text.
unfoldable pub integer_bytes : ℤ → Bytes
integer_bytes i = length (decimal_ℤ i) ∷ decimal_ℤ i

pub length-digits : (n : ℕ) → length (digits_onto 10 n []) ≡ digits_count 10 n
length-digits n = omega (arith, length-digits_onto 10 n [])

pub decimal-suc : (n : ℕ) → decimal (suc n) ≡ digits_onto 10 (suc n) []
unfolding decimal
decimal-suc n = ground arith

pub bytes_zero : integer_bytes (pos 0) ≡ 1 ∷ b'0' ∷ []
unfolding integer_bytes decimal_ℤ decimal
bytes_zero = refl

pub bytes_positive :
    (n : ℕ) → integer_bytes (pos (suc n)) ≡ digits_count 10 (suc n) ∷ digits_onto 10 (suc n) []
unfolding integer_bytes decimal_ℤ
bytes_positive n = cc (decimal-suc n, length-digits (suc n))

pub bytes_negative :
    (n : ℕ)
    → integer_bytes (negsuc n) ≡ suc (digits_count 10 (suc n)) ∷ b'-' ∷ digits_onto 10 (suc n) []
unfolding integer_bytes decimal_ℤ
bytes_negative n = cc (decimal-suc n, length-digits (suc n))

-- The `int` that has no negative: `i = -i` is undefined there.
abbrev pub int_min : ℤ
int_min = negsuc int_max

-- An integer takes twelve bytes at most.
pub length-integer_bytes-le : (i : ℤ) → length (integer_bytes i) ≤ 12
length-integer_bytes-le (pos zero) = omega (arith, ap length bytes_zero)
length-integer_bytes-le (pos (suc n)) =
    omega (arith, ap length (bytes_positive n), length-digits (suc n), digits_count-le 10 (suc n))
length-integer_bytes-le (negsuc n) =
    omega (arith, ap length (bytes_negative n), length-digits (suc n), digits_count-le 10 (suc n))
