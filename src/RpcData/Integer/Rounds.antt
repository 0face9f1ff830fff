-- ===== src/RpcData/Integer/Rounds.antt =====
-- The digit loops of src/u_rpc_data.c and the rounds that are given to them.
use remote_procedure_control.Prelude.{
  ℕ, zero, suc, ◌+◌, ◌/◌, ◌%◌, ◌-◌, ◌^◌, ◌≡◌, ◌≤◌, refl, arith, Bool, true, false, ◌==◌,
}
use remote_procedure_control.Machine.{Exec, done, ◌>>=◌}
use remote_procedure_control.Machine.Cells.{Cells, poke}
use remote_procedure_control.RpcData.Integer.{count_digits, write_digits}

-- A number with at most that many digits.
IsShort : ℕ → ℕ → Type 0
IsShort zero n = n ≡ 0
IsShort (suc digits) n = IsShort digits (n / 10)

int-IsShort : (n : ℕ) → n ≤ 2 ^ 31 → IsShort 10 n
unfolding IsShort
int-IsShort n h = omega arith

count_rounds :
    (fuel total n size : ℕ)
    → IsShort fuel n
    → fuel ≤ total
    → count_digits total n size ≡ count_digits fuel n size
unfolding count_digits IsShort
count_rounds zero zero n size h k = refl
count_rounds zero (suc total) n size h k = rw h refl
count_rounds (suc fuel) zero n size h k = absurd (omega arith)
count_rounds (suc fuel) (suc total) n size h k =
    rw (count_rounds fuel total (n / 10) (suc size) h (omega arith)) refl

>>=-same :
    {A B : Type 0} (m : Exec A) (f g : A → Exec B) → ((a : A) → f a ≡ g a) → (m >>= f) ≡ (m >>= g)
>>=-same (done a) f g h = h a
>>=-same Exec.undefined f g h = refl
>>=-same Exec.diverges f g h = refl

write_rounds :
    (fuel total buf n size : ℕ) (cells : Cells)
    → IsShort fuel n
    → fuel ≤ total
    → write_digits total buf n size cells ≡ write_digits fuel buf n size cells
unfolding write_digits IsShort
write_rounds zero zero buf n size cells h k = refl
write_rounds zero (suc total) buf n size cells h k = rw h refl
write_rounds (suc fuel) zero buf n size cells h k = absurd (omega arith)
write_rounds (suc fuel) (suc total) buf n size cells h k = branch (n == 0) (
    >>=-same (poke (buf + size) (b'0' + n % 10) cells) (write_digits total buf (n / 10) (size - 1))
      (write_digits fuel buf (n / 10) (size - 1))
      (λ c. write_rounds fuel total buf (n / 10) (size - 1) c h (omega arith)))
  where
    branch :
        (b : Bool) {x y : Exec Cells}
        → x ≡ y
        → elim b [ true ↦ done cells | false ↦ x ] ≡ elim b [ true ↦ done cells | false ↦ y ]
    branch true e = refl
    branch false e = e

-- Ten rounds are enough for the loops that count and that write the digits of an `int`: with more
-- of them the results are the same.
pub digit_loops-end :
    (total n size buf last : ℕ) (cells : Cells)
    → n ≤ 2 ^ 31
    → 10 ≤ total
    → (count_digits total n size ≡ count_digits 10 n size)
      × (write_digits total buf n last cells ≡ write_digits 10 buf n last cells)
digit_loops-end total n size buf last cells h k = (
  count_rounds 10 total n size (int-IsShort n h) k,
  write_rounds 10 total buf n last cells (int-IsShort n h) k,
)
