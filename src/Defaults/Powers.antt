-- ===== src/Defaults/Powers.antt =====
-- `power` of src/s_defaults.c against exponents.
use remote_procedure_control.Prelude.{
  ℕ, zero, suc, ◌+◌, ◌-◌, ◌≡◌, ◌≤◌, false, refl, ap, sym, ◌∙◌, arith,
}
use remote_procedure_control.Prelude.Int.{ℤ, pos, negsuc, eqb_ℤ, ◌*ℤ◌}
use remote_procedure_control.Machine.{done, checked, IsInt}
use remote_procedure_control.Defaults.{power, power_loop, raise, operate}

-- a ^ n
unfoldable pub exponent : ℤ → ℕ → ℤ
exponent a zero = pos 1
exponent a (suc n) = exponent a n *ℤ a

one_times : (a : ℤ) → pos 1 *ℤ a ≡ a
one_times (pos n) = ground arith
one_times (negsuc n) = ground arith

checked_lem : (i : ℤ) → IsInt i → checked i ≡ done i
checked_lem i h = ground arith

power_loop_lem :
    (a : ℤ) (rounds j : ℕ)
    → ((k : ℕ) → 1 ≤ k → k ≤ j + rounds → IsInt (exponent a k))
    → power_loop rounds a (exponent a j) ≡ done (exponent a (j + rounds))
unfolding power_loop exponent
power_loop_lem a zero j h =
    ap (λ n. done (exponent a n)) (let same : j ≡ j + 0 = omega arith in same)
power_loop_lem a (suc rounds) j h =
    let next : checked (exponent a j *ℤ a) ≡ done (exponent a (suc j)) =
      checked_lem (exponent a (suc j)) (h (suc j) (omega arith) (omega arith)) in
    let same : j + suc rounds ≡ suc j + rounds = omega arith in
    rw (next, same) (power_loop_lem a rounds (suc j) (λ k l u. h k l (omega arith)))

-- Where every power up to the exponent is an `int`, `power` returns the power, for bases of both signs
-- and for exponent 0.
pub power_lem :
    (a : ℤ) (n : ℕ)
    → ((k : ℕ) → 1 ≤ k → k ≤ n → IsInt (exponent a k))
    → operate power a (pos n) ≡ done (exponent a n)
unfolding operate raise
power_lem a zero h = unfold exponent in refl
power_lem a (suc n) h =
    let positive : eqb_ℤ (pos (suc n)) (pos 0) ≡ false = ground arith in
    let rounds : suc n - 1 ≡ n = omega arith in
    let first : a ≡ exponent a 1 = unfold exponent in sym (one_times a) in
    let same : 1 + n ≡ suc n = omega arith in
    rw (positive, rounds)
      (ap (power_loop n a) first
        ∙ power_loop_lem a n 1 (λ k l u. h k l (omega arith))
        ∙ ap (λ k. done (exponent a k)) same)
