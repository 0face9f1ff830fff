-- ===== src/Defaults/Division.antt =====
-- The function `division` of src/s_defaults.c, at zero.
use remote_procedure_control.Prelude.{◌≡◌, refl, [], ◌∷◌}
use remote_procedure_control.Prelude.Int.{ℤ, pos}
use remote_procedure_control.Machine.{undefined}
use remote_procedure_control.RpcData.{int, deref_int}
use remote_procedure_control.Defaults.{
  operator, division, divide, operate, two_ints, call_int_default,
}

-- No test keeps the divisor from being zero.
pub division-zero :
    (i : ℤ) → call_int_default (operator division) (int i ∷ int (pos 0) ∷ []) ≡ undefined
unfolding call_int_default two_ints operate divide deref_int
division-zero i = refl
