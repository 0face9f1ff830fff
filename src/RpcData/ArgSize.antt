-- ===== src/RpcData/ArgSize.antt =====
-- `arg_size` of src/u_rpc_data.c.
pub mod Exact
use remote_procedure_control.Prelude.{
  ℕ, zero, suc, ◌+◌, ◌≡◌, refl, List, [], ◌∷◌, ◌==◌, if◌then◌else◌, Option, none, some,
}
use remote_procedure_control.Prelude.Int.{ℤ, pos, negsuc, pos_part}
use remote_procedure_control.Machine.{Exec, done, undefined, ◌>>=◌, strlen, checked, checked_size}
use remote_procedure_control.RpcData.{
  rpc_ty_void, rpc_ty_int, rpc_ty_str, RpcArg, deref_int, deref_str,
}
use remote_procedure_control.RpcData.Integer.{count_digits}

-- The sign, the digits (one for zero) and the length byte.
pub int_arg_size : ℤ → Exec ℕ
int_arg_size (pos n) = done (suc (count_digits 10 n (if n == 0 then 1 else 0)))
int_arg_size (negsuc n) = do tmp ← checked (pos (suc n)); done (suc (count_digits 10 (suc n) 1))

-- What one argument adds to the size. `none` is a type that does not exist: the function returns -1.
pub one_arg_size : RpcArg → Exec (Option ℕ)
one_arg_size arg =
    if arg.typ == rpc_ty_void
    then done (some 1)
    else if arg.typ == rpc_ty_str
    then (deref_str arg.pointee >>= λ s. done (some (1 + (1 + strlen s))))
    else if arg.typ == rpc_ty_int
    then (deref_int arg.pointee >>= λ i. int_arg_size i >>= λ n. done (some (1 + n)))
    else done none

pub arg_size_loop : ℕ → List RpcArg → ℕ → Exec (Option ℕ)
arg_size_loop zero args size = done (some size)
arg_size_loop (suc rounds) [] size = undefined
arg_size_loop (suc rounds) (arg ∷ args) size =
    one_arg_size arg
    >>= elim [ none ↦ done none | some n ↦ checked_size (size + n) >>= arg_size_loop rounds args ]

unfoldable pub arg_size : ℤ → Option (List RpcArg) → Exec (Option ℕ)
arg_size argc none = done (some 0)
arg_size argc (some args) = arg_size_loop (pos_part argc) args 0
