-- ===== src/Defaults.antt =====
-- src/s_defaults.c: the functions that every server offers.
pub mod Powers
pub mod Registration
pub mod Registered
pub mod Listing
pub mod Password
pub mod Division
use remote_procedure_control.Prelude.{
  ℕ, zero, suc, ◌+◌, ◌-◌, ◌*◌, ◌/◌, ◌≡◌, Bool, true, false, ◌&&◌, List, [], ◌∷◌, ◌++◌, leb, ltb,
  ◌==◌, if◌then◌else◌, Option, none, some, length,
}
use remote_procedure_control.Prelude.Int.{
  ℤ, pos, negsuc, pos_part, neg_part, neg_ℤ, eqb_ℤ, ◌+ℤ◌, ◌-ℤ◌, ◌*ℤ◌,
}
use remote_procedure_control.Machine.{
  Exec, done, undefined, ◌>>=◌, Bytes, c_string, strlen, strcmp_zero, checked,
}
use remote_procedure_control.RpcData.{
  rpc_ty_void, rpc_ty_int, rpc_ty_str, Pointee, deref_int, deref_str,
}
use remote_procedure_control.Mapper.{
  Function, FunctionMapper, Memory, create_function, add_function,
}
use remote_procedure_control.Server.{Calls}

-- The functions of two numbers, and the others: what a function pointer points to.
pub data Operator : Type 0 where
  plus minus multiplication division power : Operator

pub data Default : Type 0 where
  documentation concat identity shutdown square string_length : Default
  operator : Operator → Default

-- `*a / *b`, towards zero.
abbrev pub quotient : ℤ → ℤ → ℤ
quotient a b =
    let q : ℤ = pos ((pos_part a + neg_part a) / (pos_part b + neg_part b)) in
    if neg_part a * pos_part b + pos_part a * neg_part b == 0 then q else neg_ℤ q

-- `while (cpt > 1) { res *= *a; --cpt; }` with the rounds that are left.
pub power_loop : ℕ → ℤ → ℤ → Exec ℤ
power_loop zero a res = done res
power_loop (suc rounds) a res = checked (res *ℤ a) >>= power_loop rounds a

pub raise : ℤ → ℤ → Exec ℤ
raise a b = if eqb_ℤ b (pos 0) then done (pos 1) else power_loop (pos_part b - 1) a a

-- The least `int` divided by -1 is no `int`.
pub divide : ℤ → ℤ → Exec ℤ
divide a b = if eqb_ℤ b (pos 0) then undefined else checked (quotient a b)

unfoldable pub operate : Operator → ℤ → ℤ → Exec ℤ
operate plus a b = checked (a +ℤ b)
operate minus a b = checked (a -ℤ b)
operate multiplication a b = checked (a *ℤ b)
operate division a b = divide a b
operate power a b = raise a b

-- The arguments are what the pointers point to.
pub two_ints : (ℤ → ℤ → Exec ℤ) → List Pointee → Exec ℤ
two_ints f (p ∷ q ∷ more) = do a ← deref_int p; b ← deref_int q; f a b
two_ints f _ = undefined

pub call_int_default : Default → List Pointee → Exec ℤ
call_int_default (operator op) args = two_ints (operate op) args
call_int_default square (p ∷ more) = deref_int p >>= λ a. raise a (pos 2)
call_int_default string_length (p ∷ more) = deref_str p >>= λ s. checked (pos (strlen s))
call_int_default _ args = undefined

-- Each makes one call of `malloc`, whose answer is `granted`. `doc` is the documentation that was
-- generated, or a null pointer.
pub call_str_default : Bool → Option Bytes → Default → List Pointee → Exec (Option Bytes)
call_str_default granted none documentation args = undefined
call_str_default granted (some doc) documentation args =
    done (if granted then some (c_string doc) else none)
call_str_default granted doc concat (p ∷ q ∷ more) = do
  s ← deref_str p
  s2 ← deref_str q
  done (if granted then some (c_string s ++ c_string s2) else none)
call_str_default granted doc identity (p ∷ more) =
    deref_str p >>= λ s. done (if granted then some (c_string s) else none)
call_str_default granted doc _ args = undefined

-- Whether the parent process is sent its signal.
pub sends_signal : Bytes → Bool
sends_signal password = strcmp_zero password (b'a' ∷ b'd' ∷ b'm' ∷ b'i' ∷ b'n' ∷ [])

-- The signal to the parent is no part of the outcome: it is what `kills` says.
pub call_void_default : Default → List Pointee → Exec (Unit {0})
call_void_default shutdown (p ∷ more) = deref_str p >>= λ password. done tt
call_void_default _ args = undefined

unfoldable pub kills : Default → List Pointee → Exec Bool
unfolding sends_signal
kills shutdown (p ∷ more) = deref_str p >>= λ password. done (sends_signal password)
kills _ args = done false

-- The calls through function pointers, for the default functions.
abbrev pub default_calls : Bool → Option Bytes → Calls Default
default_calls granted doc = record {
  call_void = call_void_default;
  call_int = call_int_default;
  call_str = call_str_default granted doc;
}
