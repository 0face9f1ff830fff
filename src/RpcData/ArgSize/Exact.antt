-- ===== src/RpcData/ArgSize/Exact.antt =====
-- `arg_size` is the exact size of the arguments on the wire.
use remote_procedure_control.Prelude.{
  ℕ, zero, suc, ◌+◌, ◌≡◌, ◌≢◌, ◌≤◌, refl, ap, ◌∙◌, List, [], ◌∷◌, ◌++◌, map, arith, none, some,
  length, length-append, All,
}
use remote_procedure_control.Prelude.Int.{ℤ, pos, negsuc}
use remote_procedure_control.Machine.{
  done, strlen-IsText, checked_size, IsInt, IsText, Bytes, int_max,
}
use remote_procedure_control.RpcData.{RpcArg, deref_int, deref_str}
use remote_procedure_control.RpcData.Integer.Decimal.{
  integer_bytes, int_min, bytes_zero, bytes_positive, bytes_negative, length-digits, digits_count,
  count_digits-add, length-integer_bytes-le,
}
use remote_procedure_control.RpcData.ArgSize.{int_arg_size, one_arg_size, arg_size_loop, arg_size}
use remote_procedure_control.RpcData.Protocol.{
  Argument, void, number, text, IsArgument, argument_bytes, arguments_bytes, to_arg, to_argv,
}

pub int_arg_size_lem :
    (i : ℤ) → IsInt i → i ≢ int_min → int_arg_size i ≡ done (length (integer_bytes i))
unfolding int_arg_size
int_arg_size_lem (pos zero) hi hm =
    unfold digits_count in ground (arith, ap length bytes_zero, count_digits-add 10 0 1)
int_arg_size_lem (pos (suc n)) hi hm =
    ground
      (arith, ap length (bytes_positive n), length-digits (suc n), count_digits-add 10 (suc n) 0)
int_arg_size_lem (negsuc n) hi hm =
    ground
      (arith, ap length (bytes_negative n), length-digits (suc n), count_digits-add 10 (suc n) 1)

one_arg_size_lem :
    (a : Argument)
    → IsArgument a
    → one_arg_size (to_arg a) ≡ done (some (length (argument_bytes a)))
unfolding one_arg_size deref_int deref_str
one_arg_size_lem void h = refl
one_arg_size_lem (number i) h = rw (int_arg_size_lem i h.0 h.1) (ground arith)
one_arg_size_lem (text s) h = rw (strlen-IsText s h.0) (ground arith)

pub arg_size_loop_lem :
    (as' : List Argument) (size : ℕ)
    → All IsArgument as'
    → size + length (arguments_bytes as') ≤ int_max
    → arg_size_loop (length as') (map to_arg as') size
      ≡ done (some (size + length (arguments_bytes as')))
unfolding arg_size_loop
arg_size_loop_lem [] size h k = ground arith
arg_size_loop_lem (a ∷ as') size (h, hs) k =
    let sum = length-append (argument_bytes a) (arguments_bytes as') in
    let here = size + length (argument_bytes a) in
    let fits : checked_size here ≡ done here = ground arith in
    rw (one_arg_size_lem a h, fits, arg_size_loop_lem as' here hs (omega (arith, sum)))
      (ground (arith, sum))

-- On valid arguments whose wire form fits an `int`, `arg_size` returns how many bytes they take on
-- the wire.
pub arg_size_lem :
    (as' : List Argument)
    → All IsArgument as'
    → length (arguments_bytes as') ≤ int_max
    → arg_size (pos (length as')) (to_argv as') ≡ done (some (length (arguments_bytes as')))
unfolding arg_size
arg_size_lem [] h k = refl
arg_size_lem (a ∷ as') h k = arg_size_loop_lem (a ∷ as') 0 h (omega arith) ∙ ground arith

-- The size of a single value.
pub arg_size_void : arg_size (pos 1) (some (to_arg void ∷ [])) ≡ done (some 1)
unfolding arg_size arg_size_loop one_arg_size
arg_size_void = refl

pub arg_size_number :
    (i : ℤ)
    → IsInt i
    → i ≢ int_min
    → arg_size (pos 1) (some (to_arg (number i) ∷ [])) ≡ done (some (1 + length (integer_bytes i)))
unfolding arg_size arg_size_loop one_arg_size deref_int
arg_size_number i hi hm = rw (int_arg_size_lem i hi hm) (ground (arith, length-integer_bytes-le i))

pub arg_size_text :
    (s : Bytes)
    → IsText s
    → 2 + length s ≤ int_max
    → arg_size (pos 1) (some (to_arg (text s) ∷ [])) ≡ done (some (2 + length s))
unfolding arg_size arg_size_loop one_arg_size deref_str
arg_size_text s h k = rw (strlen-IsText s h) (ground arith)

-- A null array takes no room.
pub arg_size_null : arg_size (pos 1) none ≡ done (some 0)
unfolding arg_size
arg_size_null = refl

-- An argument whose type does not exist makes the size -1, whatever stands before and behind it.
pub arg_size_unknown :
    (as' : List Argument) (bad : RpcArg) (more : List RpcArg) (rounds size : ℕ)
    → All IsArgument as'
    → 3 ≤ bad.typ
    → rounds ≡ length as' + suc (length more)
    → size + length (arguments_bytes as') ≤ int_max
    → arg_size_loop rounds (map to_arg as' ++ (bad ∷ more)) size ≡ done none
unfolding arg_size_loop
arg_size_unknown as' bad more zero size h t e k = absurd (omega arith)
arg_size_unknown [] bad more (suc rounds) size h t e k = rw (
    let none_such : one_arg_size bad ≡ done none = unfold one_arg_size in ground arith in none_such)
arg_size_unknown (a ∷ as') bad more (suc rounds) size (h, hs) t e k =
    let sum = length-append (argument_bytes a) (arguments_bytes as') in
    let here = size + length (argument_bytes a) in
    let fits : checked_size here ≡ done here = ground arith in
    rw (one_arg_size_lem a h, fits)
      (arg_size_unknown as' bad more rounds here hs t (omega arith) (omega (arith, sum)))
