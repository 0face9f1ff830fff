-- ===== src/Client.antt =====
-- src/c_client.c: what the client library does to call a function of the server.
pub mod Socket
pub mod Replies
pub mod Call
pub mod Conversation
pub mod Options
pub mod Parsing
pub mod CommandLine
use remote_procedure_control.Prelude.{
  ℕ, zero, suc, ◌+◌, ◌*◌, ◌-◌, ◌^◌, Bool, true, false, not, List, [], ◌∷◌, ltb, leb, ◌==◌,
  if◌then◌else◌, Option, none, some, length,
}
use remote_procedure_control.Prelude.Int.{ℤ, pos, negsuc, eqb_ℤ}
use remote_procedure_control.Machine.{
  Exec, done, undefined, ◌>>=◌, Bytes, c_string, strlen, checked_size,
}
use remote_procedure_control.Machine.Cells.{Cells}
use remote_procedure_control.Machine.Words.{read_int}
use remote_procedure_control.RpcData.{
  rpc_ty_void, rpc_ty_int, rpc_ty_str, rpc_ret_ok, rpc_ret_unknown_func, rpc_ret_wrong_arg,
  rpc_ret_no_answer, rpc_ret_wrong_typ, rpc_wrong_number_args, Pointee, null, int, str, wild,
  RpcArg, Message, Malloc, buffer_site, argv_site, sizeof_int, sizeof_rpc_arg, deref_int, deref_str,
}
use remote_procedure_control.RpcData.Create.{create_message, free_message}
use remote_procedure_control.RpcData.Serialize.{serialize_message}
use remote_procedure_control.RpcData.Answer.{deserialize_answer}

-- The lines that `printErrorStatus` writes.
pub data Report : Type 0 where
  unknown_function wrong_arguments wrong_number no_answer wrong_return unexpected : Report

-- A failed `assert` is counted as undefined.
pub print_error_status : ℤ → Exec (List Report)
print_error_status (negsuc n) = done (unexpected ∷ [])
print_error_status (pos n) =
    if n == rpc_ret_ok
    then undefined
    else if n == rpc_ret_unknown_func
    then done (unknown_function ∷ [])
    else if n == rpc_ret_wrong_arg
    then done (wrong_arguments ∷ [])
    else if n == rpc_wrong_number_args
    then done (wrong_number ∷ no_answer ∷ [])
    else if n == rpc_ret_no_answer
    then done (no_answer ∷ [])
    else if n == rpc_ret_wrong_typ
    then done (wrong_return ∷ [])
    else done (unexpected ∷ [])

-- How a call ends: the code, what was stored where `ret` points, and the lines about an error.
pub record Outcome : Type 0 where
  pub code : ℤ
  pub stored : Option Pointee
  pub printed : List Report

abbrev pub failed : Outcome
failed = record { code = negsuc 0; stored = none; printed = [] }

abbrev pub failed_with : ℤ → Exec Outcome
failed_with status = print_error_status status >>= λ lines.
    done (record { code = negsuc 0; stored = none; printed = lines })

-- The switch on the type. `none` is a null `ret`, and `some n` an aligned block of `n` bytes, which
-- a longer value runs over.
pub store : Option ℕ → RpcArg → Exec (Option Pointee)
store ret arg =
    if arg.typ == rpc_ty_void
    then done none
    else if arg.typ == rpc_ty_str
    then elim ret [
      | none ↦ done none
      | some n ↦ deref_str arg.pointee >>= λ s.
          if ltb (strlen s) n then done (some (str (c_string s))) else undefined
    ]
    else if arg.typ == rpc_ty_int
    then elim ret [
      | none ↦ done none
      | some n ↦
          deref_int arg.pointee >>= λ i. if leb sizeof_int n then done (some (int i)) else undefined
    ]
    else undefined

-- An OK answer: the type is checked against the one that is expected.
pub accept : ℕ → Option ℕ → Option RpcArg → Exec Outcome
accept typ ret none = undefined
accept typ ret (some arg) =
    if arg.typ == typ
    then (store ret arg >>= λ stored. done (record { code = pos 0; stored = stored; printed = [] }))
    else failed_with (pos rpc_ret_wrong_typ)

-- The block for a message of that size; a negative size is close to 2 ^ 64 as a `size_t`.
abbrev pub answer_alloc : ℤ → ℕ
answer_alloc (pos n) = n
answer_alloc (negsuc n) = 2 ^ 64 - 1 - n

-- From the second `recv` on. A `recv` that fails is `none`.
pub read_answer : Malloc → ℕ → Option ℕ → ℤ → Option Bytes → Exec Outcome
read_answer malloc typ ret size none = done failed
read_answer malloc typ ret size (some received) = do
  (status, arg) ← deserialize_answer malloc true size (some received)
  if eqb_ℤ status (pos rpc_ret_ok) then accept typ ret arg else failed_with status

-- The two arguments at the end are what the two `recv` give; the size is an `int` that holds nothing
-- before.
pub get_answer : Malloc → ℕ → Option ℕ → Option Bytes → Option Bytes → Exec Outcome
get_answer malloc typ ret none body = done failed
get_answer malloc typ ret (some size_bytes) body = do
  (size, _) ← read_int size_bytes
  if malloc buffer_site (answer_alloc size)
      then read_answer malloc typ ret size body
      else done failed

-- What the system answers to the client, and the server behind the socket: from the bytes that are
-- sent to what the two `recv` give.
pub record Network : Type 0 where
  pub calling : Malloc
  pub creating : Malloc
  pub sending : Malloc
  pub answering : Malloc
  pub connects : Bool
  pub sends : Bool
  pub server : Cells → Exec (Option Bytes × Option Bytes)

-- What is sent; `none` is -1. A message that was not serialized is sent with a size that was not set.
pub send_cmd : Network → Message → Exec (Option Cells)
send_cmd net msg = serialize_message net.sending (some msg) >>= λ serial.
    if net.connects
    then elim serial [
      | none ↦ undefined
      | some (size, cells) ↦ done (if net.sends then some cells else none)
    ]
    else done none

pub transmition : Network → Option ℕ → Message → Exec Outcome
transmition net ret msg = send_cmd net msg >>= elim [
  | none ↦ done failed
  | some cells ↦
      net.server cells >>= λ parts. get_answer net.answering msg.return_type ret parts.0 parts.1
]

-- The variadic arguments end at the first null pointer.
pub passed : List RpcArg → List RpcArg
passed [] = []
passed (arg ∷ args) = let rest = arg ∷ passed args in elim arg.pointee [ null ↦ [] | _ ↦ rest ]

-- The result of `create_message` is not looked at: without a message the rest is undefined.
pub external_call : Network → Bytes → ℕ → Option ℕ → List RpcArg → Exec Outcome
external_call net cmd typ ret args = checked_size (length (passed args)) >>= λ nb_args.
    if net.calling argv_site (nb_args * sizeof_rpc_arg)
    then create_message net.creating true (some cmd) typ (pos nb_args) (some (passed args))
      >>= elim [
        | none ↦ undefined
        | some msg ↦ do outcome ← transmition net ret msg; _ ← free_message msg; done outcome
      ]
    else done failed
