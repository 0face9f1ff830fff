-- ===== src/Server.antt =====
-- src/s_server.c and src/s_function_handler.c.pump: the process that handles one client, from the
-- bytes it receives to the bytes it sends.
pub mod Verification
pub mod Errors
pub mod Answers
pub mod Local
pub mod Typed
pub mod Called
pub mod Tracker
pub mod Loop
pub mod Timer
use remote_procedure_control.Prelude.{
  ℕ, zero, suc, ◌+◌, Bool, true, false, not, List, [], ◌∷◌, leb, ◌==◌, if◌then◌else◌, Option, none,
  some,
}
use remote_procedure_control.Prelude.Int.{ℤ, pos, negsuc, pos_part, eqb_ℤ, ◌+ℤ◌}
use remote_procedure_control.Machine.{Exec, done, undefined, ◌>>=◌, Bytes, checked_size}
use remote_procedure_control.Machine.Cells.{Cells}
use remote_procedure_control.Machine.Words.{read_int}
use remote_procedure_control.RpcData.{
  rpc_ty_void, rpc_ty_int, rpc_ty_str, rpc_ret_ok, rpc_ret_unknown_func, rpc_ret_wrong_arg,
  rpc_ret_wrong_typ, rpc_wrong_number_args, Pointee, null, int, str, RpcArg, Message, Malloc,
  buffer_site, value_site, sizeof_int,
}
use remote_procedure_control.RpcData.Deserialize.{deserialize_message}
use remote_procedure_control.RpcData.Answer.{serialize_answer}
use remote_procedure_control.Mapper.{Function, FunctionMapper, Memory, exist_function, get_function}

-- How the child process ends: it has sent an answer, or it exits with nothing sent.
pub data Ending : Type 0 where
  answered : Cells → Ending
  dropped : Ending

-- A function of the child process returns, or ends the process.
pub data Step {ℓ} (A : Type ℓ) : Type ℓ where
  goes : A → Step A
  ends : Ending → Step A

abbrev pub Process : Type 0 → Type 0
Process A = Exec (Step A)

abbrev pub returns : {A : Type 0} → A → Process A
returns a = done (goes a)

abbrev pub ending : {A : Type 0} → Exec Ending → Process A
ending m = m >>= λ e. done (ends e)

abbrev pub follow : {A B : Type 0} → (A → Process B) → Step A → Process B
follow f (goes a) = f a
follow f (ends e) = done (ends e)

infixl 5 ◌>>>◌
abbrev pub ◌>>>◌ : {A B : Type 0} → Process A → (A → Process B) → Process B
m >>> f = m >>= follow f

-- What the system answers to the child: `malloc` while it reads and while it answers, and `send`.
pub record Platform : Type 0 where
  pub reading : Malloc
  pub answering : Malloc
  pub sends : Bool

-- A call through the union of function pointers, with the data of the arguments.
pub record Calls (F : Type 0) : Type 0 where
  pub call_void : F → List Pointee → Exec (Unit {0})
  pub call_int : F → List Pointee → Exec ℤ
  pub call_str : F → List Pointee → Exec (Option Bytes)

-- `send` of a block; it fails on a null pointer.
pub deliver : Platform → Option (ℕ × Cells) → Ending
deliver p none = dropped
deliver p (some (size, cells)) = if p.sends then answered cells else dropped

pub send_error : Platform → ℕ → Exec Ending
send_error p status = serialize_answer p.answering status none >>= λ block. done (deliver p block)

pub send_answer : Platform → Option (ℕ × Cells) → Exec Ending
send_answer p block = done (deliver p block)

-- The message is taken from the second `recv`. A `recv` that fails is `none`.
pub read_received : Platform → ℤ → Option Bytes → Process Message
read_received p size none = done (ends dropped)
read_received p size (some received) = do
  (code, msg) ← deserialize_message p.reading true size (some received)
  if eqb_ℤ code (negsuc 0)
      then done (ends dropped)
      else (elim msg [ none ↦ undefined | some m ↦ returns m ])

-- The buffer of `size + 1` bytes. Without it `recv` fails, and a negative size is no size for it.
pub allocate_received : Platform → ℤ → Option Bytes → Process Message
allocate_received p (negsuc n) body = undefined
allocate_received p (pos n) body = checked_size (n + 1) >>= λ room.
    if p.reading buffer_site room then read_received p (pos n) body else done (ends dropped)

-- The size is what the first `recv` stores in an `int` that holds nothing before.
pub read_msg : Platform → Option Bytes → Option Bytes → Process Message
read_msg p none body = done (ends dropped)
read_msg p (some size_bytes) body = do
  (size, _) ← read_int size_bytes
  allocate_received p size body

-- `for (i = 0; i < f->fun.argc; i++)`, on the types declared and the arguments left.
unfoldable pub same_types : ℕ → List ℕ → List RpcArg → Exec Bool
same_types zero types args = done true
same_types (suc rounds) [] args = undefined
same_types (suc rounds) (t ∷ types) [] = undefined
same_types (suc rounds) (t ∷ types) (a ∷ args) =
    if t == a.typ then same_types rounds types args else done false

unfoldable pub verify_types : ℕ → List ℕ → Option (List RpcArg) → Exec Bool
verify_types rounds types none = same_types rounds types []
verify_types rounds types (some args) = same_types rounds types args

-- `msg->argv[0].data, …, msg->argv[argc - 1].data`
pub pointees : ℕ → List RpcArg → Exec (List Pointee)
pointees zero args = done []
pointees (suc rounds) [] = undefined
pointees (suc rounds) (a ∷ args) = pointees rounds args >>= λ rest. done (a.pointee ∷ rest)

pub call_arguments : Message → Exec (List Pointee)
call_arguments msg = pointees (pos_part msg.argc) (elim msg.argv [ none ↦ [] | some args ↦ args ])

-- The generated switch has a case for each number of arguments from 0 to 255.
pub has_case : ℤ → Bool
has_case (pos n) = leb n 255
has_case (negsuc n) = false

-- The process ends in `send_answer`, or before.
pub finish : Step Ending → Exec Ending
finish (goes e) = done e
finish (ends e) = done e

module _ {F : Type 0} where
  pub search_function : Platform → Memory F → Message → Process (FunctionMapper F)
  search_function p memory msg =
      if eqb_ℤ (exist_function (some memory) msg.command) (pos 1)
      then elim (get_function (some memory) msg.command) [ none ↦ undefined | some f ↦ returns f ]
      else ending (send_error p rpc_ret_unknown_func)

  -- The error that is sent, if any.
  unfoldable pub verification : Function F → Message → Exec (Option ℕ)
  verification f msg =
      if not (eqb_ℤ f.argc msg.argc)
      then done (some rpc_wrong_number_args)
      else (verify_types (pos_part f.argc) f.argv msg.argv >>= λ same.
          if not same
          then done (some rpc_ret_wrong_arg)
          else if not (f.return_type == msg.return_type)
          then done (some rpc_ret_wrong_typ)
          else done none)

  pub verification_function : Platform → Function F → Message → Process (Unit {0})
  verification_function p f msg =
      verification f msg >>= elim [ none ↦ returns tt | some status ↦ ending (send_error p status) ]

  -- A call that returns no string leaves the answer and its size unset.
  pub execute_typed : Platform → Calls F → Function F → Message → Process (Option (ℕ × Cells))
  execute_typed p calls f msg =
      if msg.return_type == rpc_ty_void
      then (do
        args ← call_arguments msg
        _ ← calls.call_void f.fun_ptr args
        block ←
            serialize_answer p.answering rpc_ret_ok
              (some (record { typ = rpc_ty_void; pointee = null }))
        returns block)
      else if msg.return_type == rpc_ty_int
      then (do
        args ← call_arguments msg
        res ← calls.call_int f.fun_ptr args
        value ← if p.answering value_site sizeof_int then done (int res) else undefined
        block ←
            serialize_answer p.answering rpc_ret_ok
              (some (record { typ = rpc_ty_int; pointee = value }))
        returns block)
      else (do
        args ← call_arguments msg
        res ← calls.call_str f.fun_ptr args
        value ← elim res [ none ↦ undefined | some s ↦ done (str s) ]
        block ←
            serialize_answer p.answering rpc_ret_ok
              (some (record { typ = rpc_ty_str; pointee = value }))
        returns block)

  pub execute_function : Platform → Calls F → Function F → Message → Process (Option (ℕ × Cells))
  execute_function p calls f msg =
      if leb msg.return_type rpc_ty_str
      then (if has_case msg.argc
          then execute_typed p calls f msg
          else ending (send_error p rpc_wrong_number_args))
      else ending (send_error p rpc_ret_unknown_func)

  pub answer_client : Platform → Calls F → Memory F → Option Bytes → Option Bytes → Process Ending
  answer_client p calls memory size_bytes body = read_msg p size_bytes body >>> λ msg.
      search_function p memory msg >>> λ f. verification_function p f.fun msg >>> λ _.
      execute_function p calls f.fun msg >>> λ block. send_answer p block >>= λ e. returns e

  -- What the child process does with what its two `recv` return.
  pub execute_client : Platform → Calls F → Memory F → Option Bytes → Option Bytes → Exec Ending
  execute_client p calls memory size_bytes body =
      answer_client p calls memory size_bytes body >>= finish
