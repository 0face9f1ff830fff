-- ===== src/RpcData/Deserialize.antt =====
-- `deserialize_message` of src/u_rpc_data.c. `serialized_msg + cpt` is what is left of the buffer.
pub mod Accepts
pub mod Faults
pub mod Typed
use remote_procedure_control.Prelude.{
  ℕ, zero, suc, ◌+◌, ◌-◌, ◌*◌, ◌^◌, ◌%◌, Bool, true, false, List, [], ◌∷◌, ◌++◌, ltb, ◌==◌,
  if◌then◌else◌, Option, none, some,
}
use remote_procedure_control.Prelude.Int.{ℤ, pos, negsuc, ◌-ℤ◌, pos_part}
use remote_procedure_control.Machine.{
  Exec, done, undefined, ◌>>=◌, Bytes, read_bytes, checked, checked_size,
}
use remote_procedure_control.Machine.Words.{read_int}
use remote_procedure_control.RpcData.{
  rpc_ty_void, rpc_ty_int, rpc_ty_str, Pointee, null, int, str, RpcArg, Message, Malloc,
  command_site, argv_site, arg_site, sizeof_int, sizeof_rpc_arg,
}
use remote_procedure_control.RpcData.Integer.{deserialize_integer}

-- `tmp * sizeof(char) + 1` for a signed `char`: from 128 on `tmp` is negative, and close to 2 ^ 64
-- as a `size_t`.
abbrev pub str_alloc : ℕ → ℕ
str_alloc tmp = if ltb tmp 128 then tmp + 1 else (2 ^ 64 - 256 + tmp + 1) % 2 ^ 64

-- `goto fail` when `malloc` refuses argument `i`, with the rounds after it: every `data` of the array
-- is read, and those that were never set are undefined.
pub fail_read {ℓ} : {A : Type ℓ} → ℕ → Exec (Option A)
fail_read zero = done none
fail_read (suc rounds) = undefined

pub read_int_arg : Malloc → ℕ → ℕ → Bytes → Exec (Option (RpcArg × ℕ × Bytes))
read_int_arg malloc rounds i src =
    if malloc (arg_site i) sizeof_int
    then (do
      (n, read, rest) ← deserialize_integer src
      done (some (record { typ = rpc_ty_int; pointee = int n }, 1 + read, rest)))
    else fail_read rounds

-- A length from 128 on is no length for `memcpy`.
pub read_str_arg : Malloc → ℕ → ℕ → Bytes → Exec (Option (RpcArg × ℕ × Bytes))
read_str_arg malloc rounds i [] = undefined
read_str_arg malloc rounds i (tmp ∷ src) =
    if malloc (arg_site i) (str_alloc tmp)
    then if ltb tmp 128
      then (do
        (s, rest) ← read_bytes tmp src
        done (some (record { typ = rpc_ty_str; pointee = str s }, 2 + tmp, rest)))
      else undefined
    else fail_read rounds

-- One round of the argument loop: the argument, the bytes read and those left. The type that does
-- not exist goes to `fail` too, where the `data` of this argument is read, which was never set.
pub read_arg : Malloc → ℕ → ℕ → Bytes → Exec (Option (RpcArg × ℕ × Bytes))
read_arg malloc rounds i [] = undefined
read_arg malloc rounds i (typ ∷ src) =
    if typ == rpc_ty_void
    then done (some (record { typ = rpc_ty_void; pointee = null }, 1, src))
    else if typ == rpc_ty_int
    then read_int_arg malloc rounds i src
    else if typ == rpc_ty_str
    then read_str_arg malloc rounds i src
    else undefined

pub read_args : Malloc → ℕ → ℕ → Bytes → Exec (Option (List RpcArg × ℕ × Bytes))
read_args malloc zero i src = done (some ([], 0, src))
read_args malloc (suc rounds) i src = read_arg malloc rounds i src >>= elim [
  | none ↦ done none
  | some (arg, n, src') ↦
      read_args malloc rounds (i + 1) src'
      >>= elim [ none ↦ done none | some (args, m, rest) ↦ done (some (arg ∷ args, n + m, rest)) ]
]

-- The array, with `malloc` for it if there are arguments.
pub read_argv : Malloc → ℤ → Bytes → Exec (Option (Option (List RpcArg) × ℕ × Bytes))
read_argv malloc argc src = elim (pos_part argc) [
  | zero ↦ done (some (none, 0, src))
  | suc n ↦
      if malloc argv_site (suc n * sizeof_rpc_arg)
      then read_args malloc (suc n) 0 src
        >>= elim [ none ↦ done none | some (args, m, rest) ↦ done (some (some args, m, rest)) ]
      else done none
]

pub read_byte : Bytes → Exec (ℕ × Bytes)
read_byte [] = undefined
read_byte (b ∷ src) = done (b, src)

-- The result: what is returned, and the message.
pub finish_body :
    ℤ → ℕ → Bytes → ℕ → ℤ → Option (Option (List RpcArg) × ℕ × Bytes) → Exec (ℤ × Option Message)
finish_body size length command return_type argc none = done (negsuc 0, none)
finish_body size length command return_type argc (some (argv, n, rest)) = do
  cpt ← checked_size (2 * sizeof_int + length + 1 + n)
  code ← checked (pos cpt -ℤ size)
  done (
    code,
    some (record {
      command_length = length;
      command = command;
      return_type = return_type;
      argc = argc;
      argv = argv;
    }),
  )

-- What follows the length of the command.
pub read_body : Malloc → ℤ → ℕ → Bytes → Exec (ℤ × Option Message)
read_body malloc size length src = do
  (command, src) ← read_bytes length src
  (return_type, src) ← read_byte src
  (argc, src) ← read_int src
  read_argv malloc argc src >>= finish_body size length command return_type argc

-- A negative length of the command: `malloc` is asked for nearly 2 ^ 64 bytes or for none, and then
-- either `memcpy` copies that many or `fail` reads `msg->argv`, which was never set.
pub read_message : Malloc → ℤ → ℤ → Bytes → Exec (ℤ × Option Message)
read_message malloc size (negsuc n) src = undefined
read_message malloc size (pos n) src = checked_size (n + 1) >>= λ room.
    if malloc command_site room then read_body malloc size n src else undefined

-- Returns `cpt - size` and the message, or -1 and none. `has_msg` is `msg != NULL`.
pub deserialize_message : Malloc → Bool → ℤ → Option Bytes → Exec (ℤ × Option Message)
deserialize_message malloc has_msg size none = done (negsuc 0, none)
deserialize_message malloc false size (some src) = done (negsuc 0, none)
deserialize_message malloc true size (some src) = do
  (length, src) ← read_int src
  read_message malloc size length src
