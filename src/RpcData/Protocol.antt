-- ===== src/RpcData/Protocol.antt =====
-- The sender protocol as the comment of src/u_rpc_data.h gives it: what a request is, its frame on the
-- wire, and the message that represents it in memory.
use remote_procedure_control.Prelude.{
  ℕ, ◌≤◌, ◌<◌, ◌≢◌, List, [], ◌∷◌, ◌++◌, Option, none, some, length, map, All,
}
use remote_procedure_control.Prelude.Int.{ℤ, pos}
use remote_procedure_control.Machine.{Bytes, IsInt, IsText, int_max}
use remote_procedure_control.Machine.Words.{int_bytes}
use remote_procedure_control.RpcData.{
  rpc_ty_void, rpc_ty_int, rpc_ty_str, null, int, str, RpcArg, Message,
}
use remote_procedure_control.RpcData.Integer.Decimal.{integer_bytes, int_min}

pub data Argument : Type 0 where
  void : Argument
  number : ℤ → Argument
  text : Bytes → Argument

pub record Request : Type 0 where
  pub command : Bytes
  pub return_type : ℕ
  pub arguments : List Argument

-- <typN> <lgN> <argN>
abbrev pub argument_bytes : Argument → Bytes
argument_bytes void = rpc_ty_void ∷ []
argument_bytes (number i) = rpc_ty_int ∷ integer_bytes i
argument_bytes (text s) = rpc_ty_str ∷ length s ∷ s

abbrev pub arguments_bytes : List Argument → Bytes
arguments_bytes [] = []
arguments_bytes (a ∷ as') = argument_bytes a ++ arguments_bytes as'

-- <command_length> <command> <typ> <argc>, before the arguments.
unfoldable pub header : Bytes → ℕ → ℕ → Bytes → Bytes
header command return_type argc args =
    int_bytes (pos (length command)) ++ (command ++ (return_type ∷ (int_bytes (pos argc) ++ args)))

-- <command_length> <command> <typ> <argc> …
unfoldable pub body : Request → Bytes
unfolding header
body r = header r.command r.return_type (length r.arguments) (arguments_bytes r.arguments)

-- <message_length> …
unfoldable pub frame : Request → Bytes
frame r = int_bytes (pos (length (body r))) ++ body r

abbrev pub to_arg : Argument → RpcArg
to_arg void = record { typ = rpc_ty_void; pointee = null }
to_arg (number i) = record { typ = rpc_ty_int; pointee = int i }
to_arg (text s) = record { typ = rpc_ty_str; pointee = str s }

abbrev pub to_argv : List Argument → Option (List RpcArg)
to_argv [] = none
to_argv (a ∷ as') = some (map to_arg (a ∷ as'))

-- The message in memory.
unfoldable pub to_message : Request → Message
to_message r = record {
  command_length = length r.command;
  command = r.command;
  return_type = r.return_type;
  argc = pos (length r.arguments);
  argv = to_argv r.arguments;
}

-- What the format can carry: a string shorter than 128 bytes, and an `int` that has a negative.
abbrev pub IsArgument : Argument → Type 0
IsArgument void = Unit {0}
IsArgument (number i) = IsInt i × (i ≢ int_min)
IsArgument (text s) = IsText s × (length s < 128)

pub record IsRequest (r : Request) : Type 0 where
  pub command_text : IsText r.command
  pub return_exists : r.return_type ≤ 2
  pub arguments_valid : All IsArgument r.arguments
  pub fits : length (frame r) ≤ int_max
