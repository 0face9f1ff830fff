-- ===== src/RpcData.antt =====
-- src/u_rpc_data.h and src/u_rpc_data.c: the types, the protocol's constants and the messages that
-- client and server exchange. The functions are in the child modules.
pub mod Create
pub mod Integer
pub mod ArgSize
pub mod Serialize
pub mod Deserialize
pub mod Debug
pub mod Protocol
pub mod Answer
use remote_procedure_control.Prelude.{ℕ, ◌≤◌, Bool, List, Option, leb}
use remote_procedure_control.Prelude.Int.{ℤ}
use remote_procedure_control.Machine.{Exec, done, undefined, Bytes}

abbrev pub rpc_ty_void : ℕ
rpc_ty_void = 0x00

abbrev pub rpc_ty_int : ℕ
rpc_ty_int = 0x01

abbrev pub rpc_ty_str : ℕ
rpc_ty_str = 0x02

abbrev pub rpc_ret_ok : ℕ
rpc_ret_ok = 0x00

abbrev pub rpc_ret_unknown_func : ℕ
rpc_ret_unknown_func = 0x01

abbrev pub rpc_ret_wrong_arg : ℕ
rpc_ret_wrong_arg = 0x02

abbrev pub rpc_ret_no_answer : ℕ
rpc_ret_no_answer = 0x03

abbrev pub rpc_ret_wrong_typ : ℕ
rpc_ret_wrong_typ = 0x04

abbrev pub rpc_wrong_number_args : ℕ
rpc_wrong_number_args = 0x05

-- What `void *data` points to. `wild` is a pointer that was never assigned.
pub data Pointee : Type 0 where
  null : Pointee
  int : ℤ → Pointee
  str : Bytes → Pointee
  wild : Pointee

-- `*(int *)data`
unfoldable pub deref_int : Pointee → Exec ℤ
deref_int (int i) = done i
deref_int _ = undefined

-- The buffer behind `(char *)data`.
unfoldable pub deref_str : Pointee → Exec Bytes
deref_str (str s) = done s
deref_str _ = undefined

-- A type tag is the byte of a `char`.
pub record RpcArg : Type 0 where
  pub typ : ℕ
  pub pointee : Pointee

-- `none` is a null `argv`.
pub record Message : Type 0 where
  pub command_length : ℕ
  pub command : Bytes
  pub return_type : ℕ
  pub argc : ℤ
  pub argv : Option (List RpcArg)

-- Bytes from 128 on are negative as a `char`, hence no type.
unfoldable pub type_exists : ℕ → Bool
type_exists t = leb t rpc_ty_str

-- The calls of `malloc` in one run of a function. Each is made once at most.
pub data Site : Type 0 where
  command_site argv_site buffer_site value_site : Site
  arg_site : ℕ → Site

-- The allocator's answers during one run: does the call at that site, for that many bytes, succeed?
abbrev pub Malloc : Type 0
Malloc = Site → ℕ → Bool

abbrev pub sizeof_int : ℕ
sizeof_int = 4

-- On the platform modelled a `struct rpc_arg` is a `char`, padding and a pointer of 8 bytes.
abbrev pub sizeof_rpc_arg : ℕ
sizeof_rpc_arg = 16
