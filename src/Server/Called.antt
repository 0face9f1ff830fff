-- ===== src/Server/Called.antt =====
-- src/s_server.c and src/s_function_handler.c.pump: the call that a child process makes.
pub mod Only
pub mod Found
pub mod Refused
use remote_procedure_control.Prelude.{ℕ, List, leb, if◌then◌else◌, Option, none, some}
use remote_procedure_control.Machine.{Exec, done, ◌>>=◌, Bytes}
use remote_procedure_control.RpcData.{Pointee, Message, rpc_ty_str}
use remote_procedure_control.Mapper.{Function, Memory}
use remote_procedure_control.Server.{
  Platform, Step, goes, ends, Process, returns, dropped, ◌>>>◌, has_case, call_arguments, read_msg,
  search_function, verification_function,
}

module _ {F : Type 0} where
  -- `execute_function` until the call, with what it calls. Where no call is made, the answer is an
  -- error and does not matter here.
  pub until_call : Function F → Message → Process (F × List Pointee)
  until_call f msg =
      if leb msg.return_type rpc_ty_str
      then (if has_case msg.argc
          then (call_arguments msg >>= λ args. returns (f.fun_ptr, args))
          else done (ends dropped))
      else done (ends dropped)

  pub made : Step (F × List Pointee) → Option (F × List Pointee)
  made (goes call) = some call
  made (ends e) = none

  -- `execute_client` until the call. `none` means that the process ends without one.
  pub called : Platform → Memory F → Option Bytes → Option Bytes → Exec (Option (F × List Pointee))
  called p memory size_bytes body =
      (read_msg p size_bytes body >>> λ msg. search_function p memory msg >>> λ f.
      verification_function p f.fun msg >>> λ _. until_call f.fun msg)
      >>= λ step. done (made step)
