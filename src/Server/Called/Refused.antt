-- ===== src/Server/Called/Refused.antt =====
-- The requests that come to no call.
use remote_procedure_control.Prelude.{ℕ, ◌≡◌, ◌≢◌, refl, none, some, length}
use remote_procedure_control.Prelude.Int.{pos}
use remote_procedure_control.Machine.{done}
use remote_procedure_control.Machine.Words.{int_bytes}
use remote_procedure_control.RpcData.{rpc_ret_ok}
use remote_procedure_control.RpcData.Protocol.{Request, IsRequest, body, to_message}
use remote_procedure_control.Mapper.{FunctionMapper, Memory, get_function}
use remote_procedure_control.Server.{Platform, verification, verification_function}
use remote_procedure_control.Server.Called.{called, made}
use remote_procedure_control.Server.Errors.{
  IsWorking, read_msg_lem, search_found, search_unknown, send_error_lem,
}

module _ {F : Type 0} (memory : Memory F) (p : Platform) (r : Request) (w : IsWorking p)
    (q : IsRequest r) where
  pub called_unknown :
      get_function (some memory) r.command ≡ none
      → called p memory (some (int_bytes (pos (length (body r))))) (some (body r)) ≡ done none
  unfolding called made
  called_unknown missing = rw (read_msg_lem p r w q, search_unknown p memory r w missing) refl

  pub called_refused :
      (f : FunctionMapper F) (status : ℕ)
      → get_function (some memory) r.command ≡ some f
      → status ≢ rpc_ret_ok
      → verification f.fun (to_message r) ≡ done (some status)
      → called p memory (some (int_bytes (pos (length (body r))))) (some (body r)) ≡ done none
  unfolding called verification_function made
  called_refused f status found h refused =
      rw
        (
          read_msg_lem p r w q,
          search_found p memory r f found,
          refused,
          send_error_lem p status w h,
        )
        refl
