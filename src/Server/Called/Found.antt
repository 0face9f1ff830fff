-- ===== src/Server/Called/Found.antt =====
-- The call that a request comes to.
use remote_procedure_control.Prelude.{◌≡◌, ◌≤◌, refl, arith, true, leb, some, length}
use remote_procedure_control.Prelude.Int.{pos, pos_part}
use remote_procedure_control.Machine.{done}
use remote_procedure_control.Machine.Words.{int_bytes}
use remote_procedure_control.RpcData.Protocol.{Request, IsRequest, body, to_message}
use remote_procedure_control.Mapper.{FunctionMapper, Memory, get_function}
use remote_procedure_control.Server.{Platform, has_case, verification_function}
use remote_procedure_control.Server.Called.{called, until_call, made}
use remote_procedure_control.Server.Verification.{Fits, verification_iff}
use remote_procedure_control.Server.Errors.{IsWorking, read_msg_lem, search_found}
use remote_procedure_control.Server.Answers.{datas, call_arguments_lem}

module _ {F : Type 0} (memory : Memory F) (p : Platform) (r : Request) (w : IsWorking p) where
  -- A request that fits a function is a call of that function, with the data of the request.
  pub called_lem :
      (f : FunctionMapper F)
      → IsRequest r
      → get_function (some memory) r.command ≡ some f
      → length f.fun.argv ≡ pos_part f.fun.argc
      → Fits f.fun r
      → length r.arguments ≤ 255
      → called p memory (some (int_bytes (pos (length (body r))))) (some (body r))
        ≡ done (some (f.fun.fun_ptr, datas r.arguments))
  unfolding called verification_function until_call has_case made
  called_lem f q found stored fits few =
      let typed : leb (to_message r).return_type 2 ≡ true =
        unfold to_message in ground (arith, q.return_exists) in
      let case : has_case (to_message r).argc ≡ true = unfold to_message in ground arith in
      rw
        (
          read_msg_lem p r w q,
          search_found p memory r f found,
          (verification_iff f.fun r stored).1 fits,
          typed,
          case,
          call_arguments_lem r,
        )
        refl
