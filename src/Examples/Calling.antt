-- ===== src/Examples/Calling.antt =====
-- The theorems on the client at a server with one function.
use remote_procedure_control.Prelude.{
  ℕ, ◌≡◌, refl, sym, arith, true, [], ◌∷◌, map, none, some, length,
}
use remote_procedure_control.Prelude.Int.{pos, negsuc}
use remote_procedure_control.Machine.{done, str_eq, c_string}
use remote_procedure_control.Machine.Words.{int_bytes}
use remote_procedure_control.RpcData.{int, str}
use remote_procedure_control.RpcData.Protocol.{number, text, to_arg, to_message}
use remote_procedure_control.RpcData.Answer.Layout.{answer_body}
use remote_procedure_control.Mapper.{FunctionMapper, Memory, empty_memory, find, get_function}
use remote_procedure_control.Client.{
  Report, Network, failed_with, get_answer, transmition, external_call,
}
use remote_procedure_control.Client.Replies.{
  get_answer_value, get_answer_wrong_type, get_answer_error,
}
use remote_procedure_control.Client.Call.{external_call_lem}
use remote_procedure_control.Client.Conversation.{
  served, IsOpen, transmition_value, transmition_unknown, transmition_refused,
}
use remote_procedure_control.Server.Timer.{before_answer, set_timeout}
use remote_procedure_control.Client.Conversation.Stream.{timed}
use remote_procedure_control.Client.Conversation.Timed.{outcome_after, transmition_timed}
use remote_procedure_control.Client.Conversation.Remote.{remote_call, transmition_remote}
use remote_procedure_control.Server.Local.{local_call}
use remote_procedure_control.Examples.{
  granted, granted-IsGranting, hello, two_numbers, plus_request, plus_request-IsRequest,
}
use remote_procedure_control.Examples.Service.{
  calls, memory, plus_mapper, other_memory, other_mapper, working, working-IsWorking,
}

get_answer_value_test :
    get_answer granted 2
      (some 6)
      (some (int_bytes (pos (length (answer_body (text hello))))))
      (some (answer_body (text hello)))
    ≡ done (record { code = pos 0; stored = some (str hello); printed = [] })
get_answer_value_test =
    get_answer_value granted granted-IsGranting (some 6) (text hello) (omega arith, omega arith)
      (omega arith)

get_answer_wrong_type_test :
    get_answer granted 1
      (some 6)
      (some (int_bytes (pos (length (answer_body (text hello))))))
      (some (answer_body (text hello)))
    ≡ done (record { code = negsuc 0; stored = none; printed = Report.wrong_return ∷ [] })
get_answer_wrong_type_test =
    get_answer_wrong_type granted granted-IsGranting 1 (some 6) (text hello)
      (omega arith, omega arith) (λ h. ground arith)

get_answer_error_test :
    get_answer granted 1 none (some (int_bytes (pos 1))) (some (2 ∷ [])) ≡ failed_with (pos 2)
get_answer_error_test =
    get_answer_error granted granted-IsGranting 2 1 none (λ h. ground arith) (omega arith)

-- The network whose server has the functions of `m`.
abbrev pub joined : Memory ℕ → Network
joined m = record {
  calling = granted;
  creating = granted;
  sending = granted;
  answering = granted;
  connects = true;
  sends = true;
  server = served working calls m;
}

joined-IsOpen : (m : Memory ℕ) → IsOpen (joined m) working calls m
joined-IsOpen m = record {
  sending_grants = granted-IsGranting;
  answering_grants = granted-IsGranting;
  connecting = refl;
  sends_all = refl;
  serving = refl;
  working = working-IsWorking;
}

transmition_value_example :
    transmition (joined memory) (some 4) (to_message plus_request)
    ≡ done (record { code = pos 0; stored = some (int (pos 35)); printed = [] })
transmition_value_example =
    transmition_value (joined memory) working calls memory plus_request (joined-IsOpen memory)
      plus_request-IsRequest (some 4) plus_mapper (number (pos 35))
      (unfold get_function find str_eq c_string in refl) refl
      (record { counted = refl; typed = refl; returned = refl }) (omega arith)
      (omega arith, λ h. ground arith) (refl, refl) (omega arith)

transmition_unknown_test :
    transmition (joined empty_memory) (some 4) (to_message plus_request)
    ≡ done (record { code = negsuc 0; stored = none; printed = Report.unknown_function ∷ [] })
transmition_unknown_test =
    transmition_unknown (joined empty_memory) working calls empty_memory plus_request
      (joined-IsOpen empty_memory) plus_request-IsRequest (some 4)
      (unfold get_function find in refl)

transmition_refused_test :
    transmition (joined other_memory) (some 4) (to_message plus_request) ≡ failed_with (pos 5)
transmition_refused_test =
    transmition_refused (joined other_memory) working calls other_memory plus_request
      (joined-IsOpen other_memory) plus_request-IsRequest (some 4) other_mapper 5
      (unfold get_function find str_eq c_string in refl) refl (unfold str_eq in refl)

external_call_lem_example :
    external_call
      (joined memory)
      plus_request.command
      plus_request.return_type
      (some 4)
      (map to_arg two_numbers)
    ≡ transmition (joined memory) (some 4) (to_message plus_request)
external_call_lem_example =
    external_call_lem (joined memory) plus_request (some 4) granted-IsGranting granted-IsGranting
      plus_request-IsRequest (tt, (tt, tt))

transmition_timed_example :
    transmition
      (record (joined memory) { server = timed working calls memory true before_answer })
      (some 4)
      (to_message plus_request)
    ≡ done (
        outcome_after
          (set_timeout true before_answer)
          (record { code = pos 0; stored = some (int (pos 35)); printed = [] }))
transmition_timed_example =
    transmition_timed (joined memory) working calls memory plus_request (joined-IsOpen memory)
      plus_request-IsRequest true before_answer (some 4) plus_mapper (number (pos 35))
      (unfold get_function find str_eq c_string in refl) refl
      (record { counted = refl; typed = refl; returned = refl }) (omega arith)
      (omega arith, λ h. ground arith) (refl, refl) (omega arith)

only_plus :
    (f : FunctionMapper ℕ)
    → get_function (some memory) plus_request.command ≡ some f
    → plus_mapper ≡ f
unfolding get_function find str_eq c_string
only_plus f e = cc

transmition_remote_example :
    transmition (joined memory) (some 4) (to_message plus_request)
    ≡ remote_call calls plus_request (some 4) memory
transmition_remote_example =
    transmition_remote (joined memory) working calls memory plus_request (joined-IsOpen memory)
      plus_request-IsRequest (some 4) (omega arith)
      (λ f e. let same = only_plus f e in rw (sym same) refl)
      (λ f e.
        let same = only_plus f e in
        rw (sym same) (unfold local_call in (omega arith, λ h. ground arith)))
