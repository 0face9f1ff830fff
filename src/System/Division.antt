-- ===== src/System/Division.antt =====
-- A division by zero, asked of the server of src/s_server.c.
use remote_procedure_control.Prelude.{
  ℕ, ◌≡◌, refl, ◌∙◌, arith, Bool, true, false, List, ◌∷◌, Option, some,
}
use remote_procedure_control.Prelude.Int.{ℤ, pos}
use remote_procedure_control.Machine.{done, undefined, Bytes}
use remote_procedure_control.RpcData.Protocol.{number, Request, IsArgument}
use remote_procedure_control.Mapper.{FunctionMapper, Memory, empty_memory, get_function}
use remote_procedure_control.Server.{Platform}
use remote_procedure_control.Server.Errors.{IsWorking, handled}
use remote_procedure_control.Server.Answers.{datas}
use remote_procedure_control.Server.Local.{local_call, execute_client_local}
use remote_procedure_control.Server.Timer.{never, set_timeout, interrupted, gestion_client}
use remote_procedure_control.Server.Tracker.{Alive}
use remote_procedure_control.Server.Loop.{sweeping, State, running}
use remote_procedure_control.Defaults.{Default, operator, division, default_calls, kills}
use remote_procedure_control.Defaults.Division.{division-zero}
use remote_procedure_control.Defaults.Registration.{
  operator_name, default_name, add_default_functions,
}
use remote_procedure_control.Defaults.Registered.{
  signature, registered_function, operator_request, operator_request-IsRequest,
}
use remote_procedure_control.System.{serving, System, course}
use remote_procedure_control.System.Crash.{CanExit, undefined-exits}
use remote_procedure_control.System.Requests.{received_of}

module _ (granted : Bool) (doc : Option Bytes) (memory : Memory Default) (i : ℤ) (p : Platform)
    (added : add_default_functions (λ _. true) empty_memory ≡ done memory) (w : IsWorking p)
    (h : IsArgument (number i)) where
  abbrev asked : Request
  asked = operator_request division i (pos 0)

  found :
      (f : FunctionMapper Default) × (get_function (some memory) (operator_name division) ≡ some f)
      × (f.fun ≡ signature (operator division))
  unfolding default_name
  found = registered_function memory (operator division) added

  call_undefined :
      local_call (default_calls granted doc) found.0.fun.fun_ptr 1 (datas asked.arguments)
      ≡ undefined
  unfolding local_call
  call_undefined = rw (found.2, division-zero i) refl

  handled_undefined : handled p (default_calls granted doc) memory asked ≡ undefined
  handled_undefined =
      execute_client_local p (default_calls granted doc) memory asked found.0 w
        (operator_request-IsRequest division i (pos 0) h (omega arith, λ e. cc)) found.1
        (rw found.2 refl) (rw found.2 (record { counted = refl; typed = refl; returned = refl }))
        (omega arith) (rw call_undefined tt)
      ∙ rw call_undefined refl

  course_undefined :
      (timer_set hung_up : Bool)
      → course
          (default_calls granted doc)
          memory
          kills
          (received_of p asked timer_set never hung_up)
        ≡ undefined
  unfolding course gestion_client interrupted set_timeout
  course_undefined true hung_up = rw handled_undefined refl
  course_undefined false hung_up = rw handled_undefined refl

-- A division by zero can stop the server. Suppose that `add_default_functions` has filled the list,
-- that memory is there and `send` works in the child and in the server, and that the tracker has come
-- to a child that serves the request for the quotient of a number and zero, whose timer does not
-- ring before. Then there are steps after which the server has exited, of which each is the end of
-- a child or its report: the call is undefined behaviour, which may end the child by a signal.
pub division-exits :
    (granted : Bool) (doc : Option Bytes) (memory : Memory Default) (i : ℤ) (p pf : Platform)
    (timer_set hung_up : Bool) {x : System} {s : State} (error : ℕ) (a : Alive)
    (behind ahead : List Alive)
    → add_default_functions (λ _. true) empty_memory ≡ done memory
    → IsWorking p
    → IsWorking pf
    → IsArgument (number i)
    → x.server ≡ running s
    → s.tracker ≡ sweeping error (record { behind = behind; ahead = a ∷ ahead })
    → x.processes a.son
      ≡ some (record {
        received = received_of p (operator_request division i (pos 0)) timer_set never hung_up;
        phase = serving;
      })
    → CanExit (default_calls granted doc) memory kills pf x
division-exits granted doc memory i p pf timer_set hung_up {x} error a behind ahead added w works h
      up at_a there =
    undefined-exits (default_calls granted doc) memory kills pf error a behind ahead works at_a _ x
      up there (course_undefined granted doc memory i p added w h timer_set hung_up)
