-- ===== src/System/Orderly.antt =====
-- Requests that the server of src/s_server.c survives.
use remote_procedure_control.Prelude.{
  ℕ, ◌≡◌, ◌≢◌, ◌≤◌, refl, ◌∙◌, arith, Bool, false, List, [], ◌∷◌, Option, none, some, All, length,
}
use remote_procedure_control.Prelude.Int.{pos_part}
use remote_procedure_control.Machine.{Exec, done, Bytes}
use remote_procedure_control.Machine.Cells.{Cells}
use remote_procedure_control.RpcData.{Pointee, rpc_ret_ok}
use remote_procedure_control.RpcData.Answer.Layout.{IsValue}
use remote_procedure_control.RpcData.Protocol.{Argument, Request, IsRequest}
use remote_procedure_control.Mapper.{FunctionMapper, Memory, get_function}
use remote_procedure_control.Server.{Platform, Calls, answered}
use remote_procedure_control.Server.Verification.{
  Fits, expected_error, verification_iff, verification_lem,
}
use remote_procedure_control.Server.Errors.{
  IsWorking, handled, execute_client_unknown, execute_client_refused,
}
use remote_procedure_control.Server.Answers.{datas, Gives, execute_client_value}
use remote_procedure_control.Server.Called.Found.{called_lem}
use remote_procedure_control.Server.Called.Refused.{called_unknown, called_refused}
use remote_procedure_control.Server.Timer.{Alarm}
use remote_procedure_control.System.{
  Happening, moved, child_forked, killed_from_outside, System, signals, Reach,
}
use remote_procedure_control.System.Requests.{received_of, answered_course}
use remote_procedure_control.System.Running.{IsUp, IsQuiet}
use remote_procedure_control.System.Survival.{IsOrderly, IsPeaceful, Reach-survives}

-- Every function of the list has a type for each parameter and at most 255 of them. Called with the
-- data of a request that fits, it returns a value that an answer can carry, and does not send the
-- server its signal.
pub record IsServing {F : Type 0} (calls : Calls F) (memory : Memory F)
    (kills : F → List Pointee → Exec Bool) : Type 0 where
  pub filled :
      (command : Bytes) (f : FunctionMapper F)
      → get_function (some memory) command ≡ some f
      → (length f.fun.argv ≡ pos_part f.fun.argc) × (pos_part f.fun.argc ≤ 255)
  pub returning :
      (r : Request) (f : FunctionMapper F)
      → IsRequest r
      → get_function (some memory) r.command ≡ some f
      → Fits f.fun r
      → (value : Argument) × IsValue value
        × Gives calls f.fun.fun_ptr r.return_type (datas r.arguments) value
  pub silent :
      (r : Request) (f : FunctionMapper F)
      → IsRequest r
      → get_function (some memory) r.command ≡ some f
      → Fits f.fun r
      → kills f.fun.fun_ptr (datas r.arguments) ≡ done false

module _ {F : Type 0} (calls : Calls F) (memory : Memory F) (kills : F → List Pointee → Exec Bool)
    (i : IsServing calls memory kills) where
  expected_error-ne_ok :
      (f : FunctionMapper F) (r : Request) (status : ℕ)
      → expected_error f.fun r ≡ some status
      → status ≢ rpc_ret_ok
  expected_error-ne_ok f r status e same = ground arith

  module _ (p : Platform) (r : Request) (w : IsWorking p) (q : IsRequest r) where
    -- The child has an answer, and does not send the signal.
    abbrev IsAnswered : Type 0
    IsAnswered =
        ((cells : Cells) × (handled p calls memory r ≡ done (answered cells)))
        × ((timer_set : Bool) (alarm : Alarm) (hung_up : Bool)
            → signals calls memory kills (received_of p r timer_set alarm hung_up) ≡ done false)

    unknown_answered : get_function (some memory) r.command ≡ none → IsAnswered
    unfolding signals
    unknown_answered missing = (
      (_, execute_client_unknown p calls memory r w q missing),
      (λ timer_set alarm hung_up. rw (called_unknown memory p r w q missing) refl),
    )

    found_answered :
        (f : FunctionMapper F) (e : Option ℕ)
        → get_function (some memory) r.command ≡ some f
        → expected_error f.fun r ≡ e
        → IsAnswered
    unfolding signals
    found_answered f none found fits =
        let (stored, small) = i.filled r.command f found in
        let v =
          (verification_iff f.fun r stored).0 (verification_lem f.fun r stored ∙ rw fits refl) in
        let few : length r.arguments ≤ 255 = rw v.counted at small in
        let (value, carried, gives) = i.returning r f q found v in
        (
          (_, execute_client_value p calls memory r f value w q found stored v few carried gives),
          (λ timer_set alarm hung_up.
              rw (called_lem memory p r w f q found stored v few, i.silent r f q found v) refl),
        )
    found_answered f (some status) found differs =
        let (stored, small) = i.filled r.command f found in
        let refused = verification_lem f.fun r stored ∙ rw differs refl in
        let h = expected_error-ne_ok f r status differs in
        (
          (_, execute_client_refused p calls memory r w q f status found h refused),
          (λ timer_set alarm hung_up.
              rw (called_refused memory p r w q f status found h refused) refl),
        )

    request_answered : IsAnswered
    request_answered = by_name (get_function (some memory) r.command) refl
      where
        by_name :
            (g : Option (FunctionMapper F)) → get_function (some memory) r.command ≡ g → IsAnswered
        by_name none missing = unknown_answered missing
        by_name (some f) found = found_answered f (expected_error f.fun r) found refl

    -- Whatever its timer does, the child exits by itself and does not send the signal.
    request-IsOrderly :
        (timer_set : Bool) (alarm : Alarm)
        → IsOrderly calls memory kills (received_of p r timer_set alarm false)
    request-IsOrderly timer_set alarm =
        let ((cells, h), quiet) = request_answered in
        (
          answered_course calls memory kills p r w timer_set alarm false cells h,
          (λ e. let k = quiet timer_set alarm false in cc),
        )

  -- Memory is there, nobody kills the server from outside, and every child gets a request from a
  -- client that waits for its answer.
  abbrev pub IsUsed : Happening → Type 0
  IsUsed (moved e) = IsQuiet e
  IsUsed (child_forked son got) =
      (p : Platform) × (r : Request) × (timer_set : Bool) × (alarm : Alarm) × (got
        ≡ received_of p r timer_set alarm false)
      × IsWorking p
      × IsRequest r
  IsUsed killed_from_outside = ⊥
  IsUsed _ = Unit {0}

  used_lem : (h : Happening) → IsUsed h → IsPeaceful calls memory kills h
  used_lem (moved e) u = u
  used_lem (child_forked son got) (p, r, timer_set, alarm, same, w, q) =
      rw same (request-IsOrderly p r w q timer_set alarm)
  used_lem (Happening.child_ended son status) u = tt
  used_lem (Happening.parent_signaled son) u = tt
  used_lem Happening.signal_delivered u = tt
  used_lem killed_from_outside u = u

  all_used_lem : (hs : List Happening) → All IsUsed hs → All (IsPeaceful calls memory kills) hs
  all_used_lem [] u = tt
  all_used_lem (h ∷ hs) (u, us) = (used_lem h u, all_used_lem hs us)

  -- A server whose functions behave goes on serving. Suppose that each function of the list has a
  -- type for each of its parameters, at most 255, and that called with the data of a request that
  -- fits it, it returns a value that an answer can carry and does not send the server its signal.
  -- Suppose that memory is granted for every entry of the tracker, that nobody kills the server from
  -- outside, and that each child forked so far works on a request, valid as a message but for any
  -- function with any arguments, from a client that waits for the answer, whether its timer rings or
  -- not. Then after any steps of the server's threads and of its children the server runs.
  pub Reach-serves :
      {pf : Platform} {h : Happening} {hs : List Happening} {x : System}
      → Reach calls memory kills pf (h ∷ hs) x
      → All IsUsed (h ∷ hs)
      → IsUp x.server
  Reach-serves {h = h} {hs = hs} r u = Reach-survives calls memory kills r (all_used_lem (h ∷ hs) u)
