-- ===== src/Client/Conversation/Timed.antt =====
-- A call at a server whose timer may ring.
use remote_procedure_control.Prelude.{
  ℕ, ◌≡◌, ◌≤◌, ◌<◌, refl, ◌∙◌, arith, Bool, [], ◌∷◌, ◌++◌, ◌^◌, Option, none, some, length,
}
use remote_procedure_control.Prelude.Int.{pos, negsuc, pos_part}
use remote_procedure_control.Machine.{Exec, done, ◌>>=◌, Bytes}
use remote_procedure_control.Machine.Cells.{written}
use remote_procedure_control.Machine.Words.{int_bytes}
use remote_procedure_control.RpcData.{rpc_ret_no_answer}
use remote_procedure_control.RpcData.Protocol.{
  Argument, Request, IsRequest, body, frame, to_message, to_arg,
}
use remote_procedure_control.RpcData.Answer.Layout.{IsValue, answer_body, error_frame}
use remote_procedure_control.Mapper.{FunctionMapper, Memory, get_function}
use remote_procedure_control.Server.{Platform, Calls, Ending, answered}
use remote_procedure_control.Server.Verification.{Fits}
use remote_procedure_control.Server.Errors.{IsWorking, handled, send_error_lem}
use remote_procedure_control.Server.Answers.{datas, Gives, Gives-typ, execute_client_value}
use remote_procedure_control.Server.Timer.{
  Alarm, never, before_answer, after_answer, timeout_handler, set_timeout, interrupted,
  gestion_client,
}
use remote_procedure_control.Client.{
  Report, Outcome, Network, transmition, send_cmd, failed_with, print_error_status, get_answer,
}
use remote_procedure_control.Client.Replies.{
  body-small, stored_value, HasRoom, get_answer_value, get_answer_error,
}
use remote_procedure_control.Client.Conversation.{
  parts, contents-written, parts-int_bytes, IsOpen, sent_lem,
}
use remote_procedure_control.Client.Conversation.Stream.{
  stream, sized, timed, stream-written, first_frame,
}

-- What an alarm changes of an outcome.
abbrev pub outcome_after : Alarm → Outcome → Outcome
outcome_after never o = o
outcome_after before_answer o = record {
  code = negsuc 0;
  stored = none;
  printed = Report.no_answer ∷ [];
}
outcome_after after_answer o = o

-- What the client takes from the socket.
got : Alarm → Bytes → Bytes
got never answer = answer
got before_answer answer = rpc_ret_no_answer ∷ []
got after_answer answer = answer

interrupted_lem :
    (p : Platform) (run : Exec Ending) (a : Alarm) (answer : Bytes)
    → IsWorking p
    → length answer < 2 ^ 31
    → run ≡ done (answered (written (int_bytes (pos (length answer)) ++ answer)))
    → (interrupted p run a >>= λ blocks.
        stream blocks >>= λ bytes. sized (parts bytes).0 (parts bytes).1)
      ≡ done (some (int_bytes (pos (length (got a answer)))), some (got a answer))
unfolding interrupted timeout_handler got stream
interrupted_lem p run never answer w h e =
    rw (e, stream-written (int_bytes (pos (length answer)) ++ answer) [] [] refl)
      (first_frame answer [] h)
interrupted_lem p run before_answer answer w h e =
    rw
      (
        send_error_lem p rpc_ret_no_answer w (omega arith),
        stream-written (error_frame rpc_ret_no_answer) [] [] refl,
      )
      (first_frame (rpc_ret_no_answer ∷ []) [] (omega arith))
interrupted_lem p run after_answer answer w h e =
    let second : stream (written (error_frame rpc_ret_no_answer) ∷ [])
        ≡ done (error_frame rpc_ret_no_answer ++ []) =
      stream-written (error_frame rpc_ret_no_answer) [] [] refl in
    rw
      (
        e,
        send_error_lem p rpc_ret_no_answer w (omega arith),
        stream-written (int_bytes (pos (length answer)) ++ answer)
            (written (error_frame rpc_ret_no_answer) ∷ []) _ second,
      )
      (first_frame answer (error_frame rpc_ret_no_answer ++ []) h)

module _ {F : Type 0} (net : Network) (p : Platform) (calls : Calls F) (memory : Memory F)
    (r : Request) (o : IsOpen net p calls memory) (q : IsRequest r) where
  timed_lem :
      (timer_set : Bool) (alarm : Alarm) (answer : Bytes)
      → length answer < 2 ^ 31
      → handled p calls memory r
        ≡ done (answered (written (int_bytes (pos (length answer)) ++ answer)))
      → timed p calls memory timer_set alarm (written (frame r))
        ≡ done (
          some (int_bytes (pos (length (got (set_timeout timer_set alarm) answer)))),
          some (got (set_timeout timer_set alarm) answer),
        )
  unfolding timed frame gestion_client
  timed_lem timer_set alarm answer h e =
      rw
        (
          contents-written (int_bytes (pos (length (body r))) ++ body r),
          parts-int_bytes (pos (length (body r))) (body r),
        )
        (interrupted_lem p _ (set_timeout timer_set alarm) answer o.working h e)

  abbrev ringing : Bool → Alarm → Network
  ringing timer_set alarm = record net { server = timed p calls memory timer_set alarm }

  ringing_lem :
      (timer_set : Bool) (alarm : Alarm) (ret : Option ℕ) (answer : Bytes)
      → length answer < 2 ^ 31
      → handled p calls memory r
        ≡ done (answered (written (int_bytes (pos (length answer)) ++ answer)))
      → transmition (ringing timer_set alarm) ret (to_message r)
        ≡ get_answer net.answering
            (to_message r).return_type
            ret
            (some (int_bytes (pos (length (got (set_timeout timer_set alarm) answer)))))
            (some (got (set_timeout timer_set alarm) answer))
  unfolding transmition send_cmd
  ringing_lem timer_set alarm ret answer h e =
      let sent : send_cmd (ringing timer_set alarm) (to_message r)
          ≡ done (some (written (frame r))) =
        unfold send_cmd in sent_lem net p calls memory r o q in
      rw (sent, timed_lem timer_set alarm answer h e) refl

  -- A call at a server whose timer may ring, from end to end: under the conditions of a call that
  -- gives a value, with room for that value, the client gets the value if the signal never comes,
  -- or only after the answer was sent, though a second frame follows then, or if the timer could
  -- not be set; and if the signal comes before, it gets -1 and the line about no answer, and
  -- nothing is stored.
  pub transmition_timed :
      (timer_set : Bool) (alarm : Alarm) (ret : Option ℕ) (f : FunctionMapper F) (value : Argument)
      → get_function (some memory) r.command ≡ some f
      → length f.fun.argv ≡ pos_part f.fun.argc
      → Fits f.fun r
      → length r.arguments ≤ 255
      → IsValue value
      → Gives calls f.fun.fun_ptr r.return_type (datas r.arguments) value
      → HasRoom ret value
      → transmition (ringing timer_set alarm) ret (to_message r)
        ≡ done (
            outcome_after
              (set_timeout timer_set alarm)
              (record { code = pos 0; stored = stored_value ret value; printed = [] }))
  unfolding got print_error_status
  transmition_timed timer_set alarm ret f value found stored fits few v g room =
      let answer =
        execute_client_value p calls memory r f value o.working q found stored fits few v g in
      let typed : (to_message r).return_type ≡ (to_arg value).typ =
        unfold to_message in
        Gives-typ calls f.fun.fun_ptr r.return_type (datas r.arguments) value g in
      let whole : get_answer net.answering (to_message r).return_type ret
            (some (int_bytes (pos (length (answer_body value))))) (some (answer_body value))
          ≡ done (record { code = pos 0; stored = stored_value ret value; printed = [] }) =
        rw typed (get_answer_value net.answering o.answering_grants ret value v room) in
      let late : get_answer net.answering (to_message r).return_type ret (some (int_bytes (pos 1)))
            (some (rpc_ret_no_answer ∷ []))
          ≡ failed_with (pos rpc_ret_no_answer) =
        get_answer_error net.answering o.answering_grants rpc_ret_no_answer
          (to_message r).return_type ret (omega arith) (omega arith) in
      ringing_lem timer_set alarm ret (answer_body value) (body-small value v) answer
      ∙ ends (set_timeout timer_set alarm) whole late
    where
      ends :
          (a : Alarm) {o' : Outcome}
          → get_answer net.answering
              (to_message r).return_type
              ret
              (some (int_bytes (pos (length (answer_body value)))))
              (some (answer_body value))
            ≡ done o'
          → get_answer net.answering
              (to_message r).return_type
              ret
              (some (int_bytes (pos 1)))
              (some (rpc_ret_no_answer ∷ []))
            ≡ failed_with (pos rpc_ret_no_answer)
          → get_answer net.answering
              (to_message r).return_type
              ret
              (some (int_bytes (pos (length (got a (answer_body value))))))
              (some (got a (answer_body value)))
            ≡ done (outcome_after a o')
      ends never w l = w
      ends before_answer w l = l
      ends after_answer w l = w
