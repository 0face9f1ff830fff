-- ===== src/System/Requests.antt =====
-- What comes of a client's request for the server of src/s_server.c.
use remote_procedure_control.Prelude.{
  ◌≡◌, inl, refl, arith, Bool, true, List, if◌then◌else◌, some, length,
}
use remote_procedure_control.Prelude.Int.{pos}
use remote_procedure_control.Machine.{Exec, done, ◌>>=◌}
use remote_procedure_control.Machine.Cells.{Cells}
use remote_procedure_control.Machine.Words.{int_bytes}
use remote_procedure_control.RpcData.{Pointee, rpc_ret_no_answer}
use remote_procedure_control.RpcData.Protocol.{Request, body}
use remote_procedure_control.Mapper.{Memory}
use remote_procedure_control.Server.{Platform, Calls, Ending, answered}
use remote_procedure_control.Server.Errors.{IsWorking, handled, send_error_lem}
use remote_procedure_control.Server.Timer.{
  Alarm, never, before_answer, after_answer, timeout_handler, set_timeout, interrupted,
  gestion_client,
}
use remote_procedure_control.Server.Tracker.{Alive}
use remote_procedure_control.Server.Loop.{tracker_thread, State, running}
use remote_procedure_control.Server.Loop.Invariant.{InMain}
use remote_procedure_control.System.{
  Received, Status, exits, by_signal, serving, status_after, course, Happening, System, Reach,
  Steps,
}
use remote_procedure_control.System.Fated.{IsBefore}
use remote_procedure_control.System.Hangup.{Reach-crashing}

-- What a child gets of a request that arrives whole.
abbrev pub received_of : Platform → Request → Bool → Alarm → Bool → Received
received_of p r timer_set alarm hung_up = record {
  platform = p;
  timer_set = timer_set;
  alarm = alarm;
  size_bytes = some (int_bytes (pos (length (body r))));
  body = some (body r);
  hung_up = hung_up;
}

-- What is sent to a client that has hung up ends the child.
abbrev pub status_of : Bool → Status
status_of hung_up = if hung_up then by_signal else exits

interrupted_status :
    (p : Platform) (run : Exec Ending) (alarm : Alarm) (cells : Cells) (hung_up : Bool)
    → IsWorking p
    → run ≡ done (answered cells)
    → (interrupted p run alarm >>= λ sent. done (status_after hung_up sent))
      ≡ done (status_of hung_up)
unfolding interrupted timeout_handler status_after
interrupted_status p run never cells hung_up w e = rw e refl
interrupted_status p run before_answer cells hung_up w e =
    rw (send_error_lem p rpc_ret_no_answer w (omega arith)) refl
interrupted_status p run after_answer cells hung_up w e =
    rw (e, send_error_lem p rpc_ret_no_answer w (omega arith)) refl

module _ {F : Type 0} (calls : Calls F) (memory : Memory F) (kills : F → List Pointee → Exec Bool)
    (p : Platform) (r : Request) (w : IsWorking p) where
  -- A child that has an answer to the request exits, whether its timer rings or not, unless the
  -- client has hung up: then a signal ends it.
  pub answered_course :
      (timer_set : Bool) (alarm : Alarm) (hung_up : Bool) (cells : Cells)
      → handled p calls memory r ≡ done (answered cells)
      → course calls memory kills (received_of p r timer_set alarm hung_up)
        ≡ done (status_of hung_up)
  unfolding course gestion_client
  answered_course timer_set alarm hung_up cells h =
      interrupted_status p (handled p calls memory r) (set_timeout timer_set alarm) cells hung_up w
        h

  -- A client that hangs up stops the service. From a state that the server reaches, where the
  -- tracker sweeps and has still to come to a child that has not ended and that has an answer to
  -- the request of a client which has hung up: as long as the server runs, whatever happens, the
  -- sweep does not get past that child, the tracker thread keeps the mutex, and the main thread is
  -- not at work on the list, so that no further client is registered.
  pub Reach-hung_up :
      {pf : Platform} {hs hs' : List Happening} {x y : System} {s t : State} (a : Alive)
      (timer_set : Bool) (alarm : Alarm) (cells : Cells)
      → Reach calls memory kills pf hs x
      → x.server ≡ running s
      → x.processes a.son
        ≡ some (record { received = received_of p r timer_set alarm true; phase = serving })
      → handled p calls memory r ≡ done (answered cells)
      → IsBefore a s.tracker
      → Steps calls memory kills pf x hs' y
      → y.server ≡ running t
      → IsBefore a t.tracker × (t.owner ≡ some tracker_thread) × ¬ InMain t.main
  Reach-hung_up {pf} a timer_set alarm cells reached now there h before steps next =
      Reach-crashing calls memory kills pf a reached now
        (_, answered_course timer_set alarm true cells h, inl there) before steps next
