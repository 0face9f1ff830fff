-- ===== src/Examples/Children.antt =====
-- The theorems on the server with its children, in runs with two clients.
use remote_procedure_control.Prelude.{
  ℕ, ◌≡◌, ◌≢◌, refl, arith, Bool, true, false, List, [], ◌∷◌, none, some, inl, All, length, ◌==◌,
  if◌then◌else◌,
}
use remote_procedure_control.Prelude.Int.{pos, negsuc}
use remote_procedure_control.Machine.{Exec, done, undefined, str_eq, c_string}
use remote_procedure_control.Machine.Cells.{written}
use remote_procedure_control.RpcData.{Pointee, int}
use remote_procedure_control.Machine.Words.{int_bytes}
use remote_procedure_control.RpcData.Protocol.{number, body}
use remote_procedure_control.RpcData.Answer.Layout.{answer_frame}
use remote_procedure_control.Mapper.{find, get_function}
use remote_procedure_control.Server.{Calls, answered}
use remote_procedure_control.Server.Called.{called}
use remote_procedure_control.Server.Called.Only.{only_call}
use remote_procedure_control.Server.Called.Found.{called_lem}
use remote_procedure_control.Server.Errors.{handled}
use remote_procedure_control.Server.Answers.{execute_client_value}
use remote_procedure_control.Server.Timer.{never}
use remote_procedure_control.Server.Tracker.{Alive, exited, no_child, keep_track_of_client, round}
use remote_procedure_control.Server.Loop
use remote_procedure_control.Server.Loop.{
  serv_sock, loop_server, tracker_thread, running, Event, State,
}
use remote_procedure_control.Server.Loop.Invariant.{InMain}
use remote_procedure_control.System.{
  Received, System, Happening, moved, child_forked, child_ended, ended, Step, Reach, start, later,
  Steps, no_step, step, serving, update, exits, by_signal, report, reaped, course, signals,
}
use remote_procedure_control.System.Distinct.{Distinct}
use remote_procedure_control.System.Known.{sons}
use remote_procedure_control.System.Refines.{server_events, Reach-server}
use remote_procedure_control.System.Processes.{Reach-children}
use remote_procedure_control.System.Running.{IsUp}
use remote_procedure_control.System.Survival.{IsOrderly, Reach-survives}
use remote_procedure_control.System.Release.{CanRelease, Reach-releases}
use remote_procedure_control.System.Fated.{IsBefore}
use remote_procedure_control.System.Requests.{
  received_of, status_of, answered_course, Reach-hung_up,
}
use remote_procedure_control.Examples.{plus_request, plus_request-IsRequest}
use remote_procedure_control.Examples.Service.{
  calls, memory, plus_mapper, working, working-IsWorking,
}
use remote_procedure_control.Examples.Threads.{sockets, process, at_process}

-- No function sends the signal.
abbrev pub kills : (f : ℕ) → List Pointee → Exec Bool
kills f args = done false

abbrev pub got : Bool → Received
got hung_up = received_of working plus_request true never hung_up

answer :
    handled working calls memory plus_request
    ≡ done (answered (written (answer_frame (number (pos 35)))))
answer =
    execute_client_value working calls memory plus_request plus_mapper (number (pos 35))
      working-IsWorking plus_request-IsRequest (unfold get_function find str_eq c_string in refl)
      refl (record { counted = refl; typed = refl; returned = refl }) (omega arith)
      (omega arith, λ h. ground arith) (refl, refl)

calling :
    called working memory
      (some (int_bytes (pos (length (body plus_request)))))
      (some (body plus_request))
    ≡ done (some (0, int (pos 42) ∷ int (negsuc 6) ∷ []))
calling =
    called_lem memory working plus_request working-IsWorking plus_mapper plus_request-IsRequest
      (unfold get_function find str_eq c_string in refl) refl
      (record { counted = refl; typed = refl; returned = refl }) (omega arith)

abbrev pub history : Bool → List Happening
history hung_up =
    moved (Event.tracker_locked true)
    ∷ moved Event.slept
    ∷ moved Event.error_checked
    ∷ moved (Event.main_unlocked true)
    ∷ moved (Event.tracked true)
    ∷ moved (Event.main_locked true)
    ∷ child_forked 11 (got hung_up)
    ∷ moved (Event.accepted 7)
    ∷ []

-- The tracker has come to the child of the first client.
abbrev pub at_child : Bool → System
at_child hung_up = record {
  server = running at_process;
  processes = update (λ son. none) 11 (some (record { received = got hung_up; phase = serving }));
  pending = false;
}

pub at_child-Reach :
    {c : Calls ℕ} (hung_up : Bool)
    → Reach c memory kills working (history hung_up) (at_child hung_up)
unfolding loop_server serv_sock keep_track_of_client
at_child-Reach hung_up =
    later
      (later
        (later
          (later
            (later
              (later
                (later (later (start sockets refl) (Step.moves refl tt (Loop.Step.accepts 7 refl)))
                  (Step.forks 11 (got hung_up) refl refl (Loop.Step.forks 7 11 refl)))
                (Step.moves refl tt (Loop.Step.main_locks 11 7 refl refl)))
              (Step.moves refl tt (Loop.Step.tracks true 11 7 refl refl)))
            (Step.moves refl tt (Loop.Step.main_unlocks refl)))
          (Step.moves refl tt (Loop.Step.goes_to_sleep 0 refl (omega arith))))
        (Step.moves refl tt (Loop.Step.wakes 0 refl)))
      (Step.moves refl tt (Loop.Step.tracker_locks 0 refl refl))

Reach-server_test : Loop.Reach working (server_events (history false)) (at_child false).server
Reach-server_test = Reach-server {calls = calls} (at_child-Reach false)

Reach-children_example :
    Distinct (sons at_process.alive)
    × All (λ (p : Alive). report ((at_child false).processes p.son) ≢ no_child) at_process.alive
Reach-children_example = Reach-children {calls = calls} (at_child-Reach false) refl

served : (hung_up : Bool) → course calls memory kills (got hung_up) ≡ done (status_of hung_up)
served hung_up =
    answered_course calls memory kills working plus_request working-IsWorking true never hung_up
      (written (answer_frame (number (pos 35)))) answer

got-IsOrderly : IsOrderly calls memory kills (got false)
unfolding signals
got-IsOrderly = (served false, silent)
  where
    silent : signals calls memory kills (got false) ≢ done true
    silent e = let never_sent : done false ≡ done true = rw calling at e in cc

-- The child ends, and the tracker takes it out.
abbrev at_end : System
at_end = record {
  server = running (record at_process {
    alive = [];
    tracker = Loop.sweeping 0 (record { behind = []; ahead = [] });
  });
  processes =
      update
        (update (at_child false).processes 11
          (some (record { received = got false; phase = ended exits })))
        11 none;
  pending = false;
}

at_end-Reach :
    Reach calls memory kills working
      (moved (Event.waited exited) ∷ child_ended 11 exits ∷ history false)
      at_end
unfolding round report reaped
at_end-Reach =
    later (later (at_child-Reach false) (Step.child_ends 11 (got false) exits refl (served false)))
      (Step.waits exited 0 process [] [] refl refl refl
        (Loop.Step.waits 0 exited process [] [] refl refl))

Reach-survives_example : IsUp at_end.server
Reach-survives_example =
    Reach-survives calls memory kills at_end-Reach
      (tt, (tt, (tt, (tt, (tt, (tt, (tt, (tt, (got-IsOrderly, (tt, tt))))))))))

-- The client of this child has hung up. It ends by a signal, and another client is accepted.
abbrev later_system : System
later_system = record {
  server = running (record at_process { main = Loop.forking 8 });
  processes =
      update (at_child true).processes 11
        (some (record { received = got true; phase = ended by_signal }));
  pending = false;
}

hung_up-Steps :
    Steps calls memory kills working
      (at_child true)
      (moved (Event.accepted 8) ∷ child_ended 11 by_signal ∷ [])
      later_system
hung_up-Steps =
    step (Step.moves refl tt (Loop.Step.accepts 8 refl))
      (step (Step.child_ends 11 (got true) by_signal refl (served true)) no_step)

Reach-hung_up_example :
    IsBefore process (Loop.sweeping 0 (record { behind = []; ahead = process ∷ [] }))
    × (at_process.owner ≡ some tracker_thread)
    × ¬ InMain (Loop.forking 8)
Reach-hung_up_example =
    Reach-hung_up calls memory kills working plus_request working-IsWorking process true never
      (written (answer_frame (number (pos 35)))) (at_child-Reach true) refl refl answer (inl refl)
      hung_up-Steps refl

-- Another set of functions, with the same first one.
abbrev other_calls : Calls ℕ
other_calls = record {
  call_void = λ f args. if f == 0 then calls.call_void f args else undefined;
  call_int = λ f args. if f == 0 then calls.call_int f args else undefined;
  call_str = λ f args. if f == 0 then calls.call_str f args else undefined;
}

only_call_example :
    handled working calls memory plus_request ≡ handled working other_calls memory plus_request
only_call_example =
    only_call working calls other_calls memory (some (int_bytes (pos (length (body plus_request)))))
      (some (body plus_request)) (rw calling (refl, refl, refl))

-- The child of the first client serves it, and the main thread may take the mutex after its end.
Reach-releases_example : CanRelease calls memory kills working [] at_process.main (at_child false)
Reach-releases_example =
    Reach-releases calls memory kills working 0 [] (process ∷ []) (at_child-Reach false)
      (tt, (tt, (tt, (tt, (tt, (tt, (got-IsOrderly, (tt, tt)))))))) refl refl
