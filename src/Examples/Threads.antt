-- ===== src/Examples/Threads.antt =====
-- The theorems on the threads of the server, in a run with two clients.
use remote_procedure_control.Prelude.{
  ◌+◌, ◌≡◌, refl, arith, true, false, List, [], ◌∷◌, none, some, length,
}
use remote_procedure_control.Server.Tracker.{Alive, still_running, keep_track_of_client, round}
use remote_procedure_control.Server.Loop.{
  SocketCalls, serv_sock, loop_server, tracker_thread, accepting, forking, sweeping, gone, State,
  running, Event, Step, Reach, start, later,
}
use remote_procedure_control.Server.Loop.Invariant.{
  InMain, InTracker, IsBounded, IsWhole, added, removed,
}
use remote_procedure_control.Server.Loop.Exclusion.{Reach-exclusion, Reach-alive, Reach-error}
use remote_procedure_control.Server.Loop.Starvation.{Steps, no_step, step, Reach-waiting}
use remote_procedure_control.Server.Loop.Progress.{CanRegister, Reach-registers}
use remote_procedure_control.Server.Loop.Failures.{IsCounted, failures, Reach-failures}
use remote_procedure_control.Examples.Service.{working}

abbrev pub sockets : SocketCalls
sockets = record {
  socket = some 3;
  unlinks = false;
  no_file = true;
  binds = true;
  listens = true;
  creates_thread = true;
}

abbrev pub process : Alive
process = record { son = 11; client_fd = 7 }

-- A client has been accepted, its child was added to the list, and the tracker has come to it.
abbrev pub at_process : State
at_process = record {
  alive = process ∷ [];
  owner = some tracker_thread;
  main = accepting;
  tracker = sweeping 0 (record { behind = []; ahead = process ∷ [] });
}

abbrev events : List Event
events =
    Event.tracker_locked true
    ∷ Event.slept
    ∷ Event.error_checked
    ∷ Event.main_unlocked true
    ∷ Event.tracked true
    ∷ Event.main_locked true
    ∷ Event.forked 11
    ∷ Event.accepted 7
    ∷ []

at_process-Reach : Reach working events (running at_process)
unfolding loop_server serv_sock keep_track_of_client
at_process-Reach =
    later
      (later
        (later
          (later
            (later
              (later
                (later (later (start sockets refl) (Step.accepts 7 refl)) (Step.forks 7 11 refl))
                (Step.main_locks 11 7 refl refl))
              (Step.tracks true 11 7 refl refl))
            (Step.main_unlocks refl))
          (Step.goes_to_sleep 0 refl (omega arith)))
        (Step.wakes 0 refl))
      (Step.tracker_locks 0 refl refl)

Reach-exclusion_example : ¬ (InMain at_process.main × InTracker at_process.tracker)
Reach-exclusion_example = Reach-exclusion at_process-Reach

Reach-alive_example :
    (length at_process.alive + removed events ≡ added events)
    × IsWhole at_process.tracker at_process.alive
Reach-alive_example = Reach-alive at_process-Reach

Reach-error_test : IsBounded at_process.tracker
Reach-error_test = Reach-error at_process-Reach

-- The child is found running, another client is accepted, and the child is found running again.
abbrev later_state : State
later_state = record at_process { main = forking 8 }

waiting :
    Steps working at_process
      (Event.waited still_running ∷ Event.accepted 8 ∷ Event.waited still_running ∷ [])
      later_state
unfolding round
waiting =
    step (Step.waits 0 still_running process [] [] refl refl) (
      step (Step.accepts 8 refl)
        (step (Step.waits 0 still_running process [] [] refl refl) no_step))

Reach-waiting_example :
    (later_state.tracker ≡ at_process.tracker)
    × (later_state.owner ≡ some tracker_thread)
    × (later_state.alive ≡ at_process.alive)
Reach-waiting_example =
    Reach-waiting working 0 [] process [] at_process-Reach refl waiting (refl, (tt, (refl, tt)))

Reach-registers_example : CanRegister working 12 8 at_process
Reach-registers_example =
    Reach-registers 12 8 at_process-Reach (tt, (tt, (tt, (tt, (tt, (tt, (tt, (tt, tt))))))))

-- The lock of the tracker fails three times.
abbrev fails_thrice : List Event
fails_thrice =
    Event.error_checked
    ∷ Event.tracker_locked false
    ∷ Event.slept
    ∷ Event.error_checked
    ∷ Event.tracker_locked false
    ∷ Event.slept
    ∷ Event.error_checked
    ∷ Event.tracker_locked false
    ∷ Event.slept
    ∷ Event.error_checked
    ∷ []

abbrev without_tracker : State
without_tracker = record { alive = []; owner = none; main = accepting; tracker = gone }

without_tracker-Reach : Reach working fails_thrice (running without_tracker)
unfolding loop_server serv_sock
without_tracker-Reach =
    later
      (later
        (later
          (later
            (later
              (later
                (later
                  (later
                    (later (later (start sockets refl) (Step.goes_to_sleep 0 refl (omega arith)))
                      (Step.wakes 0 refl))
                    (Step.tracker_lock_fails 0 refl))
                  (Step.goes_to_sleep 1 refl (omega arith)))
                (Step.wakes 1 refl))
              (Step.tracker_lock_fails 1 refl))
            (Step.goes_to_sleep 2 refl (omega arith)))
          (Step.wakes 2 refl))
        (Step.tracker_lock_fails 2 refl))
      (Step.ends_tracker 3 refl (omega arith))

Reach-failures_example : IsCounted without_tracker.tracker (failures fails_thrice)
Reach-failures_example = Reach-failures without_tracker-Reach
