-- ===== src/Server/Loop/Held.antt =====
-- The holder of the mutex of src/s_server.c is at work on the list.
use remote_procedure_control.Prelude.{ℕ, suc, ◌≡◌, Bool, false, List, Option, none, some, All}
use remote_procedure_control.Server.{Platform}
use remote_procedure_control.Server.Loop.{
  serv_sock, loop_server, begin, main_thread, tracker_thread, MainPc, accepting, forking, locking,
  TrackerPc, checking, sleeping, acquiring, gone, State, Server, running, Event, Step, Reach, start,
  later,
}
use remote_procedure_control.Server.Loop.Invariant.{InMain, InTracker}

-- An unlocking does not fail.
abbrev pub IsReleasing : Event → Type 0
IsReleasing (Event.main_unlocked false) = ⊥
IsReleasing (Event.tracker_unlocked false) = ⊥
IsReleasing _ = Unit {0}

-- Whoever holds the lock is at work on the list.
pub record IsHeld (s : State) : Type 0 where
  pub main_works : s.owner ≡ some main_thread → InMain s.main
  pub tracker_works : s.owner ≡ some tracker_thread → InTracker s.tracker

unfoldable pub Held : Server → Type 0
Held (running s) = IsHeld s
Held _ = Unit {0}

module _ {s : State} (i : IsHeld s) where
  -- A thread that does not hold the lock goes on without it.
  pub main_goes : (m : MainPc) → (InMain s.main → ⊥) → IsHeld (record s { main = m })
  main_goes m out = record {
    main_works = λ o. absurd (out (i.main_works o));
    tracker_works = i.tracker_works;
  }

  tracker_goes : (t : TrackerPc) → (InTracker s.tracker → ⊥) → IsHeld (record s { tracker = t })
  tracker_goes t out = record {
    main_works = i.main_works;
    tracker_works = λ o. absurd (out (i.tracker_works o));
  }

step-Held :
    (pf : Platform) {e : Event} {s : State} {t : Server}
    → Step pf e s t
    → IsReleasing e
    → IsHeld s
    → Held t
unfolding Held
step-Held pf (Step.accept_fails h) k i = i
step-Held pf (Step.accepts client h) k i = main_goes i (forking client) (λ x. rw h at x)
step-Held pf (Step.fork_fails client h) k i = main_goes i accepting (λ x. rw h at x)
step-Held pf (Step.forks client son h) k i = main_goes i (locking son client) (λ x. rw h at x)
step-Held pf (Step.main_locks son client h o) k i = record {
  main_works = λ x. tt;
  tracker_works = λ x. absurd (cc);
}
step-Held pf (Step.main_lock_fails son client h) k i = main_goes i accepting (λ x. rw h at x)
step-Held pf (Step.tracks granted son client h b) k i = record {
  main_works = λ x. tt;
  tracker_works = i.tracker_works;
}
step-Held pf (Step.track_breaks granted son client h b) k i = tt
step-Held pf (Step.main_unlocks h) k i = record {
  main_works = λ x. absurd (cc);
  tracker_works = λ x. absurd (cc);
}
step-Held pf (Step.main_unlock_fails h) k i = absurd k
step-Held pf (Step.ends_tracker error h b) k i = tracker_goes i gone (λ x. rw h at x)
step-Held pf (Step.goes_to_sleep error h b) k i = tracker_goes i (sleeping error) (λ x. rw h at x)
step-Held pf (Step.wakes error h) k i = tracker_goes i (acquiring error) (λ x. rw h at x)
step-Held pf (Step.tracker_locks error h o) k i = record {
  main_works = λ x. absurd (cc);
  tracker_works = λ x. tt;
}
step-Held pf (Step.tracker_lock_fails error h) k i =
    tracker_goes i (checking (suc error)) (λ x. rw h at x)
step-Held pf (Step.waits error w p behind ahead h r) k i = record {
  main_works = i.main_works;
  tracker_works = λ x. tt;
}
step-Held pf (Step.wait_stops error w p behind ahead h r) k i = tt
step-Held pf (Step.wait_breaks error w p behind ahead h r) k i = tt
step-Held pf (Step.sweep_ends error behind h) k i = record {
  main_works = i.main_works;
  tracker_works = λ x. tt;
}
step-Held pf (Step.tracker_unlocks error h) k i = record {
  main_works = λ x. absurd (cc);
  tracker_works = λ x. absurd (cc);
}
step-Held pf (Step.tracker_unlock_fails error h) k i = absurd k
step-Held pf Step.is_killed k i = tt

begin-IsHeld : (created : Bool) → IsHeld (begin created)
begin-IsHeld created = record { main_works = λ x. absurd (cc); tracker_works = λ x. absurd (cc) }

pub Reach-Held :
    {pf : Platform} {es : List Event} {t : Server} → Reach pf es t → All IsReleasing es → Held t
unfolding Held loop_server
Reach-Held (start calls h) k = rw h at (begins (serv_sock calls))
  where
    begins :
        (serv : Option ℕ)
        → Held (elim serv [ none ↦ Server.exited | some n ↦ running (begin calls.creates_thread) ])
    begins none = tt
    begins (some n) = begin-IsHeld calls.creates_thread
Reach-Held {pf} (later r st) (k, ks) = step-Held pf st k (Reach-Held r ks)
