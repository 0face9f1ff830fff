-- ===== src/Server/Loop/Exclusion.antt =====
-- The mutex of src/s_server.c and the list that it guards.
use remote_procedure_control.Prelude.{
  Bool, true, false, ℕ, suc, ◌+◌, ◌≡◌, ◌≤◌, refl, ◌∙◌, arith, List, [], ◌∷◌, ◌++◌, Option, none,
  some, length,
}
use remote_procedure_control.Server.{Platform}
use remote_procedure_control.Server.Loop.{
  SocketCalls, serv_sock, loop_server, accepting, forking, locking, checking, sleeping, acquiring,
  gone, State, Server, running, begin, Event, Step, Reach, start, later,
}
use remote_procedure_control.Server.Loop.Invariant.{
  InMain, InTracker, IsWhole, IsBounded, added, removed, Safe, out-IsWhole, main_out, tracker_out,
  main_has, tracker_has, keep_track_length, round-length, IsSafe,
}

step-Safe :
    (pf : Platform) {e : Event} (es : List Event) {s : State} {t : Server}
    → Step pf e s t
    → IsSafe es s
    → Safe (e ∷ es) t
unfolding Safe
step-Safe pf es (Step.accept_fails h) i = record {
  main_owns = i.main_owns;
  tracker_owns = i.tracker_owns;
  whole = i.whole;
  bounded = i.bounded;
  counted = i.counted;
}
step-Safe pf es (Step.accepts client h) i = main_out refl refl i (forking client) (λ x. x)
step-Safe pf es (Step.fork_fails client h) i = main_out refl refl i accepting (λ x. x)
step-Safe pf es (Step.forks client son h) i = main_out refl refl i (locking son client) (λ x. x)
step-Safe pf es (Step.main_locks son client h o) i = record {
  main_owns = λ x. refl;
  tracker_owns = λ x. absurd (let p = i.tracker_owns x in cc);
  whole = i.whole;
  bounded = i.bounded;
  counted = i.counted;
}
step-Safe pf es (Step.main_lock_fails son client h) i = main_out refl refl i accepting (λ x. x)
step-Safe pf es (Step.tracks {s} granted son client {alive} h k) i =
    let owned = i.main_owns (rw h tt) in
    record {
      main_owns = λ x. owned;
      tracker_owns = i.tracker_owns;
      whole = out-IsWhole s.tracker alive (main_has i owned);
      bounded = i.bounded;
      counted = omega (arith, i.counted, keep_track_length granted son client s.alive alive k);
    }
step-Safe pf es (Step.track_breaks granted son client h k) i = tt
step-Safe pf es (Step.main_unlocks {s} h) i = record {
  main_owns = λ x. absurd x;
  tracker_owns = λ x. absurd (main_has i (i.main_owns (rw h tt)) x);
  whole = i.whole;
  bounded = i.bounded;
  counted = i.counted;
}
step-Safe pf es (Step.main_unlock_fails h) i = main_out refl refl i accepting (λ x. x)
step-Safe pf es (Step.ends_tracker error h b) i = tracker_out refl refl i gone (λ x. x) tt
step-Safe pf es (Step.goes_to_sleep error h b) i =
    tracker_out refl refl i (sleeping error) (λ x. x) (omega arith)
step-Safe pf es (Step.wakes error h) i =
    tracker_out refl refl i (acquiring error) (λ x. x) (rw h at i.bounded)
step-Safe pf es (Step.tracker_locks error h o) i = record {
  main_owns = λ x. absurd (let p = i.main_owns x in cc);
  tracker_owns = λ x. refl;
  whole = refl;
  bounded = rw h at i.bounded;
  counted = i.counted;
}
step-Safe pf es (Step.tracker_lock_fails error h) i =
    let b : error ≤ 2 = rw h at i.bounded in
    tracker_out refl refl i (checking (suc error)) (λ x. x) (omega arith)
step-Safe pf es (Step.waits {s} error w p behind ahead {sweep} h r) i =
    let list : s.alive ≡ behind ++ (p ∷ ahead) = rw h at i.whole in
    let before : length (behind ++ (p ∷ ahead)) + removed es ≡ added es = rw list at i.counted in
    record {
      main_owns = i.main_owns;
      tracker_owns = λ x. i.tracker_owns (rw h tt);
      whole = refl;
      bounded = rw h at i.bounded;
      counted = round-length pf w p behind ahead sweep es r ∙ before;
    }
step-Safe pf es (Step.wait_stops error w p behind ahead h r) i = tt
step-Safe pf es (Step.wait_breaks error w p behind ahead h r) i = tt
step-Safe pf es (Step.sweep_ends error behind h) i = record {
  main_owns = i.main_owns;
  tracker_owns = λ x. i.tracker_owns (rw h tt);
  whole = tt;
  bounded = rw h at i.bounded;
  counted = i.counted;
}
step-Safe pf es (Step.tracker_unlocks error h) i =
    let b : error ≤ 2 = rw h at i.bounded in
    record {
      main_owns = λ x. absurd (tracker_has i (i.tracker_owns (rw h tt)) x);
      tracker_owns = λ x. absurd x;
      whole = tt;
      bounded = omega arith;
      counted = i.counted;
    }
step-Safe pf es (Step.tracker_unlock_fails error h) i =
    let b : error ≤ 2 = rw h at i.bounded in
    tracker_out refl refl i (checking (suc error)) (λ x. x) (omega arith)
step-Safe pf es Step.is_killed i = tt

begin-IsSafe : (created : Bool) → IsSafe [] (begin created)
begin-IsSafe true = record {
  main_owns = λ x. absurd x;
  tracker_owns = λ x. absurd x;
  whole = tt;
  bounded = omega arith;
  counted = refl;
}
begin-IsSafe false = record {
  main_owns = λ x. absurd x;
  tracker_owns = λ x. absurd x;
  whole = tt;
  bounded = tt;
  counted = refl;
}

loop_server-Safe : (calls : SocketCalls) → Safe [] (loop_server calls)
unfolding loop_server Safe
loop_server-Safe calls = begins (serv_sock calls)
  where
    begins :
        (serv : Option ℕ)
        → Safe []
            (elim serv [ none ↦ Server.exited | some n ↦ running (begin calls.creates_thread) ])
    begins none = tt
    begins (some n) = begin-IsSafe calls.creates_thread

pub Reach-Safe : {pf : Platform} {es : List Event} {t : Server} → Reach pf es t → Safe es t
unfolding Safe
Reach-Safe (start calls h) = rw h at (loop_server-Safe calls)
Reach-Safe {pf} (later {es} r step) = step-Safe pf es step (Reach-Safe r)

-- In every state that the server reaches, the main thread and the tracker thread are not both at work
-- on the list, whatever the order of their steps and whatever calls fail.
pub Reach-exclusion :
    {pf : Platform} {es : List Event} {s : State}
    → Reach pf es (running s)
    → ¬ (InMain s.main × InTracker s.tracker)
unfolding Safe
Reach-exclusion r (m, t) = let i = Reach-Safe r in main_has i (i.main_owns m) t

-- In every state that the server reaches, the list has as many children as were added less those that
-- the tracker found exited, and while the tracker sweeps, the children behind its pointer and those
-- from it on are the list.
pub Reach-alive :
    {pf : Platform} {es : List Event} {s : State}
    → Reach pf es (running s)
    → (length s.alive + removed es ≡ added es) × IsWhole s.tracker s.alive
unfolding Safe
Reach-alive r = let i = Reach-Safe r in (i.counted, i.whole)

-- In every state that the server reaches, the tracker's count of errors is at most 3 at the test of
-- it, and at most 2 behind that test.
pub Reach-error :
    {pf : Platform} {es : List Event} {s : State} → Reach pf es (running s) → IsBounded s.tracker
unfolding Safe
Reach-error r = let i = Reach-Safe r in i.bounded
