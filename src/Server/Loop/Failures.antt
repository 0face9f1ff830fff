-- ===== src/Server/Loop/Failures.antt =====
-- The errors that the tracker thread of src/s_server.c counts.
use remote_procedure_control.Prelude.{
  ℕ, suc, ◌≡◌, ◌≤◌, ◌<◌, ◌⊎◌, inl, inr, refl, ap, arith, Bool, true, false, List, [], ◌∷◌, Option,
  none, some,
}
use remote_procedure_control.Server.{Platform}
use remote_procedure_control.Server.Loop.{
  SocketCalls, serv_sock, loop_server, begin, TrackerPc, checking, sleeping, acquiring, sweeping,
  releasing, gone, State, Server, running, Event, Step, Reach, start, later,
}

-- How many calls on the mutex have failed in the tracker thread.
abbrev pub failures : List Event → ℕ
failures [] = 0
failures (Event.tracker_locked false ∷ es) = suc (failures es)
failures (Event.tracker_unlocked false ∷ es) = suc (failures es)
failures (e ∷ es) = failures es

-- `error` is that number: at most 3 at the test of it, and less than 3 behind the test. The thread is
-- gone after three, or there was none from the start.
abbrev pub IsCounted : TrackerPc → ℕ → Type 0
IsCounted (checking error) n = (error ≡ n) × (n ≤ 3)
IsCounted (sleeping error) n = (error ≡ n) × (n < 3)
IsCounted (acquiring error) n = (error ≡ n) × (n < 3)
IsCounted (sweeping error sweep) n = (error ≡ n) × (n < 3)
IsCounted (releasing error) n = (error ≡ n) × (n < 3)
IsCounted gone n = (n ≡ 0) ⊎ (n ≡ 3)

unfoldable Counted : Server → ℕ → Type 0
Counted (running s) n = IsCounted s.tracker n
Counted _ n = Unit {0}

step-Counted :
    (pf : Platform) {e : Event} (es : List Event) {s : State} {t : Server}
    → Step pf e s t
    → IsCounted s.tracker (failures es)
    → Counted t (failures (e ∷ es))
unfolding Counted
step-Counted pf es (Step.accept_fails h) i = i
step-Counted pf es (Step.accepts client h) i = i
step-Counted pf es (Step.fork_fails client h) i = i
step-Counted pf es (Step.forks client son h) i = i
step-Counted pf es (Step.main_locks son client h o) i = i
step-Counted pf es (Step.main_lock_fails son client h) i = i
step-Counted pf es (Step.tracks granted son client h k) i = i
step-Counted pf es (Step.track_breaks granted son client h k) i = tt
step-Counted pf es (Step.main_unlocks h) i = i
step-Counted pf es (Step.main_unlock_fails h) i = i
step-Counted pf es (Step.ends_tracker error h b) i =
    let j : IsCounted (checking error) (failures es) = rw h at i in inr (omega (arith, j.0, j.1))
step-Counted pf es (Step.goes_to_sleep error h b) i =
    let j : IsCounted (checking error) (failures es) = rw h at i in (j.0, omega (arith, j.0))
step-Counted pf es (Step.wakes error h) i = rw h at i
step-Counted pf es (Step.tracker_locks error h o) i = rw h at i
step-Counted pf es (Step.tracker_lock_fails error h) i =
    let j : IsCounted (acquiring error) (failures es) = rw h at i in
    (ap suc j.0, omega (arith, j.1))
step-Counted pf es (Step.waits error w p behind ahead h r) i = rw h at i
step-Counted pf es (Step.wait_stops error w p behind ahead h r) i = tt
step-Counted pf es (Step.wait_breaks error w p behind ahead h r) i = tt
step-Counted pf es (Step.sweep_ends error behind h) i = rw h at i
step-Counted pf es (Step.tracker_unlocks error h) i =
    let j : IsCounted (releasing error) (failures es) = rw h at i in (j.0, omega (arith, j.1))
step-Counted pf es (Step.tracker_unlock_fails error h) i =
    let j : IsCounted (releasing error) (failures es) = rw h at i in
    (ap suc j.0, omega (arith, j.1))
step-Counted pf es Step.is_killed i = tt

begin-IsCounted : (created : Bool) → IsCounted (begin created).tracker 0
begin-IsCounted true = (refl, omega arith)
begin-IsCounted false = inl refl

loop_server-Counted : (calls : SocketCalls) → Counted (loop_server calls) 0
unfolding loop_server Counted
loop_server-Counted calls = begins (serv_sock calls)
  where
    begins :
        (serv : Option ℕ)
        → Counted
            (elim serv [ none ↦ Server.exited | some n ↦ running (begin calls.creates_thread) ])
            0
    begins none = tt
    begins (some n) = begin-IsCounted calls.creates_thread

Reach-Counted :
    {pf : Platform} {es : List Event} {t : Server} → Reach pf es t → Counted t (failures es)
unfolding Counted
Reach-Counted (start calls h) = rw h at (loop_server-Counted calls)
Reach-Counted {pf} (later {es} r step) = step-Counted pf es step (Reach-Counted r)

-- The tracker thread stands at most three failures. In every state that the server reaches, the
-- count of errors is the number of calls on the mutex that have failed in that thread since its
-- start, which no success resets; this number is at most 3 at the test of it and less than 3 at
-- every other place of the loop. When the thread is gone, exactly three have failed, or none.
pub Reach-failures :
    {pf : Platform} {es : List Event} {s : State}
    → Reach pf es (running s)
    → IsCounted s.tracker (failures es)
unfolding Counted
Reach-failures r = Reach-Counted r
