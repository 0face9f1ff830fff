-- ===== src/Server/Loop/Starvation.antt =====
-- What a child that still runs does to the loop of src/s_server.c.
use remote_procedure_control.Prelude.{ℕ, ◌≡◌, ap, sym, ◌∙◌, List, [], ◌∷◌, ◌++◌, some, All}
use remote_procedure_control.Machine.{done}
use remote_procedure_control.Server.{Platform}
use remote_procedure_control.Server.Tracker.{Alive, still_running, Sweep, goes_on, round}
use remote_procedure_control.Server.Loop.{
  tracker_thread, MainPc, accepting, forking, locking, TrackerPc, sweeping, State, running, Event,
  Step, Reach,
}
use remote_procedure_control.Server.Loop.Invariant.{InMain, Safe, tracker_has}
use remote_procedure_control.Server.Loop.Exclusion.{Reach-Safe}

-- Steps in a row, with their events.
pub data Steps (pf : Platform) : State → List Event → State → Type 0 where
  no_step : {s : State} → Steps pf s [] s
  step :
      {s t u : State} {e : Event} {es : List Event}
      → Step pf e s (running t)
      → Steps pf t es u
      → Steps pf s (e ∷ es) u

-- `waitpid` reports nothing else than a child that still runs.
abbrev IsWaiting : Event → Type 0
IsWaiting (Event.waited w) = w ≡ still_running
IsWaiting _ = Unit {0}

-- Where the tracker stands with the lock.
record IsStuck (place : TrackerPc) (alive : List Alive) (s : State) : Type 0 where
  stays : s.tracker ≡ place
  held : s.owner ≡ some tracker_thread
  outside : InMain s.main → ⊥
  list : s.alive ≡ alive

round_still :
    (pf : Platform) (q : Alive) (behind ahead : List Alive) (sweep : Sweep)
    → round pf still_running q (record { behind = behind; ahead = ahead }) ≡ done (goes_on sweep)
    → record { behind = behind; ahead = q ∷ ahead } ≡ sweep
unfolding round
round_still pf q behind ahead sweep r = cc

module _ (pf : Platform) (error : ℕ) (behind : List Alive) (p : Alive) (ahead : List Alive) where
  abbrev place : TrackerPc
  place = sweeping error (record { behind = behind; ahead = p ∷ ahead })

  abbrev alive : List Alive
  alive = behind ++ (p ∷ ahead)

  -- The main thread moves as long as it does not want the lock.
  main_moves :
      {s : State} (m : MainPc)
      → (InMain m → ⊥)
      → IsStuck place alive s
      → IsStuck place alive (record s { main = m })
  main_moves m out i = record { stays = i.stays; held = i.held; outside = out; list = i.list }

  step-IsStuck :
      {s t : State} {e : Event}
      → Step pf e s (running t)
      → IsWaiting e
      → IsStuck place alive s
      → IsStuck place alive t
  step-IsStuck (Step.accept_fails h) w i = i
  step-IsStuck (Step.accepts client h) w i = main_moves (forking client) (λ x. x) i
  step-IsStuck (Step.fork_fails client h) w i = main_moves accepting (λ x. x) i
  step-IsStuck (Step.forks client son h) w i = main_moves (locking son client) (λ x. x) i
  step-IsStuck (Step.main_locks son client h o) w i = absurd (let k = i.held in cc)
  step-IsStuck (Step.main_lock_fails son client h) w i = main_moves accepting (λ x. x) i
  step-IsStuck (Step.tracks granted son client h k) w i = absurd (i.outside (rw h tt))
  step-IsStuck (Step.main_unlocks h) w i = absurd (i.outside (rw h tt))
  step-IsStuck (Step.main_unlock_fails h) w i = main_moves accepting (λ x. x) i
  step-IsStuck (Step.ends_tracker n h b) w i = absurd (let k = i.stays in cc)
  step-IsStuck (Step.goes_to_sleep n h b) w i = absurd (let k = i.stays in cc)
  step-IsStuck (Step.wakes n h) w i = absurd (let k = i.stays in cc)
  step-IsStuck (Step.tracker_locks n h o) w i = absurd (let k = i.stays in cc)
  step-IsStuck (Step.tracker_lock_fails n h) w i = absurd (let k = i.stays in cc)
  step-IsStuck (Step.waits {s} n u q before after {sweep} h r) w i =
      let next : record { behind = before; ahead = q ∷ after } ≡ sweep =
        round_still pf q before after sweep (rw w at r) in
      let old : sweeping n (record { behind = before; ahead = q ∷ after }) ≡ place =
        sym h ∙ i.stays in
      let same : sweep ≡ record { behind = behind; ahead = p ∷ ahead } = cc in
      record {
        stays = ap (sweeping n) (sym next) ∙ old;
        held = i.held;
        outside = i.outside;
        list = ap (λ z. z.behind ++ z.ahead) same;
      }
  step-IsStuck (Step.sweep_ends n before h) w i = absurd (let k = i.stays in cc)
  step-IsStuck (Step.tracker_unlocks n h) w i = absurd (let k = i.stays in cc)
  step-IsStuck (Step.tracker_unlock_fails n h) w i = absurd (let k = i.stays in cc)

  Steps-IsStuck :
      {s t : State} {es : List Event}
      → Steps pf s es t
      → All IsWaiting es
      → IsStuck place alive s
      → IsStuck place alive t
  Steps-IsStuck no_step w i = i
  Steps-IsStuck (step first rest) (w, ws) i = Steps-IsStuck rest ws (step-IsStuck first w i)

  -- From a state that the server reaches, where the tracker has come to a child in the list: as long
  -- as `waitpid` finds that child running, no steps of either thread move the tracker, release the
  -- mutex or change the list, so that no other child is registered or taken out.
  pub Reach-waiting :
      {es es' : List Event} {s t : State}
      → Reach pf es (running s)
      → s.tracker ≡ sweeping error (record { behind = behind; ahead = p ∷ ahead })
      → Steps pf s es' t
      → All IsWaiting es'
      → (t.tracker ≡ s.tracker) × (t.owner ≡ some tracker_thread) × (t.alive ≡ s.alive)
  unfolding Safe
  Reach-waiting {s = s} r h steps ws =
      let i = Reach-Safe r in
      let whole : s.alive ≡ alive = rw h at i.whole in
      let owned : s.owner ≡ some tracker_thread = i.tracker_owns (rw h tt) in
      let k =
        Steps-IsStuck steps ws
          (record { stays = h; held = owned; outside = tracker_has i owned; list = whole }) in
      (k.stays ∙ sym h, k.held, k.list ∙ sym whole)
