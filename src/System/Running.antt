-- ===== src/System/Running.antt =====
-- The steps of the server in src/s_server.c that it survives.
use remote_procedure_control.Prelude.{ℕ, ◌≡◌, refl, Bool, true, false, List, ◌∷◌}
use remote_procedure_control.Machine.{done, undefined}
use remote_procedure_control.Server.{Platform}
use remote_procedure_control.Server.Tracker.{
  Alive, keep_track_of_client, Waited, still_running, exited, signaled, neither, no_child, failing,
  Sweep, goes_on, round,
}
use remote_procedure_control.Server.Loop
use remote_procedure_control.Server.Loop.{sweeping, State, Server, running, Event}
use remote_procedure_control.System.{IsOwn}

-- The server runs.
abbrev pub IsUp : Server → Type 0
IsUp server = (s : State) × (server ≡ running s)

-- No memory runs out, and the process is not killed.
abbrev pub IsQuiet : Event → Type 0
IsQuiet (Event.tracked false) = ⊥
IsQuiet _ = Unit {0}

tracked-broken :
    (granted : Bool) (son client : ℕ) (alive : List Alive)
    → keep_track_of_client granted son client alive ≡ undefined
    → IsQuiet (Event.tracked granted)
    → ⊥
unfolding keep_track_of_client
tracked-broken true son client alive k q = cc
tracked-broken false son client alive k q = q

pub own-IsUp :
    (pf : Platform) {e : Event} {s : State} {t : Server}
    → Loop.Step pf e s t
    → IsOwn e
    → IsQuiet e
    → IsUp t
own-IsUp pf (Loop.Step.accept_fails h) own q = (_, refl)
own-IsUp pf (Loop.Step.accepts client h) own q = (_, refl)
own-IsUp pf (Loop.Step.fork_fails client h) own q = (_, refl)
own-IsUp pf (Loop.Step.forks client son h) own q = (_, refl)
own-IsUp pf (Loop.Step.main_locks son client h o) own q = (_, refl)
own-IsUp pf (Loop.Step.main_lock_fails son client h) own q = (_, refl)
own-IsUp pf (Loop.Step.tracks granted son client h k) own q = (_, refl)
own-IsUp pf (Loop.Step.track_breaks {s} granted son client h k) own q =
    absurd (tracked-broken granted son client s.alive k q)
own-IsUp pf (Loop.Step.main_unlocks h) own q = (_, refl)
own-IsUp pf (Loop.Step.main_unlock_fails h) own q = (_, refl)
own-IsUp pf (Loop.Step.ends_tracker n h b) own q = (_, refl)
own-IsUp pf (Loop.Step.goes_to_sleep n h b) own q = (_, refl)
own-IsUp pf (Loop.Step.wakes n h) own q = (_, refl)
own-IsUp pf (Loop.Step.tracker_locks n h o) own q = (_, refl)
own-IsUp pf (Loop.Step.tracker_lock_fails n h) own q = (_, refl)
own-IsUp pf (Loop.Step.waits n w p behind ahead h r) own q = absurd own
own-IsUp pf (Loop.Step.wait_stops n w p behind ahead h r) own q = absurd own
own-IsUp pf (Loop.Step.wait_breaks n w p behind ahead h r) own q = absurd own
own-IsUp pf (Loop.Step.sweep_ends n behind h) own q = (_, refl)
own-IsUp pf (Loop.Step.tracker_unlocks n h) own q = (_, refl)
own-IsUp pf (Loop.Step.tracker_unlock_fails n h) own q = (_, refl)
own-IsUp pf Loop.Step.is_killed own q = absurd own

pub fork-IsUp :
    (pf : Platform) {son : ℕ} {s : State} {t : Server}
    → Loop.Step pf (Event.forked son) s t
    → IsUp t
fork-IsUp pf (Loop.Step.forks client son h) = (_, refl)

-- The reports that the sweep survives.
abbrev pub IsHarmless : Waited → Type 0
IsHarmless still_running = Unit {0}
IsHarmless exited = Unit {0}
IsHarmless _ = ⊥

round_goes :
    (pf : Platform) (w : Waited) (p : Alive) (behind ahead : List Alive)
    → IsHarmless w
    → (sweep : Sweep) × (round pf w p (record { behind = behind; ahead = ahead })
        ≡ done (goes_on sweep))
unfolding round
round_goes pf still_running p behind ahead h = (record { behind = behind; ahead = p ∷ ahead }, refl)
round_goes pf exited p behind ahead h = (record { behind = behind; ahead = ahead }, refl)
round_goes pf signaled p behind ahead h = absurd h
round_goes pf neither p behind ahead h = absurd h
round_goes pf no_child p behind ahead h = absurd h
round_goes pf failing p behind ahead h = absurd h

pub wait-IsUp :
    (pf : Platform) {w : Waited} {s : State} {t : Server}
    → Loop.Step pf (Event.waited w) s t
    → IsHarmless w
    → IsUp t
wait-IsUp pf (Loop.Step.waits n w p behind ahead h r) q = (_, refl)
wait-IsUp pf (Loop.Step.wait_stops n w p behind ahead h r) q =
    absurd (let (sweep, g) = round_goes pf w p behind ahead q in cc)
wait-IsUp pf (Loop.Step.wait_breaks n w p behind ahead h r) q =
    absurd (let (sweep, g) = round_goes pf w p behind ahead q in cc)
