-- ===== src/System/Hangup.antt =====
-- What a child that a signal ends does to the server of src/s_server.c.
use remote_procedure_control.Prelude.{◌≡◌, refl, sym, ◌∙◌, Bool, List, ◌∷◌, some}
use remote_procedure_control.Machine.{Exec, done}
use remote_procedure_control.RpcData.{Pointee}
use remote_procedure_control.Mapper.{Memory}
use remote_procedure_control.Server.{Platform, Calls}
use remote_procedure_control.Server.Tracker.{Alive}
use remote_procedure_control.Server.Loop
use remote_procedure_control.Server.Loop.{
  tracker_thread, TrackerPc, sweeping, State, Server, running, Event,
}
use remote_procedure_control.Server.Loop.Invariant.{InMain, InTracker, Safe, tracker_has}
use remote_procedure_control.Server.Loop.Exclusion.{Reach-Safe}
use remote_procedure_control.System.{
  Received, by_signal, course, System, Happening, Step, Reach, later, Steps, no_step, step,
}
use remote_procedure_control.System.Fated.{
  Listed, IsFated, IsBefore, IsDoomed, own-IsBefore, fork-IsBefore, IsFated-update, IsFated-fresh,
  round-IsFated, IsFated-ends,
}
use remote_procedure_control.System.Known.{waited-running}
use remote_procedure_control.System.Refines.{Reach-server}

running-injective : (s t : State) → running s ≡ running t → s ≡ t
running-injective s t e = cc

module _ {F : Type 0} (calls : Calls F) (memory : Memory F) (kills : F → List Pointee → Exec Bool)
    (pf : Platform) where
  -- A child that ends by a signal if nothing else ends it.
  abbrev pub IsCrashing : Received → Type 0
  IsCrashing r = course calls memory kills r ≡ done by_signal

  step-IsDoomed :
      {h : Happening} {x y : System} {s t : State} (a : Alive)
      → Step calls memory kills pf h x y
      → x.server ≡ running s
      → y.server ≡ running t
      → IsDoomed IsCrashing a x.processes s.tracker
      → IsDoomed IsCrashing a y.processes t.tracker
  step-IsDoomed {s} a (Step.moves {s = s0} up own st) now next (f, b) =
      let same : s ≡ s0 = running-injective s s0 (sym now ∙ up) in
      (f, own-IsBefore pf a (rw next at st) own (rw same at b))
  step-IsDoomed {s} a (Step.forks {x} {s = s0} son got up free st) now next (f, b) =
      let same : s ≡ s0 = running-injective s s0 (sym now ∙ up) in
      (
        IsFated-update _ x.processes son _ a (IsFated-fresh _ x.processes a son free f) f,
        fork-IsBefore pf a (rw next at st) (rw same at b),
      )
  step-IsDoomed {s} a (Step.waits {x} {s = s0} w error p behind ahead up at_p reported st) now next
        (f, b) =
      let same : s ≡ s0 = running-injective s s0 (sym now ∙ up) in
      let (sweep, r, after) = waited-running pf error behind p ahead (rw next at st) at_p in
      let in_front : Listed a (p ∷ ahead) = rw (same, at_p) at b in
      rw after (
        round-IsFated pf _ x.processes a p behind ahead (x.processes p.son) refl reported r f
          in_front)
  step-IsDoomed {s} {t} a (Step.child_ends {x} son got status there c) now next (f, b) =
      let same : s ≡ t = running-injective s t (sym now ∙ next) in
      (IsFated-ends _ x.processes a son got status there (λ k. (cc)) f, rw (← same) b)
  step-IsDoomed {s} {t} a (Step.child_breaks {x} son got status there c) now next (f, b) =
      let same : s ≡ t = running-injective s t (sym now ∙ next) in
      (IsFated-ends _ x.processes a son got status there (λ k. (cc)) f, rw (← same) b)
  step-IsDoomed {s} {t} a (Step.child_signals son got there k) now next (f, b) =
      let same : s ≡ t = running-injective s t (sym now ∙ next) in (f, rw (← same) b)
  step-IsDoomed a (Step.delivers up pending) now next d = cc
  step-IsDoomed a (Step.is_killed up) now next d = cc

  -- A server that runs ran before.
  was_running :
      {h : Happening} {x y : System} {t : State}
      → Step calls memory kills pf h x y
      → y.server ≡ running t
      → (s : State) × (x.server ≡ running s)
  was_running (Step.moves up own st) next = (_, up)
  was_running (Step.forks son got up free st) next = (_, up)
  was_running (Step.waits w error p behind ahead up at_p reported st) next = (_, up)
  was_running (Step.child_ends son got status there c) next = (_, next)
  was_running (Step.child_breaks son got status there c) next = (_, next)
  was_running (Step.child_signals son got there k) next = (_, next)
  was_running (Step.delivers up pending) next = cc
  was_running (Step.is_killed up) next = cc

  were_running :
      {hs : List Happening} {x y : System} {t : State}
      → Steps calls memory kills pf x hs y
      → y.server ≡ running t
      → (s : State) × (x.server ≡ running s)
  were_running no_step next = (_, next)
  were_running (step first rest) next =
      let (s, between) = were_running rest next in was_running first between

  Steps-IsDoomed :
      {hs : List Happening} {x y : System} {s t : State} (a : Alive)
      → Steps calls memory kills pf x hs y
      → x.server ≡ running s
      → y.server ≡ running t
      → IsDoomed IsCrashing a x.processes s.tracker
      → IsDoomed IsCrashing a y.processes t.tracker
  Steps-IsDoomed {s = s} {t = t} a no_step now next (f, b) =
      (f, rw (running-injective s t (sym now ∙ next)) at b)
  Steps-IsDoomed a (step first rest) now next d =
      let (u, between) = were_running rest next in
      Steps-IsDoomed a rest between next (step-IsDoomed a first now between d)

  Reach-Steps :
      {hs hs' : List Happening} {x y : System}
      → Reach calls memory kills pf hs x
      → Steps calls memory kills pf x hs' y
      → (all : List Happening) × Reach calls memory kills pf all y
  Reach-Steps r no_step = (_, r)
  Reach-Steps r (step first rest) = Reach-Steps (later r first) rest

  IsBefore-InTracker : (a : Alive) (t : TrackerPc) → IsBefore a t → InTracker t
  IsBefore-InTracker a (sweeping error s) b = tt
  IsBefore-InTracker a (Loop.checking error) b = absurd b
  IsBefore-InTracker a (Loop.sleeping error) b = absurd b
  IsBefore-InTracker a (Loop.acquiring error) b = absurd b
  IsBefore-InTracker a (Loop.releasing error) b = absurd b
  IsBefore-InTracker a Loop.gone b = absurd b

  Reach-owned :
      {hs : List Happening} {y : System} {t : State} (a : Alive)
      → Reach calls memory kills pf hs y
      → y.server ≡ running t
      → IsBefore a t.tracker
      → (t.owner ≡ some tracker_thread) × ¬ InMain t.main
  unfolding Safe
  Reach-owned {t = t} a r next b =
      let i = Reach-Safe (rw next at (Reach-server r)) in
      let owned = i.tracker_owns (IsBefore-InTracker a t.tracker b) in (owned, tracker_has i owned)

  -- A child that crashes stops the service. From a state that the server reaches, where the tracker
  -- sweeps and has still to come to a child that serves and that a signal will end if nothing else
  -- ends it, or that a signal has ended: as long as the server runs, whatever happens, the sweep
  -- does not get past that child, the tracker thread keeps the mutex, and the main thread is not at
  -- work on the list, so that no further client is registered.
  pub Reach-crashing :
      {hs hs' : List Happening} {x y : System} {s t : State} (a : Alive)
      → Reach calls memory kills pf hs x
      → x.server ≡ running s
      → IsFated IsCrashing x.processes a
      → IsBefore a s.tracker
      → Steps calls memory kills pf x hs' y
      → y.server ≡ running t
      → IsBefore a t.tracker × (t.owner ≡ some tracker_thread) × ¬ InMain t.main
  Reach-crashing a r now f b steps next =
      let (f', b') = Steps-IsDoomed a steps now next (f, b) in
      let (owned, out) = Reach-owned a (Reach-Steps r steps).1 next b' in (b', owned, out)
