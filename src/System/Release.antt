-- ===== src/System/Release.antt =====
-- How the tracker of src/s_server.c comes to the end of its list and releases the mutex.
use remote_procedure_control.Prelude.{
  ℕ, ◌≡◌, ◌≢◌, ==_iff, refl, ◌∙◌, Bool, true, List, [], ◌∷◌, ◌++◌, append-nil, Option, none, some,
  All,
}
use remote_procedure_control.Machine.{Exec, done}
use remote_procedure_control.RpcData.{Pointee}
use remote_procedure_control.Mapper.{Memory}
use remote_procedure_control.Server.{Platform, Calls}
use remote_procedure_control.Server.Tracker.{Alive, exited, round}
use remote_procedure_control.Server.Loop
use remote_procedure_control.Server.Loop.{sweeping, releasing, MainPc, State, running, Event}
use remote_procedure_control.Server.Loop.Invariant.{Safe}
use remote_procedure_control.Server.Loop.Exclusion.{Reach-Safe}
use remote_procedure_control.System.{
  Received, exits, by_signal, Phase, serving, ended, Child, course, report, System, Happening,
  moved, child_ended, Step, Steps, no_step, step, Reach, later,
}
use remote_procedure_control.System.Refines.{Reach-server}
use remote_procedure_control.System.Processes.{Reach-at}
use remote_procedure_control.System.Survival.{IsPeaceful, IsServed, Reach-IsPeace}

-- A child exits, or the tracker finds that one has exited, ends its sweep or releases the mutex.
abbrev pub IsOfSweep : Happening → Type 0
IsOfSweep (child_ended son exits) = Unit {0}
IsOfSweep (moved (Event.waited exited)) = Unit {0}
IsOfSweep (moved Event.swept) = Unit {0}
IsOfSweep (moved (Event.tracker_unlocked true)) = Unit {0}
IsOfSweep _ = ⊥

-- Nobody holds the mutex, the main thread is at `main`, and the list is `left`.
pub record IsReleased (left : List Alive) (main : MainPc) (y : System) (t : State) : Type 0 where
  pub up : y.server ≡ running t
  pub free : t.owner ≡ none
  pub kept : t.main ≡ main
  pub alive : t.alive ≡ left

module _ {F : Type 0} (calls : Calls F) (memory : Memory F) (kills : F → List Pointee → Exec Bool)
    (pf : Platform) where
  -- There are such steps after which the server runs in a state that fits.
  abbrev pub CanRelease : List Alive → MainPc → System → Type 0
  CanRelease left main x =
      (hs : List Happening) × (y : System) × (t : State) × Steps calls memory kills pf x hs y
      × All IsOfSweep hs
      × IsReleased left main y t

  -- A state that is reached in peace, with the tracker before `ahead`.
  record IsSweeping (error : ℕ) (behind ahead : List Alive) (s : State) (x : System) : Type 0 where
    history : List Happening
    reached : Reach calls memory kills pf history x
    peaceful : All (IsPeaceful calls memory kills) history
    up : x.server ≡ running s
    place : s.tracker ≡ sweeping error (record { behind = behind; ahead = ahead })

  -- One step first.
  step-CanRelease :
      {h : Happening} {x y : System} (left : List Alive) (main : MainPc)
      → IsOfSweep h
      → Step calls memory kills pf h x y
      → CanRelease left main y
      → CanRelease left main x
  step-CanRelease {h} left main own first (hs, z, t, steps, owns, i) =
      (h ∷ hs, z, t, step first steps, (own, owns), i)

  end-CanRelease :
      (error : ℕ) (behind : List Alive) (s : State) (x : System)
      → IsSweeping error behind [] s x
      → CanRelease behind s.main x
  unfolding Safe
  end-CanRelease error behind s x i =
      let list : s.alive ≡ behind ++ [] =
        rw i.place at (Reach-Safe (rw i.up at (Reach-server i.reached))).whole in
      step-CanRelease behind s.main tt
        (Step.moves i.up tt (Loop.Step.sweep_ends error behind i.place))
        (step-CanRelease behind s.main tt
          (Step.moves refl tt (Loop.Step.tracker_unlocks error refl))
          (
            [],
            _,
            _,
            no_step,
            tt,
            record { up = refl; free = refl; kept = refl; alive = list ∙ append-nil behind },
          ))

  module _ (error : ℕ) (behind : List Alive) (p : Alive) (ahead : List Alive)
      (next : (s : State) (x : System)
        → IsSweeping error behind ahead s x
        → CanRelease behind s.main x) where
    -- The tracker finds that the child has exited.
    exited-CanRelease :
        (s : State) (x : System) (r : Received)
        → IsSweeping error behind (p ∷ ahead) s x
        → x.processes p.son ≡ some (record { received = r; phase = ended exits })
        → CanRelease behind s.main x
    unfolding report round
    exited-CanRelease s x r i there =
        let first = Step.waits exited error p behind ahead i.up i.place (rw there refl) (
          Loop.Step.waits error exited p behind ahead
            {sweep = record { behind = behind; ahead = ahead }} i.place refl) in
        step-CanRelease behind s.main tt first (
          next _ _ (record {
            history = moved (Event.waited exited) ∷ i.history;
            reached = later i.reached first;
            peaceful = (tt, i.peaceful);
            up = refl;
            place = refl;
          }))

    serving-CanRelease :
        (s : State) (x : System) (r : Received)
        → IsSweeping error behind (p ∷ ahead) s x
        → x.processes p.son ≡ some (record { received = r; phase = serving })
        → course calls memory kills r ≡ done exits
        → CanRelease behind s.main x
    serving-CanRelease s x r i there ends =
        let first = Step.child_ends p.son r exits there ends in
        step-CanRelease behind s.main tt first (
          exited-CanRelease s _ r
            (record {
              history = child_ended p.son exits ∷ i.history;
              reached = later i.reached first;
              peaceful = (tt, i.peaceful);
              up = i.up;
              place = i.place;
            })
            (rw ((==_iff p.son p.son).1 refl) refl))

    child-CanRelease :
        (s : State) (x : System) (r : Received) (b : Phase)
        → IsSweeping error behind (p ∷ ahead) s x
        → x.processes p.son ≡ some (record { received = r; phase = b })
        → IsServed calls memory kills (some (record { received = r; phase = b }))
        → CanRelease behind s.main x
    child-CanRelease s x r serving i there (orderly, well) =
        serving-CanRelease s x r i there orderly.0
    child-CanRelease s x r (ended exits) i there served = exited-CanRelease s x r i there
    child-CanRelease s x r (ended by_signal) i there (orderly, well) = absurd (well refl)

    found-CanRelease :
        (s : State) (x : System)
        → IsSweeping error behind (p ∷ ahead) s x
        → CanRelease behind s.main x
    found-CanRelease s x i =
        by_entry (x.processes p.son) refl (Reach-at p behind ahead i.reached i.up i.place)
          ((Reach-IsPeace calls memory kills i.reached i.peaceful).served p.son)
      where
        by_entry :
            (c : Option Child)
            → x.processes p.son ≡ c
            → x.processes p.son ≢ none
            → IsServed calls memory kills c
            → CanRelease behind s.main x
        by_entry none there known served = absurd (known there)
        by_entry (some c) there known served =
            child-CanRelease s x c.received c.phase i there served

  sweep-CanRelease :
      (error : ℕ) (behind ahead : List Alive) (s : State) (x : System)
      → IsSweeping error behind ahead s x
      → CanRelease behind s.main x
  sweep-CanRelease error behind [] s x i = end-CanRelease error behind s x i
  sweep-CanRelease error behind (p ∷ ahead) s x i =
      found-CanRelease error behind p ahead (sweep-CanRelease error behind ahead) s x i

  -- With orderly clients the tracker can always finish its sweep. Suppose that memory is granted for
  -- every entry of the tracker, that nobody kills the server from outside, and that each child forked
  -- so far has a client with which it exits by itself and does not send the server its signal. Then
  -- from every state reached in which the tracker sweeps there are steps of the children and of the
  -- tracker alone, each of them the exit of a child, the report of one, the end of the sweep or the
  -- release of the mutex, after which nobody holds the mutex, every child from the tracker's pointer
  -- on has left the list, and the main thread is where it was.
  pub Reach-releases :
      {hs : List Happening} {x : System} {s : State} (error : ℕ) (behind ahead : List Alive)
      → Reach calls memory kills pf hs x
      → All (IsPeaceful calls memory kills) hs
      → x.server ≡ running s
      → s.tracker ≡ sweeping error (record { behind = behind; ahead = ahead })
      → CanRelease behind s.main x
  Reach-releases {hs} {x} {s} error behind ahead r q up at_s =
      sweep-CanRelease error behind ahead s x
        (record { history = hs; reached = r; peaceful = q; up = up; place = at_s })
