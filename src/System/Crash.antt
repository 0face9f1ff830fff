-- ===== src/System/Crash.antt =====
-- How a child that a signal ends stops the server of src/s_server.c.
use remote_procedure_control.Prelude.{
  ℕ, ◌≡◌, inl, inr, refl, arith, Bool, List, [], ◌∷◌, some, All, ==_iff,
}
use remote_procedure_control.Machine.{Exec, undefined}
use remote_procedure_control.Machine.Cells.{written}
use remote_procedure_control.RpcData.{Pointee, rpc_ret_no_answer}
use remote_procedure_control.RpcData.Answer.Layout.{error_frame}
use remote_procedure_control.Mapper.{Memory}
use remote_procedure_control.Server.{Platform, Calls, answered}
use remote_procedure_control.Server.Errors.{IsWorking, send_error_lem}
use remote_procedure_control.Server.Tracker.{Alive, signaled, round}
use remote_procedure_control.Server.Loop
use remote_procedure_control.Server.Loop.{sweeping, State, Server, running, Event}
use remote_procedure_control.System.{
  Received, by_signal, serving, ended, update, report, course, System, Happening, moved,
  child_ended, Step, Steps, no_step, step,
}
use remote_procedure_control.System.Fated.{IsFated}
use remote_procedure_control.System.Hangup.{IsCrashing}

-- A child ends, or its end is reported.
abbrev pub IsOfChildren : Happening → Type 0
IsOfChildren (child_ended son status) = Unit {0}
IsOfChildren (moved (Event.waited w)) = Unit {0}
IsOfChildren _ = ⊥

module _ {F : Type 0} (calls : Calls F) (memory : Memory F) (kills : F → List Pointee → Exec Bool)
    (pf : Platform) where
  -- There are steps of the children, and reports of `waitpid`, after which the server has exited.
  abbrev pub CanExit : System → Type 0
  CanExit x =
      (hs : List Happening) × (y : System) × Steps calls memory kills pf x hs y
      × All IsOfChildren hs
      × (y.server ≡ Server.exited)

  module _ {s : State} (error : ℕ) (a : Alive) (behind ahead : List Alive) (works : IsWorking pf)
      (at_a : s.tracker ≡ sweeping error (record { behind = behind; ahead = a ∷ ahead })) where
    signaled-exits :
        (r : Received) (x : System)
        → x.server ≡ running s
        → x.processes a.son ≡ some (record { received = r; phase = ended by_signal })
        → CanExit x
    unfolding report round
    signaled-exits r x up there =
        let stops : Loop.Step pf (Event.waited signaled) s Server.exited =
          Loop.Step.wait_stops error signaled a behind ahead
            {e = answered (written (error_frame rpc_ret_no_answer))} at_a
            (rw (send_error_lem pf rpc_ret_no_answer works (omega arith)) refl) in
        (
          moved (Event.waited signaled) ∷ [],
          _,
          step (Step.waits signaled error a behind ahead up at_a (rw there refl) stops) no_step,
          (tt, tt),
          refl,
        )

    -- The child ends by a signal first.
    serving-exits :
        (r : Received) (x : System)
        → x.server ≡ running s
        → Step calls memory kills pf (child_ended a.son by_signal) x (record x {
          processes =
              update x.processes a.son (some (record { received = r; phase = ended by_signal }));
        })
        → CanExit x
    serving-exits r x up first =
        let (hs, y, steps, own, down) =
          signaled-exits r
            (record x {
              processes =
                  update x.processes a.son
                    (some (record { received = r; phase = ended by_signal }));
            })
            up (rw ((==_iff a.son a.son).1 refl) refl) in
        (child_ended a.son by_signal ∷ hs, y, step first steps, (tt, own), down)

    -- Where memory is there and `send` works, a child that crashes, and that the tracker has come to,
    -- stops the server.
    pub crashing-exits :
        (x : System)
        → x.server ≡ running s
        → IsFated (IsCrashing calls memory kills pf) x.processes a
        → CanExit x
    crashing-exits x up (r, crashes, inl there) =
        serving-exits r x up (Step.child_ends a.son r by_signal there crashes)
    crashing-exits x up (r, crashes, inr there) = signaled-exits r x up there

    -- So does one whose behaviour is undefined, if it ends by a signal.
    pub undefined-exits :
        (r : Received) (x : System)
        → x.server ≡ running s
        → x.processes a.son ≡ some (record { received = r; phase = serving })
        → course calls memory kills r ≡ undefined
        → CanExit x
    undefined-exits r x up there crashes =
        serving-exits r x up (Step.child_breaks a.son r by_signal there crashes)
