-- ===== src/Server/Tracker/Sweeps.antt =====
-- What a sweep of the tracker thread leaves in the list.
use remote_procedure_control.Prelude.{
  ℕ, zero, suc, ◌≡◌, refl, ap, ◌∙◌, arith, Bool, true, false, List, [], ◌∷◌, ◌++◌, if◌then◌else◌,
  length, replicate, append_assoc, append-nil,
}
use remote_procedure_control.Machine.{done}
use remote_procedure_control.Machine.Cells.{written}
use remote_procedure_control.RpcData.{rpc_ret_no_answer}
use remote_procedure_control.RpcData.Answer.Layout.{error_frame}
use remote_procedure_control.Server.{Platform, answered}
use remote_procedure_control.Server.Errors.{IsWorking, send_error_lem}
use remote_procedure_control.Server.Tracker.{
  Alive, Waited, still_running, exited, signaled, neither, goes_on, stopped, round, run,
}

-- What becomes of a child: how often `waitpid` finds it running, and whether it has exited then (it
-- was neither ended by a signal nor lost).
pub record Course : Type 0 where
  pub waits : ℕ
  pub gone : Bool

-- The reports on children with these courses, one child after the other.
abbrev pub reports : List Course → List Waited
reports [] = []
reports (c ∷ cs) =
    replicate c.waits still_running ++ ((if c.gone then exited else neither) ∷ reports cs)

-- The processes whose children have not exited.
abbrev pub remaining : List Course → List Alive → List Alive
remaining [] alive = alive
remaining (c ∷ cs) [] = []
remaining (c ∷ cs) (p ∷ alive) = if c.gone then remaining cs alive else p ∷ remaining cs alive

-- As long as a child runs, the sweep does not move.
run_waiting :
    (pf : Platform) (n : ℕ) (ws : List Waited) (behind : List Alive) (p : Alive)
    (ahead : List Alive)
    → run pf (replicate n still_running ++ ws) behind (p ∷ ahead) ≡ run pf ws behind (p ∷ ahead)
unfolding run round
run_waiting pf zero ws behind p ahead = refl
run_waiting pf (suc n) ws behind p ahead = run_waiting pf n ws behind p ahead

run_step :
    (pf : Platform) (gone : Bool) (ws : List Waited) (behind : List Alive) (p : Alive)
    (ahead : List Alive)
    → run pf ((if gone then exited else neither) ∷ ws) behind (p ∷ ahead)
      ≡ run pf ws (if gone then behind else behind ++ (p ∷ [])) ahead
unfolding run round
run_step pf true ws behind p ahead = refl
run_step pf false ws behind p ahead = refl

-- Behind the reports on some children come others: the sweep has moved past them.
pub run_lem :
    (pf : Platform) (cs : List Course) (ws : List Waited) (behind first ahead : List Alive)
    → length cs ≡ length first
    → run pf (reports cs ++ ws) behind (first ++ ahead)
      ≡ run pf ws (behind ++ remaining cs first) ahead
run_lem pf [] ws behind [] ahead h = rw (append-nil behind) refl
run_lem pf [] ws behind (p ∷ first) ahead h = absurd (omega arith)
run_lem pf (c ∷ cs) ws behind [] ahead h = absurd (omega arith)
run_lem pf (c ∷ cs) ws behind (p ∷ first) ahead h =
    rw
      (append_assoc (replicate c.waits still_running)
        ((if c.gone then exited else neither) ∷ reports cs) ws)
      (run_waiting pf c.waits ((if c.gone then exited else neither) ∷ (reports cs ++ ws)) behind p
          (first ++ ahead)
        ∙ run_step pf c.gone (reports cs ++ ws) behind p (first ++ ahead)
        ∙ run_lem pf cs ws (if c.gone then behind else behind ++ (p ∷ [])) first ahead (omega arith)
        ∙ ap (λ l. run pf ws l ahead) (kept c.gone))
  where
    kept :
        (gone : Bool)
        → (if gone then behind else behind ++ (p ∷ [])) ++ remaining cs first
          ≡ behind ++ (if gone then remaining cs first else p ∷ remaining cs first)
    kept true = refl
    kept false = append_assoc behind (p ∷ []) (remaining cs first)

-- If no child of the list was ended by a signal or lost, the sweep gets through the list after every
-- report, however often a child is still found running, and leaves the processes whose children have
-- not exited, in their order.
pub sweep_lem :
    (pf : Platform) (cs : List Course) (alive : List Alive)
    → length cs ≡ length alive
    → run pf (reports cs) [] alive
      ≡ done (goes_on (record { behind = remaining cs alive; ahead = [] }))
unfolding run
sweep_lem pf cs alive h =
    rw (append-nil (reports cs), append-nil alive) at (run_lem pf cs [] [] alive [] h)

-- If a child was ended by a signal, then after the reports on the children before it the server sends
-- the error for no answer and stops, whatever processes are left.
pub sweep_signaled :
    (pf : Platform) (cs : List Course) (ws : List Waited) (first : List Alive) (p : Alive)
    (ahead : List Alive)
    → IsWorking pf
    → length cs ≡ length first
    → run pf (reports cs ++ (signaled ∷ ws)) [] (first ++ (p ∷ ahead))
      ≡ done (stopped (answered (written (error_frame rpc_ret_no_answer))))
unfolding run round
sweep_signaled pf cs ws first p ahead w h =
    run_lem pf cs (signaled ∷ ws) [] first (p ∷ ahead) h
    ∙ rw (send_error_lem pf rpc_ret_no_answer w (omega arith))
