-- ===== src/System/Processes.antt =====
-- The list of the server in src/s_server.c against the table of the processes.
use remote_procedure_control.Prelude.{
  ℕ, ◌≡◌, ◌≢◌, ◌∙◌, Bool, List, [], ◌∷◌, ◌++◌, Option, none, some, All,
}
use remote_procedure_control.Machine.{Exec}
use remote_procedure_control.RpcData.{Pointee}
use remote_procedure_control.Mapper.{Memory}
use remote_procedure_control.Server.{Platform, Calls}
use remote_procedure_control.Server.Tracker.{Alive, no_child}
use remote_procedure_control.Server.Loop
use remote_procedure_control.Server.Loop.{
  SocketCalls, serv_sock, loop_server, sweeping, State, Server, running,
}
use remote_procedure_control.Server.Loop.Invariant.{Safe}
use remote_procedure_control.Server.Loop.Exclusion.{Reach-Safe}
use remote_procedure_control.System.{ended, report, Happening, System, Step, Reach, start, later}
use remote_procedure_control.System.Distinct.{Distinct, All-middle}
use remote_procedure_control.System.Known.{
  IsKnown, sons, pids, pids_split, IsKept, IsKept-update, own-IsKept, fork-IsKept, waited-running,
  round-IsKept, IsKept-alive, report-ne-no_child,
}
use remote_procedure_control.System.Refines.{Reach-server}

loop_server-begin :
    (sockets : SocketCalls) {s : State}
    → loop_server sockets ≡ running s
    → (created : Bool) × (s ≡ Loop.begin created)
unfolding loop_server
loop_server-begin sockets {s} h = begins (serv_sock sockets) h
  where
    begins :
        (serv : Option ℕ)
        → elim serv [ none ↦ Server.exited | some n ↦ running (Loop.begin sockets.creates_thread) ]
          ≡ running s
        → (created : Bool) × (s ≡ Loop.begin created)
    begins none k = cc
    begins (some n) k = (sockets.creates_thread, cc)

module _ {F : Type 0} {calls : Calls F} {memory : Memory F} {kills : F → List Pointee → Exec Bool}
    {pf : Platform} where
  pub Reach-IsKept :
      {hs : List Happening} {x : System} {s : State}
      → Reach calls memory kills pf hs x
      → x.server ≡ running s
      → IsKept x.processes (pids s.main s.alive)
  unfolding Safe
  Reach-IsKept {s = s} (start sockets {t} h) e =
      let (created, first) = loop_server-begin sockets (h ∙ e) in
      rw (first) (record { distinct = tt; known = tt })
  Reach-IsKept {s = s'} (later r (Step.moves up own st)) e =
      own-IsKept pf (rw e at st) own (Reach-IsKept r up)
  Reach-IsKept {s = s'} (later r (Step.forks {x} {s} son got up free st)) e =
      fork-IsKept pf _ (rw e at st) free (Reach-IsKept r up)
  Reach-IsKept {s = s'} (later r (Step.waits {x} {s} w error p behind ahead up at_p reported st))
        e =
      let (sweep, moved_on, same) = waited-running pf error behind p ahead (rw e at st) at_p in
      let list : s.alive ≡ behind ++ (p ∷ ahead) =
        rw at_p at (Reach-Safe (rw up at (Reach-server r))).whole in
      rw same (
        round-IsKept pf s.main p behind ahead (x.processes p.son) reported moved_on
          (rw list at (Reach-IsKept r up)))
  Reach-IsKept (later r (Step.child_ends {x} son got status there c)) e =
      IsKept-update _ son (record { received = got; phase = ended status }) (Reach-IsKept r e)
  Reach-IsKept (later r (Step.child_breaks son got status there c)) e =
      IsKept-update _ son (record { received = got; phase = ended status }) (Reach-IsKept r e)
  Reach-IsKept (later r (Step.child_signals son got there k)) e = Reach-IsKept r e
  Reach-IsKept (later r (Step.delivers up pending)) e = cc
  Reach-IsKept (later r (Step.is_killed up)) e = cc

  -- In every state that the server reaches with its children, the children in its list are
  -- different ones, and `waitpid` fails with ECHILD for none of them: each still runs, or its end
  -- was not reported yet.
  pub Reach-children :
      {hs : List Happening} {x : System} {s : State}
      → Reach calls memory kills pf hs x
      → x.server ≡ running s
      → Distinct (sons s.alive) × All (λ p. report (x.processes p.son) ≢ no_child) s.alive
  Reach-children {x = x} {s = s} r up =
      let i = IsKept-alive s.main s.alive (Reach-IsKept r up) in
      (i.distinct, reports s.alive i.known)
    where
      reports :
          (alive : List Alive)
          → All (IsKnown x.processes) (sons alive)
          → All (λ p. report (x.processes p.son) ≢ no_child) alive
      reports [] k = tt
      reports (p ∷ alive) (k, ks) = (report-ne-no_child (x.processes p.son) k, reports alive ks)

  -- The child that the tracker has come to is in the table.
  pub Reach-at :
      {hs : List Happening} {x : System} {s : State} {error : ℕ} (p : Alive)
      (behind ahead : List Alive)
      → Reach calls memory kills pf hs x
      → x.server ≡ running s
      → s.tracker ≡ sweeping error (record { behind = behind; ahead = p ∷ ahead })
      → IsKnown x.processes p.son
  unfolding Safe
  Reach-at {x = x} {s = s} p behind ahead r up at_p =
      let list : s.alive ≡ behind ++ (p ∷ ahead) =
        rw at_p at (Reach-Safe (rw up at (Reach-server r))).whole in
      let known = (rw list at (Reach-IsKept r up)).known in
      All-middle (IsKnown x.processes) (pids s.main behind) p.son (sons ahead)
        (rw (pids_split s.main behind p ahead) at known)
