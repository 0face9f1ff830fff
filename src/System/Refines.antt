-- ===== src/System/Refines.antt =====
-- The server with its children is a run of the server's process alone.
use remote_procedure_control.Prelude.{List, [], ◌∷◌, Bool}
use remote_procedure_control.Machine.{Exec}
use remote_procedure_control.RpcData.{Pointee}
use remote_procedure_control.Mapper.{Memory}
use remote_procedure_control.Server.{Platform, Calls}
use remote_procedure_control.Server.Loop
use remote_procedure_control.Server.Loop.{Server, Event}
use remote_procedure_control.System.{
  Happening, moved, child_forked, child_ended, parent_signaled, signal_delivered,
  killed_from_outside, System, Step, Reach, start, later,
}

-- What happens to the server's process.
abbrev pub server_events : List Happening → List Event
server_events [] = []
server_events (moved e ∷ hs) = e ∷ server_events hs
server_events (child_forked son r ∷ hs) = Event.forked son ∷ server_events hs
server_events (child_ended son status ∷ hs) = server_events hs
server_events (parent_signaled son ∷ hs) = server_events hs
server_events (signal_delivered ∷ hs) = Event.killed ∷ server_events hs
server_events (killed_from_outside ∷ hs) = Event.killed ∷ server_events hs

module _ {F : Type 0} {calls : Calls F} {memory : Memory F} {kills : F → List Pointee → Exec Bool}
    {pf : Platform} where
  -- Every run of the server with its children is, for the server, a run of its two threads alone.
  pub Reach-server :
      {hs : List Happening} {x : System}
      → Reach calls memory kills pf hs x
      → Loop.Reach pf (server_events hs) x.server
  Reach-server (start sockets h) = Loop.start sockets h
  Reach-server (later r (Step.moves running own s)) = Loop.later (rw running at (Reach-server r)) s
  Reach-server (later r (Step.forks son got running free s)) =
      Loop.later (rw running at (Reach-server r)) s
  Reach-server (later r (Step.waits w error p behind ahead running at_p reported s)) =
      Loop.later (rw running at (Reach-server r)) s
  Reach-server (later r (Step.child_ends son got status there c)) = Reach-server r
  Reach-server (later r (Step.child_breaks son got status there c)) = Reach-server r
  Reach-server (later r (Step.child_signals son got there k)) = Reach-server r
  Reach-server (later r (Step.delivers running pending)) =
      Loop.later (rw running at (Reach-server r)) Loop.Step.is_killed
  Reach-server (later r (Step.is_killed running)) =
      Loop.later (rw running at (Reach-server r)) Loop.Step.is_killed
