-- ===== src/System.antt =====
-- src/s_server.c: the server with its child processes. The system keeps a table of the processes; what
-- `waitpid` reports comes from it, and a child ends as `gestion_client` does.
pub mod Refines
pub mod Distinct
pub mod Known
pub mod Processes
pub mod Running
pub mod Survival
pub mod Release
pub mod Fated
pub mod Hangup
pub mod Requests
pub mod Crash
pub mod Division
pub mod Shutdown
pub mod Orderly
use remote_procedure_control.Prelude.{
  ℕ, ◌≡◌, Bool, true, false, List, [], ◌∷◌, ◌==◌, if◌then◌else◌, Option, none, some,
}
use remote_procedure_control.Machine.{Exec, done, undefined, ◌>>=◌, Bytes}
use remote_procedure_control.Machine.Cells.{Cells}
use remote_procedure_control.RpcData.{Pointee}
use remote_procedure_control.Mapper.{Memory}
use remote_procedure_control.Server.{Platform, Calls}
use remote_procedure_control.Server.Called.{called}
use remote_procedure_control.Server.Timer.{Alarm, gestion_client}
use remote_procedure_control.Server.Tracker.{
  Alive, Waited, still_running, exited, signaled, no_child, Sweep,
}
use remote_procedure_control.Server.Loop
use remote_procedure_control.Server.Loop.{
  SocketCalls, loop_server, TrackerPc, sweeping, State, Server, running, kill_handler, Event,
}

-- What a child gets from its client and from the system. `hung_up` says that the client has closed its
-- end before anything is sent to it.
pub record Received : Type 0 where
  pub platform : Platform
  pub timer_set : Bool
  pub alarm : Alarm
  pub size_bytes : Option Bytes
  pub body : Option Bytes
  pub hung_up : Bool

-- How a child has ended: by itself, or by a signal.
pub data Status : Type 0 where
  exits by_signal : Status

-- A `send` to a client that has hung up raises `SIGPIPE`, which the code does not handle.
pub status_after : Bool → List Cells → Status
status_after hung_up [] = exits
status_after hung_up (block ∷ blocks) = if hung_up then by_signal else exits

pub data Phase : Type 0 where
  serving : Phase
  ended : Status → Phase

pub record Child : Type 0 where
  pub received : Received
  pub phase : Phase

-- The table of the children that exist for the system: those that run, and those whose end was not
-- reported yet.
abbrev pub Table : Type 0
Table = ℕ → Option Child

abbrev pub update : Table → ℕ → Option Child → Table
update table pid c other = if other == pid then c else table other

-- `waitpid` with WNOHANG on one process.
abbrev pub phase_report : Phase → Waited
phase_report serving = still_running
phase_report (ended exits) = exited
phase_report (ended by_signal) = signaled

unfoldable pub report : Option Child → Waited
report none = no_child
report (some c) = phase_report c.phase

abbrev pub phase_left : Phase → Child → Option Child
phase_left serving c = some c
phase_left (ended status) c = none

-- A child whose end is reported leaves the table.
unfoldable pub reaped : Option Child → Option Child
reaped none = none
reaped (some c) = phase_left c.phase c

pub record System : Type 0 where
  pub server : Server
  pub processes : Table
  pub pending : Bool

-- `getppid` is the server: `pending` is set when a child has sent it `SIGUSR1`.
pub data Happening : Type 0 where
  moved : Event → Happening
  child_forked : (son : ℕ) → Received → Happening
  child_ended : (son : ℕ) → Status → Happening
  parent_signaled : (son : ℕ) → Happening
  signal_delivered killed_from_outside : Happening

-- The events of the server that do not depend on its children.
abbrev pub IsOwn : Event → Type 0
IsOwn (Event.forked son) = ⊥
IsOwn (Event.waited w) = ⊥
IsOwn Event.killed = ⊥
IsOwn _ = Unit {0}

module _ {F : Type 0} (calls : Calls F) (memory : Memory F)
    (kills : F → List Pointee → Exec Bool) where
  -- How a child ends that nothing else ends.
  unfoldable pub course : Received → Exec Status
  course r =
      gestion_client r.platform calls memory r.timer_set r.alarm r.size_bytes r.body >>= λ sent.
      done (status_after r.hung_up sent)

  -- Whether the function that it calls sends the signal to the server.
  unfoldable pub signals : Received → Exec Bool
  signals r =
      called r.platform memory r.size_bytes r.body
      >>= elim [ none ↦ done false | some (f, args) ↦ kills f args ]

  -- A step of the server's process, of one child, or of the system. A child whose behaviour is
  -- undefined may end in any way, and is taken to do nothing else to the server.
  pub data Step (pf : Platform) : Happening → System → System → Type 0 where
    moves :
        {x : System} {s : State} {t : Server} {e : Event}
        → x.server ≡ running s
        → IsOwn e
        → Loop.Step pf e s t
        → Step pf (moved e) x (record x { server = t })
    forks :
        {x : System} {s : State} {t : Server} (son : ℕ) (r : Received)
        → x.server ≡ running s
        → x.processes son ≡ none
        → Loop.Step pf (Event.forked son) s t
        → Step pf (child_forked son r) x (record x {
          server = t;
          processes = update x.processes son (some (record { received = r; phase = serving }));
        })
    waits :
        {x : System} {s : State} {t : Server} (w : Waited) (error : ℕ) (p : Alive)
        (behind ahead : List Alive)
        → x.server ≡ running s
        → s.tracker ≡ sweeping error (record { behind = behind; ahead = p ∷ ahead })
        → report (x.processes p.son) ≡ w
        → Loop.Step pf (Event.waited w) s t
        → Step pf (moved (Event.waited w)) x (record x {
          server = t;
          processes = update x.processes p.son (reaped (x.processes p.son));
        })
    child_ends :
        {x : System} (son : ℕ) (r : Received) (status : Status)
        → x.processes son ≡ some (record { received = r; phase = serving })
        → course r ≡ done status
        → Step pf (child_ended son status) x (record x {
          processes = update x.processes son (some (record { received = r; phase = ended status }));
        })
    child_breaks :
        {x : System} (son : ℕ) (r : Received) (status : Status)
        → x.processes son ≡ some (record { received = r; phase = serving })
        → course r ≡ undefined
        → Step pf (child_ended son status) x (record x {
          processes = update x.processes son (some (record { received = r; phase = ended status }));
        })
    child_signals :
        {x : System} (son : ℕ) (r : Received)
        → x.processes son ≡ some (record { received = r; phase = serving })
        → signals r ≡ done true
        → Step pf (parent_signaled son) x (record x { pending = true })
    delivers :
        {x : System} {s : State}
        → x.server ≡ running s
        → x.pending ≡ true
        → Step pf signal_delivered x (record x { server = kill_handler })
    is_killed :
        {x : System} {s : State}
        → x.server ≡ running s
        → Step pf killed_from_outside x (record x { server = kill_handler })

  -- No child at first.
  abbrev pub begin : Server → System
  begin server = record { server = server; processes = λ son. none; pending = false }

  -- What the system comes to by what happens, the last first.
  pub data Reach (pf : Platform) : List Happening → System → Type 0 where
    start : (sockets : SocketCalls) {t : Server} → loop_server sockets ≡ t → Reach pf [] (begin t)
    later :
        {hs : List Happening} {x y : System} {h : Happening}
        → Reach pf hs x
        → Step pf h x y
        → Reach pf (h ∷ hs) y

  -- Steps in a row, the first one first.
  pub data Steps (pf : Platform) : System → List Happening → System → Type 0 where
    no_step : {x : System} → Steps pf x [] x
    step :
        {x y z : System} {h : Happening} {hs : List Happening}
        → Step pf h x y
        → Steps pf y hs z
        → Steps pf x (h ∷ hs) z
