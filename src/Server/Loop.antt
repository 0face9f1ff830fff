-- ===== src/Server/Loop.antt =====
-- src/s_server.c: the server's process as a step relation. `loop_server` runs in the main thread and
-- `check_client_track` in the tracker thread, with one mutex for the list of child processes; a child
-- is a process of its own, and does not come back from `gestion_client`.
pub mod Invariant
pub mod Exclusion
pub mod Starvation
pub mod Held
pub mod Progress
pub mod Failures
use remote_procedure_control.Prelude.{
  ℕ, suc, ◌≡◌, ◌≤◌, ◌<◌, Bool, true, false, List, [], ◌∷◌, ◌++◌, if◌then◌else◌, Option, none, some,
}
use remote_procedure_control.Machine.{Exec, done, undefined}
use remote_procedure_control.Server.{Platform, Ending}
use remote_procedure_control.Server.Tracker.{
  Alive, keep_track_of_client, Waited, Sweep, Round, goes_on, stopped, round,
}

-- What `loop_server` gets from the system before its loop: a socket or a failure, and whether each
-- call on it and the creation of the thread succeed. `no_file` is `errno == ENOENT`.
pub record SocketCalls : Type 0 where
  pub socket : Option ℕ
  pub unlinks : Bool
  pub no_file : Bool
  pub binds : Bool
  pub listens : Bool
  pub creates_thread : Bool

-- `none` is -1.
unfoldable pub serv_sock : SocketCalls → Option ℕ
serv_sock calls = elim calls.socket [
  | none ↦ none
  | some serv ↦
      if (if calls.unlinks then true else calls.no_file)
      then (if calls.binds then (if calls.listens then some serv else none) else none)
      else none
]

pub data Thread : Type 0 where
  main_thread tracker_thread : Thread

-- Where the main thread stands, with the client's socket and the child's pid.
pub data MainPc : Type 0 where
  accepting : MainPc
  forking : (client : ℕ) → MainPc
  locking tracking : (son client : ℕ) → MainPc
  unlocking : MainPc

-- Where the tracker thread stands, with its variable `error`; it holds a place in the list while it
-- sweeps.
pub data TrackerPc : Type 0 where
  checking sleeping acquiring releasing : (error : ℕ) → TrackerPc
  sweeping : (error : ℕ) → Sweep → TrackerPc
  gone : TrackerPc

pub record State : Type 0 where
  pub alive : List Alive
  pub owner : Option Thread
  pub main : MainPc
  pub tracker : TrackerPc

-- The process runs, or it has exited, or its behaviour is undefined.
pub data Server : Type 0 where
  running : State → Server
  exited : Server
  broken : Server

-- What it does to the process, whichever thread runs it.
abbrev pub kill_handler : Server
kill_handler = exited

-- The outcomes of the calls, one for each step.
pub data Event : Type 0 where
  accept_failed fork_failed error_checked slept swept killed : Event
  accepted : (client : ℕ) → Event
  forked : (son : ℕ) → Event
  main_locked main_unlocked tracker_locked tracker_unlocked : Bool → Event
  tracked : (granted : Bool) → Event
  waited : Waited → Event

-- The lock is taken when nobody holds it, and a thread that waits for it makes no step. An unlocking
-- that fails leaves it held.
pub data Step (pf : Platform) : Event → State → Server → Type 0 where
  -- `loop_server`
  accept_fails : {s : State} → s.main ≡ accepting → Step pf accept_failed s (running s)
  accepts :
      {s : State} (client : ℕ)
      → s.main ≡ accepting
      → Step pf (accepted client) s (running (record s { main = forking client }))
  fork_fails :
      {s : State} (client : ℕ)
      → s.main ≡ forking client
      → Step pf fork_failed s (running (record s { main = accepting }))
  forks :
      {s : State} (client son : ℕ)
      → s.main ≡ forking client
      → Step pf (forked son) s (running (record s { main = locking son client }))
  main_locks :
      {s : State} (son client : ℕ)
      → s.main ≡ locking son client
      → s.owner ≡ none
      → Step pf
          (main_locked true)
          s
          (running (record s { main = tracking son client; owner = some main_thread }))
  main_lock_fails :
      {s : State} (son client : ℕ)
      → s.main ≡ locking son client
      → Step pf (main_locked false) s (running (record s { main = accepting }))
  tracks :
      {s : State} (granted : Bool) (son client : ℕ) {alive : List Alive}
      → s.main ≡ tracking son client
      → keep_track_of_client granted son client s.alive ≡ done alive
      → Step pf (tracked granted) s (running (record s { main = unlocking; alive = alive }))
  track_breaks :
      {s : State} (granted : Bool) (son client : ℕ)
      → s.main ≡ tracking son client
      → keep_track_of_client granted son client s.alive ≡ undefined
      → Step pf (tracked granted) s broken
  main_unlocks :
      {s : State}
      → s.main ≡ unlocking
      → Step pf (main_unlocked true) s (running (record s { main = accepting; owner = none }))
  main_unlock_fails :
      {s : State}
      → s.main ≡ unlocking
      → Step pf (main_unlocked false) s (running (record s { main = accepting }))
  -- `check_client_track`
  ends_tracker :
      {s : State} (error : ℕ)
      → s.tracker ≡ checking error
      → 3 ≤ error
      → Step pf error_checked s (running (record s { tracker = gone }))
  goes_to_sleep :
      {s : State} (error : ℕ)
      → s.tracker ≡ checking error
      → error < 3
      → Step pf error_checked s (running (record s { tracker = sleeping error }))
  wakes :
      {s : State} (error : ℕ)
      → s.tracker ≡ sleeping error
      → Step pf slept s (running (record s { tracker = acquiring error }))
  tracker_locks :
      {s : State} (error : ℕ)
      → s.tracker ≡ acquiring error
      → s.owner ≡ none
      → Step pf (tracker_locked true) s (
          running (record s {
            tracker = sweeping error (record { behind = []; ahead = s.alive });
            owner = some tracker_thread;
          }))
  tracker_lock_fails :
      {s : State} (error : ℕ)
      → s.tracker ≡ acquiring error
      → Step pf (tracker_locked false) s (running (record s { tracker = checking (suc error) }))
  waits :
      {s : State} (error : ℕ) (w : Waited) (p : Alive) (behind ahead : List Alive) {sweep : Sweep}
      → s.tracker ≡ sweeping error (record { behind = behind; ahead = p ∷ ahead })
      → round pf w p (record { behind = behind; ahead = ahead }) ≡ done (goes_on sweep)
      → Step pf (waited w) s (
          running
            (record s { tracker = sweeping error sweep; alive = sweep.behind ++ sweep.ahead }))
  wait_stops :
      {s : State} (error : ℕ) (w : Waited) (p : Alive) (behind ahead : List Alive) {e : Ending}
      → s.tracker ≡ sweeping error (record { behind = behind; ahead = p ∷ ahead })
      → round pf w p (record { behind = behind; ahead = ahead }) ≡ done (stopped e)
      → Step pf (waited w) s exited
  wait_breaks :
      {s : State} (error : ℕ) (w : Waited) (p : Alive) (behind ahead : List Alive)
      → s.tracker ≡ sweeping error (record { behind = behind; ahead = p ∷ ahead })
      → round pf w p (record { behind = behind; ahead = ahead }) ≡ undefined
      → Step pf (waited w) s broken
  sweep_ends :
      {s : State} (error : ℕ) (behind : List Alive)
      → s.tracker ≡ sweeping error (record { behind = behind; ahead = [] })
      → Step pf swept s (running (record s { tracker = releasing error }))
  tracker_unlocks :
      {s : State} (error : ℕ)
      → s.tracker ≡ releasing error
      → Step pf
          (tracker_unlocked true)
          s
          (running (record s { tracker = checking error; owner = none }))
  tracker_unlock_fails :
      {s : State} (error : ℕ)
      → s.tracker ≡ releasing error
      → Step pf (tracker_unlocked false) s (running (record s { tracker = checking (suc error) }))
  -- `SIGUSR1` or `SIGINT`
  is_killed : {s : State} → Step pf killed s kill_handler

-- The list is empty when the loop begins, and whether there is a tracker thread is not looked at.
abbrev pub begin : Bool → State
begin created = record {
  alive = [];
  owner = none;
  main = accepting;
  tracker = if created then checking 0 else gone;
}

-- `loop_server` until its loop.
unfoldable pub loop_server : SocketCalls → Server
loop_server calls = elim (serv_sock calls) [
  | none ↦ exited
  | some serv ↦ running (begin calls.creates_thread)
]

-- What the process comes to in the steps with these events, the last one first.
pub data Reach (pf : Platform) : List Event → Server → Type 0 where
  start : (calls : SocketCalls) {t : Server} → loop_server calls ≡ t → Reach pf [] t
  later :
      {es : List Event} {s : State} {t : Server} {e : Event}
      → Reach pf es (running s)
      → Step pf e s t
      → Reach pf (e ∷ es) t
