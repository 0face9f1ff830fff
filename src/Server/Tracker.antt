-- ===== src/Server/Tracker.antt =====
-- src/s_server.c: the list of the child processes and the tracker thread that sweeps it.
pub mod Sweeps
use remote_procedure_control.Prelude.{ℕ, Bool, true, false, List, [], ◌∷◌, ◌++◌, if◌then◌else◌}
use remote_procedure_control.Machine.{Exec, done, undefined, ◌>>=◌}
use remote_procedure_control.RpcData.{rpc_ret_no_answer}
use remote_procedure_control.Server.{Ending, Platform, send_error}

pub record Alive : Type 0 where
  pub son : ℕ
  pub client_fd : ℕ

-- `granted` is the answer of `malloc`; without memory a null pointer is written through.
unfoldable pub keep_track_of_client : Bool → ℕ → ℕ → List Alive → Exec (List Alive)
keep_track_of_client granted client_pid client_fd alive =
    if granted then done (record { son = client_pid; client_fd = client_fd } ∷ alive) else undefined

-- What `waitpid` reports of a process, and the status in `info`. With ECHILD and any other error the
-- status is not set.
pub data Waited : Type 0 where
  still_running exited signaled neither no_child failing : Waited

-- Where a sweep stands: the processes behind the pointer, and those from the pointer on.
pub record Sweep : Type 0 where
  pub behind : List Alive
  pub ahead : List Alive

-- `send_error` ends the process that calls it, here the server.
pub data Round : Type 0 where
  goes_on : Sweep → Round
  stopped : Ending → Round

-- One round of the loop at the process `p`. A process that still runs is looked at again. Without a
-- status, `WIFEXITED` reads an `int` that was not set, behind a `free` of the process in one case.
unfoldable pub round : Platform → Waited → Alive → Sweep → Exec Round
round pf still_running p s = done (goes_on (record s { ahead = p ∷ s.ahead }))
round pf exited p s = done (goes_on s)
round pf signaled p s = send_error pf rpc_ret_no_answer >>= λ e. done (stopped e)
round pf neither p s = done (goes_on (record s { behind = s.behind ++ (p ∷ []) }))
round pf no_child p s = undefined
round pf failing p s = undefined

-- The loop `while (p != NULL)` on the reports of `waitpid` as they come.
pub run : Platform → List Waited → List Alive → List Alive → Exec Round
run pf [] behind ahead = done (goes_on (record { behind = behind; ahead = ahead }))
run pf (w ∷ ws) behind [] = done (goes_on (record { behind = behind; ahead = [] }))
run pf (w ∷ ws) behind (p ∷ ahead) =
    round pf w p (record { behind = behind; ahead = ahead })
    >>= elim [ goes_on s ↦ run pf ws s.behind s.ahead | stopped e ↦ done (stopped e) ]
