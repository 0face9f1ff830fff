-- ===== src/Server/Timer.antt =====
-- src/s_server.c: the timer of a child process. `SIGALRM` may come while `execute_client` runs, or
-- between its `send` and its `_exit`; the handler ends the process.
use remote_procedure_control.Prelude.{Bool, if◌then◌else◌, List, [], ◌∷◌, Option}
use remote_procedure_control.Machine.{Exec, done, ◌>>=◌, Bytes}
use remote_procedure_control.Machine.Cells.{Cells}
use remote_procedure_control.RpcData.{rpc_ret_no_answer}
use remote_procedure_control.Mapper.{Memory}
use remote_procedure_control.Server.{
  Ending, answered, dropped, Platform, Calls, send_error, execute_client,
}

-- When the signal comes: not at all, before anything is sent, or when the answer has been sent.
pub data Alarm : Type 0 where
  never before_answer after_answer : Alarm

-- `send_error` to the current client.
unfoldable pub timeout_handler : Platform → Exec Ending
timeout_handler p = send_error p rpc_ret_no_answer

-- Is the handler set? `timer_set` is the outcome of `setitimer`, without which there is no signal.
unfoldable pub set_timeout : Bool → Alarm → Alarm
set_timeout timer_set alarm = if timer_set then alarm else never

abbrev pub sent : Ending → List Cells
sent (answered cells) = cells ∷ []
sent dropped = []

-- The blocks that are sent by a run of `execute_client` that the signal interrupts. What an
-- interrupted run would still have done does not matter.
unfoldable pub interrupted : Platform → Exec Ending → Alarm → Exec (List Cells)
interrupted p run never = run >>= λ e. done (sent e)
interrupted p run before_answer = timeout_handler p >>= λ e. done (sent e)
interrupted p run after_answer = run >>= elim [
  | answered cells ↦ timeout_handler p >>= λ e. done (cells ∷ sent e)
  | dropped ↦ done []
]

module _ {F : Type 0} where
  unfoldable pub gestion_client :
      Platform → Calls F → Memory F → Bool → Alarm → Option Bytes → Option Bytes → Exec (List Cells)
  gestion_client p calls memory timer_set alarm size_bytes body =
      interrupted p (execute_client p calls memory size_bytes body) (set_timeout timer_set alarm)
