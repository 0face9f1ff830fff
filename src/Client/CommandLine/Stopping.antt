-- ===== src/Client/CommandLine/Stopping.antt =====
-- `client --shutdown` of src/c_client.c.
use remote_procedure_control.Prelude.{ℕ, ◌≡◌, refl, [], ◌∷◌}
use remote_procedure_control.Machine.{done, Bytes}
use remote_procedure_control.RpcData.{Malloc}
use remote_procedure_control.Client.{Network, Outcome}
use remote_procedure_control.Client.CommandLine.{
  Flag, Shown, succeeds, call_shutdown, flag, dispatch, main_loop, main,
}

-- Whatever the call came to, the client succeeds.
pub main-shutdown :
    (malloc : Malloc) (networks : ℕ → Network) (prog cmd password : Bytes) {outcome : Outcome}
    → flag cmd ≡ Flag.shutdown
    → call_shutdown (networks 1) password ≡ done outcome
    → main malloc networks (prog ∷ cmd ∷ password ∷ []) ≡ done (succeeds Shown.nothing)
unfolding main main_loop dispatch
main-shutdown malloc networks prog cmd password asked called = rw (asked, called) refl
