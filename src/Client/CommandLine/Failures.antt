-- ===== src/Client/CommandLine/Failures.antt =====
-- What `client --command` of src/c_client.c comes to.
use remote_procedure_control.Prelude.{ℕ, ◌+◌, ◌≡◌, ◌≤◌, refl, arith, List, [], ◌∷◌, length}
use remote_procedure_control.Machine.{done, undefined, ◌>>=◌, Bytes, int_max}
use remote_procedure_control.RpcData.{Message, Malloc}
use remote_procedure_control.RpcData.Deserialize.Accepts.{IsGranting}
use remote_procedure_control.Client.{Network}
use remote_procedure_control.Client.Options.{Check, accepts, rejects, check_command}
use remote_procedure_control.Client.Parsing.{Attempt, gives, exits}
use remote_procedure_control.Client.CommandLine.{
  Flag, failure, call_command, run_command, flag, dispatch, main_loop, main,
}
use remote_procedure_control.Client.Parsing.Overruns.{overruns, parse_command_lem}

run_command_lem :
    (malloc : Malloc) (net : Network) (argv : List Bytes) (cpt : ℕ)
    → IsGranting malloc
    → length argv ≤ int_max
    → run_command malloc net argv cpt ≡ overruns failure (check_command argv (cpt + 1))
unfolding run_command
run_command_lem malloc net argv cpt granting few =
    rw (parse_command_lem malloc argv (cpt + 1) granting few) (ends (check_command argv (cpt + 1)))
  where
    ends :
        (c : Check)
        → (overruns {A = Attempt Message} exits c
            >>= elim [ exits ↦ done failure | gives msg ↦ call_command malloc net msg ])
          ≡ overruns failure c
    ends (accepts n) = refl
    ends (rejects position) = refl

-- Where memory is granted, `client --command` with any words never comes to a call: words that
-- `check_command` rejects end in a failure, and those that it accepts run over the block of the
-- command's name, which has no byte for the end of the string.
pub main-command :
    (malloc : Malloc) (networks : ℕ → Network) (prog cmd : Bytes) (words : List Bytes)
    → IsGranting malloc
    → 2 + length words ≤ int_max
    → flag cmd ≡ Flag.command
    → main malloc networks (prog ∷ cmd ∷ words) ≡ elim (check_command (prog ∷ cmd ∷ words) 2) [
      | accepts n ↦ undefined
      | rejects position ↦ done failure
    ]
unfolding main main_loop dispatch
main-command malloc networks prog cmd [] granting few h =
    rw h (run_command_lem malloc (networks 1) (prog ∷ cmd ∷ []) 1 granting (omega arith))
main-command malloc networks prog cmd (w ∷ words) granting few h =
    rw h (run_command_lem malloc (networks 1) (prog ∷ cmd ∷ w ∷ words) 1 granting (omega arith))
