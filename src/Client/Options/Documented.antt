-- ===== src/Client/Options/Documented.antt =====
-- The command lines that the help text of src/c_client.h allows, with a `void` argument.
use remote_procedure_control.Prelude.{ℕ, suc, ◌≡◌, true, List, [], ◌∷◌}
use remote_procedure_control.Machine.{Bytes}
use remote_procedure_control.Client.Options.{is_type_command}

-- A type and a value for each of `n` arguments.
pub data Pairs : List Bytes → ℕ → Type 0 where
  no_pair : Pairs [] 0
  pair :
      (typ value : Bytes) {words : List Bytes} {n : ℕ}
      → is_type_command typ ≡ true
      → Pairs words n
      → Pairs (typ ∷ value ∷ words) (suc n)
