-- ===== src/Service.antt =====
-- `main` of src/s_server.c: the server from its start to its loop.
pub mod Documented
use remote_procedure_control.Prelude.{
  ℕ, ◌+◌, ◌≡◌, refl, arith, Bool, true, [], ◌∷◌, Option, some, length, All,
}
use remote_procedure_control.Machine.{Exec, done, ◌>>=◌, str_eq, c_string, strlen, IsText}
use remote_procedure_control.Machine.Cells.{Cells}
use remote_procedure_control.RpcData.{type_exists}
use remote_procedure_control.Mapper.{
  Memory, FunctionMapper, empty_memory, create_function, fill_function, copy_description,
  read_parameters, initialize, add_function,
}
use remote_procedure_control.Server.Loop.{SocketCalls, Server, loop_server}
use remote_procedure_control.Specials.{generate_documentation}
use remote_procedure_control.Defaults.{
  Default, Operator, operator, documentation, concat, identity, shutdown, square, string_length,
  plus, minus, multiplication, division, power,
}
use remote_procedure_control.Defaults.Registration.{
  default_name, operator_name, default_description, operator_description, register, register_all,
  add_default_functions,
}
use remote_procedure_control.Defaults.Registered.{signature}

-- The static data when the loop begins, and what the loop begins with.
pub record Started : Type 0 where
  pub memory : Memory Default
  pub documentation : Option Cells
  pub server : Server

-- The two functions are the answers of `malloc` to the registrations and to the documentation. Neither
-- result is looked at.
unfoldable pub main : (Default → Bool) → (ℕ → Bool) → SocketCalls → Exec Started
main granted text_granted calls = do
  memory ← add_default_functions granted empty_memory
  doc ← generate_documentation text_granted memory
  done (record { memory = memory; documentation = doc; server = loop_server calls })

-- The memory that the registrations leave.
abbrev pub registered : Default → FunctionMapper Default
registered d = record {
  name_length = length (default_name d);
  name = default_name d;
  description_length = length (default_description d);
  description = default_description d;
  fun = signature d;
}

abbrev pub default_memory : Memory Default
default_memory = record {
  size = 11;
  initialized = true;
  fmap =
      registered string_length
      ∷ registered square
      ∷ registered (operator power)
      ∷ registered (operator division)
      ∷ registered (operator multiplication)
      ∷ registered (operator minus)
      ∷ registered (operator plus)
      ∷ registered shutdown
      ∷ registered identity
      ∷ registered concat
      ∷ registered documentation
      ∷ [];
}

pub registrations_lem : add_default_functions (λ _. true) empty_memory ≡ done default_memory
unfolding add_default_functions register_all register create_function fill_function copy_description
    read_parameters initialize add_function default_name operator_name default_description
    operator_description str_eq c_string strlen type_exists
registrations_lem = refl
