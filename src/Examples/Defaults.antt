-- ===== src/Examples/Defaults.antt =====
-- The theorems on the default functions at concrete numbers.
use remote_procedure_control.Prelude.{
  ℕ, zero, suc, ◌+◌, ◌++◌, ◌≡◌, ◌≤◌, refl, arith, true, [], ◌∷◌, none, some, length,
}
use remote_procedure_control.Prelude.Int.{pos, negsuc}
use remote_procedure_control.Machine.{done, ◌>>=◌, IsInt, str_eq, c_string, strlen}
use remote_procedure_control.RpcData.{Pointee, type_exists}
use remote_procedure_control.RpcData.Protocol.{number, to_arg}
use remote_procedure_control.Mapper.{
  empty_memory, create_function, fill_function, copy_description, read_parameters, initialize,
  add_function,
}
use remote_procedure_control.Client.{Network, external_call}
use remote_procedure_control.Client.Conversation.{served, IsOpen}
use remote_procedure_control.Defaults.{concat, minus, power, operate, default_calls}
use remote_procedure_control.Defaults.Registration.{
  operator_name, default_name, default_description, operator_description, register, register_all,
  add_default_functions,
}
use remote_procedure_control.Defaults.Powers.{exponent, power_lem}
use remote_procedure_control.Defaults.Registered.{
  signature, function_of, registered_lem, external_call-operate,
}
use remote_procedure_control.Machine.Cells.{written}
use remote_procedure_control.RpcData.Integer.Decimal.{decimal, digits_onto}
use remote_procedure_control.Specials.{get_type, documentation_size, generate_documentation}
use remote_procedure_control.Specials.Text.{
  types_text, params_text, number_text, function_text, functions_text,
}
use remote_procedure_control.Specials.Document.{generate_documentation_lem}
use remote_procedure_control.Service.{default_memory}
use remote_procedure_control.Service.Documented.{default_memory-IsDocumented}
use remote_procedure_control.Examples.{granted, granted-IsGranting}
use remote_procedure_control.Examples.Service.{working, working-IsWorking}

cubes-IsInt : (k : ℕ) → 1 ≤ k → k ≤ 3 → IsInt (exponent (negsuc 2) k)
unfolding exponent
cubes-IsInt zero h u = absurd (omega arith)
cubes-IsInt (suc zero) h u = omega arith
cubes-IsInt (suc (suc zero)) h u = omega arith
cubes-IsInt (suc (suc (suc zero))) h u = omega arith
cubes-IsInt (suc (suc (suc (suc k)))) h u = absurd (omega arith)

power_lem_example : operate power (negsuc 2) (pos 3) ≡ done (exponent (negsuc 2) 3)
power_lem_example = power_lem (negsuc 2) 3 cubes-IsInt

registered_lem_test :
    (add_default_functions (λ _. true) empty_memory >>= λ m. done (function_of m concat))
    ≡ done (some (signature concat))
registered_lem_test = registered_lem concat

abbrev pub network : Network
network = record {
  calling = granted;
  creating = granted;
  sending = granted;
  answering = granted;
  connects = true;
  sends = true;
  server = served working (default_calls true none) default_memory;
}

pub network-IsOpen : IsOpen network working (default_calls true none) default_memory
network-IsOpen = record {
  sending_grants = granted-IsGranting;
  answering_grants = granted-IsGranting;
  connecting = refl;
  sends_all = refl;
  serving = refl;
  working = working-IsWorking;
}

external_call-operate_example :
    external_call network
      (operator_name minus)
      1
      (some 4)
      (to_arg (number (pos 42)) ∷ to_arg (number (pos 50)) ∷ [])
    ≡ done (record { code = pos 0; stored = some (Pointee.int (negsuc 7)); printed = [] })
external_call-operate_example =
    external_call-operate network working true none default_memory minus (pos 42) (pos 50)
      (negsuc 7) 4 network-IsOpen granted-IsGranting granted-IsGranting
      (unfold add_default_functions register_all register create_function fill_function
          copy_description read_parameters initialize add_function default_name operator_name
          default_description operator_description str_eq c_string strlen type_exists in
        refl)
      (omega arith, λ h. ground arith) (omega arith, λ h. ground arith) (unfold operate in refl)
      (omega arith, λ h. ground arith) (omega arith)

generate_documentation_lem_example :
    (documentation_size default_memory ≡ done (length (functions_text default_memory.fmap) + 1))
    × (generate_documentation (λ n. true) default_memory
        ≡ done (some (written (functions_text default_memory.fmap ++ (10 ∷ 0 ∷ [])))))
generate_documentation_lem_example =
    generate_documentation_lem (λ n. true) default_memory default_memory-IsDocumented
      (unfold functions_text function_text params_text types_text number_text get_type decimal
          digits_onto default_name operator_name default_description operator_description in
        omega arith)
      refl
