-- ===== src/Mapper/Debug.antt =====
-- The displays of src/s_mapper.c for the debugging build: the lines that they write on the error
-- output.
use remote_procedure_control.Prelude.{
  ℕ, ◌+◌, ◌≡◌, refl, Bool, true, false, ◌||◌, ltb, leb, if◌then◌else◌, List, [], ◌∷◌, ◌++◌, Option,
  none, some,
}
use remote_procedure_control.Prelude.Int.{ℤ, pos_part}
use remote_procedure_control.Machine.{Exec, done, diverges, ◌>>=◌, Bytes, c_string}
use remote_procedure_control.RpcData.{rpc_ty_str}
use remote_procedure_control.Mapper.{Function, FunctionMapper, Memory}

module _ (F : Type 0) where
  -- The bytes of a function pointer are shown for a type that exists.
  pub data Line : Type 0 where
    is_null invalid_address : Line
    function : ℕ → Line
    name_length : ℕ → Line
    name : Bytes → Line
    return_type : ℕ → Line
    function_ptr : F → Line
    argc : ℤ → Line

module _ {F : Type 0} where
  -- `while (cpt < ft->argc)`, which does not step the counter.
  print_parameters : ℤ → Exec (List (Line F))
  print_parameters n = if ltb 0 (pos_part n) then diverges else done []

  print_function_type_state : Function F → Exec (List (Line F))
  print_function_type_state ft = print_parameters ft.argc >>= λ more. done (
      return_type ft.return_type
      ∷ (if leb ft.return_type rpc_ty_str then function_ptr ft.fun_ptr else invalid_address)
      ∷ argc ft.argc
      ∷ more)

  -- A mapper of the list is no null pointer.
  print_function_mapper_state : FunctionMapper F → Exec (List (Line F))
  print_function_mapper_state mapper = print_function_type_state mapper.fun >>= λ more.
      done (name_length mapper.name_length ∷ name (c_string mapper.name) ∷ more)

  -- `LIST_FOREACH`
  print_functions : ℕ → List (FunctionMapper F) → Exec (List (Line F))
  print_functions cpt [] = done []
  print_functions cpt (f ∷ fmap) = do
    here ← print_function_mapper_state f
    more ← print_functions (cpt + 1) fmap
    done (function cpt ∷ (here ++ more))

  pub print_memory_state : Option (Memory F) → Exec (List (Line F))
  print_memory_state none = done (is_null ∷ [])
  print_memory_state (some memory) = print_functions 0 memory.fmap

  -- Some function of the list has a parameter.
  abbrev with_parameters : List (FunctionMapper F) → Bool
  with_parameters [] = false
  with_parameters (f ∷ fmap) = ltb 0 (pos_part f.fun.argc) || with_parameters fmap

  -- The lines about functions without parameters.
  abbrev function_lines : ℕ → List (FunctionMapper F) → List (Line F)
  function_lines cpt [] = []
  function_lines cpt (f ∷ fmap) =
      function cpt
      ∷ name_length f.name_length
      ∷ name (c_string f.name)
      ∷ return_type f.fun.return_type
      ∷ (if leb f.fun.return_type rpc_ty_str then function_ptr f.fun.fun_ptr else invalid_address)
      ∷ argc f.fun.argc
      ∷ function_lines (cpt + 1) fmap

  print_functions_lem :
      (cpt : ℕ) (fmap : List (FunctionMapper F))
      → print_functions cpt fmap
        ≡ (if with_parameters fmap then diverges else done (function_lines cpt fmap))
  unfolding print_functions print_function_mapper_state print_function_type_state print_parameters
  print_functions_lem cpt [] = refl
  print_functions_lem cpt (f ∷ fmap) =
      by_parameters (ltb 0 (pos_part f.fun.argc)) refl (with_parameters fmap)
        (print_functions_lem (cpt + 1) fmap)
    where
      by_parameters :
          (b : Bool)
          → ltb 0 (pos_part f.fun.argc) ≡ b
          → (c : Bool)
          → print_functions (cpt + 1) fmap
            ≡ (if c then diverges else done (function_lines (cpt + 1) fmap))
          → print_functions cpt (f ∷ fmap)
            ≡ (if b || c then diverges else done (function_lines cpt (f ∷ fmap)))
      by_parameters true e c rest = rw e refl
      by_parameters false e true rest = rw (e, rest) refl
      by_parameters false e false rest = rw (e, rest) refl

  -- The display of a memory never ends if a function has a parameter; without one it shows every
  -- function in the order of the list.
  pub print_memory_state_lem :
      (memory : Memory F)
      → print_memory_state (some memory)
        ≡ (if with_parameters memory.fmap then diverges else done (function_lines 0 memory.fmap))
  unfolding print_memory_state
  print_memory_state_lem memory = print_functions_lem 0 memory.fmap
