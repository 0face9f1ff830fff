-- ===== src/Mapper/Create.antt =====
-- `create_function`: what it accepts, and what it stores.
use remote_procedure_control.Prelude.{
  ℕ, zero, suc, ◌+◌, ◌≡◌, ◌≤◌, refl, ap, sym, ◌∙◌, ltb, Bool-cases, inl, inr, List, [], ◌∷◌, arith,
  Option, none, some, length,
}
use remote_procedure_control.Prelude.Int.{ℤ, pos, pos_part}
use remote_procedure_control.Machine.{done, >>=-eq-done, done-injective, Bytes, c_string, strlen}
use remote_procedure_control.RpcData.{type_exists}
use remote_procedure_control.Mapper.{
  Function, FunctionMapper, read_parameters, copy_description, fill_function, create_function,
  max_parameters, max_description_length, function_name_length,
}

-- A loop that returns has stored one type a round, in the room of the array.
read_parameters_bounds :
    (rounds cpt : ℕ) (ap' types : List ℕ)
    → cpt ≤ max_parameters
    → read_parameters rounds cpt ap' ≡ done types
    → (length types ≡ rounds) × (cpt + rounds ≤ max_parameters)
unfolding read_parameters
read_parameters_bounds zero cpt ap' types k h = ground arith
read_parameters_bounds (suc rounds) cpt [] types k h = absurd (ground arith)
read_parameters_bounds (suc rounds) cpt (t ∷ ap') types k h =
    elim (Bool-cases (ltb cpt max_parameters)) [
      | inl room ↦
          let (rest, e, f) = >>=-eq-done (read_parameters rounds (suc cpt) ap') _ (rw room at h) in
          let (same, fits) = read_parameters_bounds rounds (suc cpt) ap' rest (ground arith) e in
          ground arith
      | inr full ↦ absurd (ground arith)
    ]

module _ {F : Type 0} where
  -- What a mapper that was filled satisfies: the lengths that are stored are those of the texts, and
  -- every array holds what was written.
  pub record IsFilled (f : FunctionMapper F) : Type 0 where
    pub named : f.name_length ≡ length f.name
    pub name_fits : f.name_length ≤ function_name_length
    pub description_fits : f.description_length ≤ max_description_length
    pub typed : f.fun.return_type ≤ 2
    pub counted : length f.fun.argv ≡ pos_part f.fun.argc
    pub parameters_fit : length f.fun.argv ≤ max_parameters

  copy_description_lem :
      (mapper f : FunctionMapper F) (description : Option Bytes)
      → copy_description mapper description ≡ done f
      → (f.name_length ≡ mapper.name_length)
        × (f.name ≡ mapper.name)
        × (f.description_length ≤ max_description_length)
  unfolding copy_description
  copy_description_lem mapper f none h = ground arith
  copy_description_lem mapper f (some text) h = ground arith

  filled_lem :
      (described f : FunctionMapper F) (name : Bytes) (fun : Function F)
      → fun.return_type ≤ 2
      → length fun.argv ≡ pos_part fun.argc
      → length fun.argv ≤ max_parameters
      → described.name_length ≡ length (c_string name)
      → described.name ≡ c_string name
      → described.name_length ≤ function_name_length
      → described.description_length ≤ max_description_length
      → record described { fun = fun } ≡ f
      → IsFilled f × (f.name ≡ c_string name) × (f.fun ≡ fun)
  filled_lem described f name fun ht hc hp hl hn hf hd e = rw (← e) (
    record {
      named = hl ∙ ap length (sym hn);
      name_fits = hf;
      description_fits = hd;
      typed = ht;
      counted = hc;
      parameters_fit = hp;
    },
    hn,
    refl,
  )

  fill_function-IsFilled :
      (mapper f : FunctionMapper F) (name : Bytes) (return_type : ℕ) (description : Option Bytes)
      (fun_ptr : F) (argc : ℤ) (types : List ℕ)
      → strlen name ≤ function_name_length
      → return_type ≤ 2
      → fill_function mapper name return_type description fun_ptr argc types ≡ done f
      → IsFilled f
        × (f.name ≡ c_string name)
        × (f.fun.return_type ≡ return_type)
        × (f.fun.argc ≡ argc)
        × (f.fun.fun_ptr ≡ fun_ptr)
  unfolding fill_function strlen
  fill_function-IsFilled mapper f name return_type description fun_ptr argc types hn ht h =
      let mapper' : FunctionMapper F = record mapper {
        name_length = length (c_string name);
        name = c_string name;
      } in
      let (described, e, g) = >>=-eq-done (copy_description mapper' description) _ h in
      let (argv, e', g') = >>=-eq-done (read_parameters (pos_part argc) 0 types) _ g in
      let (stored, fits) = read_parameters_bounds (pos_part argc) 0 types argv (omega arith) e' in
      let (kept_length, kept_name, described_fits) =
        copy_description_lem mapper' described description e in
      let fun : Function F = record {
        return_type = return_type;
        argc = argc;
        argv = argv;
        fun_ptr = fun_ptr;
      } in
      let (filled, named, same) =
        filled_lem described f name fun ht stored (omega arith) kept_length kept_name (omega arith)
          described_fits (done-injective _ _ g') in
      (
        filled,
        named,
        ap (λ (x : Function F). x.return_type) same,
        ap (λ (x : Function F). x.argc) same,
        ap (λ (x : Function F). x.fun_ptr) same,
      )

  -- If `create_function` returns 0, the lengths stored are those of the name and of the list of
  -- types, both and the description fit their arrays, the return type exists, and the mapper holds
  -- the name, the return type, the number of parameters and the pointer that were given.
  pub create_function-IsFilled :
      (mapper f : FunctionMapper F) (name : Bytes) (return_type : ℕ) (description : Option Bytes)
      (fun_ptr : F) (argc : ℤ) (types : List ℕ)
      → create_function (some mapper) name return_type description fun_ptr argc types
        ≡ done (pos 0, some f)
      → IsFilled f
        × (f.name ≡ c_string name)
        × (f.fun.return_type ≡ return_type)
        × (f.fun.argc ≡ argc)
        × (f.fun.fun_ptr ≡ fun_ptr)
  unfolding create_function type_exists
  create_function-IsFilled mapper f name return_type description fun_ptr argc types h =
      ground
        (arith, fill_function-IsFilled mapper f name return_type description fun_ptr argc types)
