-- ===== src/Specials/Undescribed.antt =====
-- `generate_documentation` of src/s_specials.c where a function has no description.
use remote_procedure_control.Prelude.{
  ℕ, zero, suc, ◌+◌, ◌≡◌, ◌≤◌, inl, inr, refl, ap, ◌∙◌, arith, Bool, true, ltb, List, [], ◌∷◌,
  length, if◌then◌else◌, Bool-cases, length-replicate, none, Option,
}
use remote_procedure_control.Machine.{
  Exec, done, undefined, ◌>>=◌, >>=-eq-done, done-injective, checked_size,
}
use remote_procedure_control.Machine.Cells.{Cells, poke, blit, fresh}
use remote_procedure_control.Mapper.{FunctionMapper, Memory}
use remote_procedure_control.Specials.{
  hd_name_string, hd_doc_string, no_doc_string, hd_ret_type_string, hd_nb_param_string, Place,
  ◌>=>◌, put, put_char, put_description, put_function, put_functions, int_size, type_size,
  params_size, function_size, functions_size, documentation_size, generate_documentation,
}
use remote_procedure_control.Specials.Moves.{
  Moved, Moves, Moves-then, Moves-eq, Moves-done, put-Moves, put_number-Moves, put_array-Moves,
  put_type-Moves, put_params-Moves,
}

-- A byte behind the end of the block.
poke_behind : (off b : ℕ) (cells : Cells) → length cells ≤ off → poke off b cells ≡ undefined
unfolding poke
poke_behind zero b [] h = refl
poke_behind (suc off) b [] h = refl
poke_behind zero b (c ∷ cells) h = absurd (omega arith)
poke_behind (suc off) b (c ∷ cells) h = rw (poke_behind off b cells (omega arith)) refl

checked_size-eq : (n : ℕ) {size : ℕ} → checked_size n ≡ done size → size ≡ n
checked_size-eq n h = ground arith

bind_assoc : (m : Exec Place) (g h : Place → Exec Place) → (m >>= (g >=> h)) ≡ ((m >>= g) >>= h)
bind_assoc (done s) g h = refl
bind_assoc undefined g h = refl
bind_assoc Exec.diverges g h = refl

module _ {F : Type 0} where
  -- The bytes that are written for a function and not counted in its size.
  abbrev pub uncounted : FunctionMapper F → ℕ
  uncounted f = if ltb 0 f.description_length then 0 else 20

  abbrev pub all_uncounted : List (FunctionMapper F) → ℕ
  all_uncounted [] = 0
  all_uncounted (f ∷ fmap) = uncounted f + all_uncounted fmap

  put_description-Moves :
      (f : FunctionMapper F) → Moves (put_description f) (f.description_length + uncounted f)
  unfolding put_description
  put_description-Moves f s = elim (Bool-cases (ltb 0 f.description_length)) [
    | inl given ↦
        let same : f.description_length + 0 ≡ f.description_length = omega arith in
        rw (given, same) (put_array-Moves f.description_length f.description s)
    | inr missing ↦
        let empty : f.description_length ≡ 0 = ground arith in
        rw missing (rw empty (put-Moves no_doc_string s))
  ]

  put_function-Moves :
      (f : FunctionMapper F) (size : ℕ)
      → function_size f ≡ done size
      → Moves (put_function f) (size + uncounted f)
  unfolding put_function function_size
  put_function-Moves f size h =
      let (params, k, l) = >>=-eq-done (params_size f.fun.argc f.fun.argv) _ h in
      let line = put-Moves (10 ∷ []) in
      let all = Moves-then _ _ (length hd_name_string) _ (put-Moves hd_name_string) (
        Moves-then _ _ f.name_length _ (put_array-Moves f.name_length f.name) (
          Moves-then _ _ 1 _ line (
            Moves-then _ _ (length hd_doc_string) _ (put-Moves hd_doc_string) (
              Moves-then _ _ (f.description_length + uncounted f) _ (put_description-Moves f) (
                Moves-then _ _ 1 _ line (
                  Moves-then _ _ (length hd_ret_type_string) _ (put-Moves hd_ret_type_string) (
                    Moves-then _ _ (type_size f.fun.return_type) _
                      (put_type-Moves f.fun.return_type)
                      (Moves-then _ _ 1 _ line (
                        Moves-then _ _ (length hd_nb_param_string) _ (put-Moves hd_nb_param_string)
                          (Moves-then _ _ (int_size f.fun.argc + 1) _
                            (Moves-then _ _ (int_size f.fun.argc) 1 (put_number-Moves f.fun.argc)
                              line)
                            (put_params-Moves f.fun.argc f.fun.argv params k))))))))))) in
      Moves-eq _ _ (size + uncounted f) all (omega (arith, done-injective _ _ l))

  put_functions-Moves :
      (fmap : List (FunctionMapper F)) (size : ℕ)
      → functions_size fmap ≡ done size
      → Moves (put_functions fmap) (size + all_uncounted fmap)
  unfolding put_functions functions_size
  put_functions-Moves [] size h =
      Moves-eq _ _ (size + 0) Moves-done (omega (arith, done-injective _ _ h))
  put_functions-Moves (f ∷ fmap) size h =
      let (here, e, k) = >>=-eq-done (function_size f) _ h in
      let (more, e', l) = >>=-eq-done (functions_size fmap) _ k in
      Moves-eq _ _ (size + (uncounted f + all_uncounted fmap))
        (Moves-then (put_function f) (put_functions fmap) (here + uncounted f)
          (more + all_uncounted fmap) (put_function-Moves f here e)
          (put_functions-Moves fmap more e'))
        (omega (arith, done-injective _ _ l))

  -- The last byte is written behind the block.
  writes_undefined :
      (fmap : List (FunctionMapper F)) (size : ℕ)
      → functions_size fmap ≡ done size
      → 1 ≤ all_uncounted fmap
      → (put_functions fmap >=> put_char 10 >=> put_char 0) (0, fresh (size + 2)) ≡ undefined
  unfolding put blit
  writes_undefined fmap size h some_uncounted = ends (
      Moves-then (put_functions fmap) (put_char 10) (size + all_uncounted fmap) 1
        (put_functions-Moves fmap size h) (put-Moves (10 ∷ [])) (0, fresh (size + 2)))
    where
      ends :
          Moved
            ((put_functions fmap >=> put_char 10) (0, fresh (size + 2)))
            (0, fresh (size + 2))
            (size + all_uncounted fmap + 1)
          → (put_functions fmap >=> put_char 10 >=> put_char 0) (0, fresh (size + 2)) ≡ undefined
      ends (inl u) =
          bind_assoc (put_functions fmap (0, fresh (size + 2))) (put_char 10) (put_char 0)
          ∙ ap (λ m. m >>= put_char 0) u
      ends (inr ((cpt, cells), e, c, l)) =
          let behind : poke cpt 0 cells ≡ undefined =
            poke_behind cpt 0 cells
              (omega (arith, length-replicate {A = Option ℕ} (size + 2) none)) in
          bind_assoc (put_functions fmap (0, fresh (size + 2))) (put_char 10) (put_char 0)
          ∙ ap (λ m. m >>= put_char 0) e
          ∙ rw behind refl

  -- A function without a description breaks the documentation. If at least one function of the list
  -- has a description of length 0, then where `documentation_size` returns a size and the block for
  -- it is granted, `generate_documentation` has undefined behaviour: the size does not count the
  -- text that is written instead of a description, and so the end of the block is passed.
  pub generate_undescribed :
      (granted : ℕ → Bool) (memory : Memory F) (size : ℕ)
      → documentation_size memory ≡ done size
      → granted (size + 1) ≡ true
      → 1 ≤ all_uncounted memory.fmap
      → generate_documentation granted memory ≡ undefined
  unfolding generate_documentation
  generate_undescribed granted memory size sized grants missing =
      let opened : (functions_size memory.fmap >>= λ texts. checked_size (texts + 1)) ≡ done size =
        unfold documentation_size in sized in
      let (texts, e, k) = >>=-eq-done (functions_size memory.fmap) _ opened in
      let one_more : size ≡ texts + 1 = checked_size-eq (texts + 1) k in
      let two : texts + 1 + 1 ≡ texts + 2 = omega arith in
      let room : granted (texts + 2) ≡ true = rw (one_more, two) at grants in
      rw (sized, grants)
        (rw (one_more, two) (rw (writes_undefined memory.fmap texts e missing) refl))
