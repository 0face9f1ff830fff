-- ===== src/Specials/Document.antt =====
-- `generate_documentation` of src/s_specials.c fills its block with the text, exactly.
use remote_procedure_control.Prelude.{
  ℕ, ◌+◌, ◌≡◌, ◌≤◌, refl, ap, sym, ◌∙◌, arith, Bool, true, ltb, List, [], ◌∷◌, ◌++◌, none, some,
  length, length-append, length-replicate, append_assoc, append-nil, All,
}
use remote_procedure_control.Prelude.Int.{pos}
use remote_procedure_control.Machine.{done, ◌>>=◌, int_max, checked_size}
use remote_procedure_control.Machine.Cells.{Cells, fresh, written}
use remote_procedure_control.Mapper.{FunctionMapper, Memory}
use remote_procedure_control.Specials.{
  hd_name_string, hd_doc_string, hd_ret_type_string, hd_nb_param_string, hd_param_types, ◌>=>◌, put,
  put_char, put_number, put_params, put_description, put_function, put_functions, int_size,
  type_size, get_type, types_size, params_size, function_size, functions_size, documentation_size,
  generate_documentation,
}
use remote_procedure_control.Specials.Text.{
  types_text, params_text, number_text, function_text, functions_text,
}
use remote_procedure_control.Specials.Writes.{
  At, Writes, Writes-then, Writes-done, blit_behind, put-Writes, put_array-Writes,
}
use remote_procedure_control.Specials.Exact.{
  type_size_lem, put_type-Writes, put_params-Writes, int_size_lem, put_number-Writes,
}

length-eq-zero : (cells : Cells) → length cells ≡ 0 → cells ≡ []
length-eq-zero [] h = refl
length-eq-zero (c ∷ cells) h = absurd (omega arith)

module _ {F : Type 0} where
  -- A function with a description, whose lengths are those of its texts.
  pub record IsDocumented (f : FunctionMapper F) : Type 0 where
    pub named : f.name_length ≡ length f.name
    pub described : f.description_length ≡ length f.description
    pub some_description : 1 ≤ f.description_length
    pub counted : f.fun.argc ≡ pos (length f.fun.argv)

  put_description-Writes :
      (f : FunctionMapper F) → IsDocumented f → Writes (put_description f) f.description
  unfolding put_description
  put_description-Writes f d =
      let given : ltb 0 f.description_length ≡ true = ground (arith, d.some_description) in
      rw given (put_array-Writes f.description_length f.description d.described)

  put_function-Writes :
      (f : FunctionMapper F) → IsDocumented f → Writes (put_function f) (function_text f)
  unfolding put_function function_text
  put_function-Writes f d =
      let line = put-Writes (10 ∷ []) in
      let params : Writes (put_params f.fun.argc f.fun.argv) (params_text f.fun.argv) =
        rw d.counted (put_params-Writes f.fun.argv) in
      let number : Writes (put_number f.fun.argc >=> put_char 10)
          (number_text (length f.fun.argv) ++ (10 ∷ [])) =
        rw d.counted (put_number-Writes (length f.fun.argv)) in
      Writes-then _ _ hd_name_string _ (put-Writes hd_name_string) (
        Writes-then _ _ f.name _ (put_array-Writes f.name_length f.name d.named) (
          Writes-then _ _ (10 ∷ []) _ line (
            Writes-then _ _ hd_doc_string _ (put-Writes hd_doc_string) (
              Writes-then _ _ f.description _ (put_description-Writes f d) (
                Writes-then _ _ (10 ∷ []) _ line (
                  Writes-then _ _ hd_ret_type_string _ (put-Writes hd_ret_type_string) (
                    Writes-then _ _ (get_type f.fun.return_type) _
                      (put_type-Writes f.fun.return_type)
                      (Writes-then _ _ (10 ∷ []) _ line (
                        Writes-then _ _ hd_nb_param_string _ (put-Writes hd_nb_param_string) (
                          Writes-then _ _ (number_text (length f.fun.argv) ++ (10 ∷ [])) _ number
                            params))))))))))

  put_functions-Writes :
      (fmap : List (FunctionMapper F))
      → All IsDocumented fmap
      → Writes (put_functions fmap) (functions_text fmap)
  unfolding put_functions functions_text
  put_functions-Writes [] d = Writes-done
  put_functions-Writes (f ∷ fmap) (d, ds) =
      Writes-then (put_function f) (put_functions fmap) (function_text f) (functions_text fmap)
        (put_function-Writes f d) (put_functions-Writes fmap ds)

types_size_lem :
    (types : List ℕ) → types_size (length types) types ≡ done (length (types_text types))
unfolding types_size types_text
types_size_lem [] = refl
types_size_lem (t ∷ []) =
    ap done (omega (arith, type_size_lem t, length-append (get_type t) (10 ∷ [])))
types_size_lem (t ∷ u ∷ types) =
    ap (λ m. m >>= λ size. done (type_size t + 1 + size)) (types_size_lem (u ∷ types))
    ∙ ap done
        (omega (arith, type_size_lem t, length-append (get_type t) (b',' ∷ types_text (u ∷ types))))

params_size_lem :
    (types : List ℕ) → params_size (pos (length types)) types ≡ done (length (params_text types))
unfolding params_size params_text
params_size_lem [] = refl
params_size_lem (t ∷ types) = rw (types_size_lem (t ∷ types)) (
    ap done (
      omega (
        arith,
        length-append hd_param_types (types_text (t ∷ types) ++ (10 ∷ [])),
        length-append (types_text (t ∷ types)) (10 ∷ []),
      )))

module _ {F : Type 0} where
  function_size_lem :
      (f : FunctionMapper F) → IsDocumented f → function_size f ≡ done (length (function_text f))
  unfolding function_size function_text
  function_size_lem f d =
      let params : params_size f.fun.argc f.fun.argv ≡ done (length (params_text f.fun.argv)) =
        rw d.counted (params_size_lem f.fun.argv) in
      let number : int_size f.fun.argc ≡ length (number_text (length f.fun.argv)) =
        rw d.counted (int_size_lem (length f.fun.argv)) in
      rw (params, number, type_size_lem f.fun.return_type, d.named, d.described)
        (ap done (simp length-append (omega arith)))

  functions_size_lem :
      (fmap : List (FunctionMapper F))
      → All IsDocumented fmap
      → functions_size fmap ≡ done (length (functions_text fmap))
  unfolding functions_size functions_text
  functions_size_lem [] d = refl
  functions_size_lem (f ∷ fmap) (d, ds) =
      rw (function_size_lem f d, functions_size_lem fmap ds)
        (ap done (sym (length-append (function_text f) (functions_text fmap))))

  documentation_size_lem :
      (memory : Memory F)
      → All IsDocumented memory.fmap
      → length (functions_text memory.fmap) + 1 ≤ int_max
      → documentation_size memory ≡ done (length (functions_text memory.fmap) + 1)
  unfolding documentation_size
  documentation_size_lem memory d fits =
      let whole : checked_size (length (functions_text memory.fmap) + 1)
          ≡ done (length (functions_text memory.fmap) + 1) =
        ground arith in
      rw (functions_size_lem memory.fmap d, whole)

  -- The writes, from the first to the zero byte.
  document_lem :
      (fmap : List (FunctionMapper F))
      → All IsDocumented fmap
      → (cpt : ℕ) × ((put_functions fmap >=> put_char 10 >=> put_char 0)
            (0, fresh (length (functions_text fmap) + 2))
          ≡ done (cpt, written (functions_text fmap ++ (10 ∷ 0 ∷ []))))
  unfolding put
  document_lem fmap d =
      let text = functions_text fmap in
      let cells = fresh (length text + 2) in
      let start : At [] (length text + 2) (0, cells) = record {
        rest = cells;
        place = refl;
        room = length-replicate (length text + 2) none;
      } in
      let (s1, e1, at1) = put_functions-Writes fmap d [] 2 (0, cells) (omega arith) start in
      let (s2, e2, at2) = put-Writes (10 ∷ []) text 1 s1 (omega arith) at1 in
      let (back, e3, l) = blit_behind (0 ∷ []) (text ++ (10 ∷ [])) 0 at2.rest at2.room in
      (
        length (text ++ (10 ∷ [])) + 1,
        rw (
          e1,
          e2,
          at2.place,
          e3,
          length-eq-zero back l,
          append-nil,
          append_assoc text (10 ∷ []) (0 ∷ []),
        ),
      )

  -- If every function has a description, its lengths are those of its texts and its number of
  -- parameters is that of its types, the text fits an `int` and the block is granted, then
  -- `documentation_size` is the length of the text with its last new line, and
  -- `generate_documentation` fills its block with the text and a zero byte, with no byte left over.
  pub generate_documentation_lem :
      (granted : ℕ → Bool) (memory : Memory F)
      → All IsDocumented memory.fmap
      → length (functions_text memory.fmap) + 1 ≤ int_max
      → granted (length (functions_text memory.fmap) + 2) ≡ true
      → (documentation_size memory ≡ done (length (functions_text memory.fmap) + 1))
        × (generate_documentation granted memory
            ≡ done (some (written (functions_text memory.fmap ++ (10 ∷ 0 ∷ [])))))
  generate_documentation_lem granted memory d fits grants =
      let text = functions_text memory.fmap in
      let sized = documentation_size_lem memory d fits in
      let two : length text + 1 + 1 ≡ length text + 2 = omega arith in
      let (cells, e) = document_lem memory.fmap d in
      (sized, unfold generate_documentation in rw (sized, two, grants, e))
