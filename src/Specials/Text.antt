-- ===== src/Specials/Text.antt =====
-- The documentation as a text, independently of the block it is written to.
use remote_procedure_control.Prelude.{ℕ, zero, suc, List, [], ◌∷◌, ◌++◌, length}
use remote_procedure_control.Machine.{Bytes}
use remote_procedure_control.RpcData.Integer.Decimal.{decimal}
use remote_procedure_control.Mapper.{FunctionMapper}
use remote_procedure_control.Specials.{
  hd_name_string, hd_doc_string, hd_ret_type_string, hd_nb_param_string, hd_param_types, get_type,
}

-- The types, with commas between them and a new line at the end.
unfoldable pub types_text : List ℕ → Bytes
types_text [] = []
types_text (t ∷ []) = get_type t ++ ((10 ∷ []) ++ [])
types_text (t ∷ u ∷ types) = get_type t ++ ((b',' ∷ []) ++ types_text (u ∷ types))

unfoldable pub params_text : List ℕ → Bytes
params_text [] = []
params_text (t ∷ types) = hd_param_types ++ (types_text (t ∷ types) ++ (10 ∷ []))

-- The number of parameters, and nothing for none.
unfoldable pub number_text : ℕ → Bytes
number_text zero = []
number_text (suc n) = decimal (suc n)

module _ {F : Type 0} where
  unfoldable pub function_text : FunctionMapper F → Bytes
  function_text f =
      hd_name_string
      ++ (f.name
          ++ ((10 ∷ [])
              ++ (hd_doc_string
                  ++ (f.description
                      ++ ((10 ∷ [])
                          ++ (hd_ret_type_string
                              ++ (get_type f.fun.return_type
                                  ++ ((10 ∷ [])
                                      ++ (hd_nb_param_string
                                          ++ ((number_text (length f.fun.argv) ++ (10 ∷ []))
                                              ++ params_text f.fun.argv))))))))))

  unfoldable pub functions_text : List (FunctionMapper F) → Bytes
  functions_text [] = []
  functions_text (f ∷ fmap) = function_text f ++ functions_text fmap
