-- ===== src/Specials/Printable.antt =====
-- The texts of the documentation as strings.
use remote_procedure_control.Prelude.{
  ℕ, zero, suc, ◌+◌, ◌%◌, ◌/◌, arith, Bool-cases, inl, inr, List, [], ◌∷◌, ◌++◌, ◌==◌, length, All,
}
use remote_procedure_control.Machine.{Bytes, IsText}
use remote_procedure_control.RpcData.{rpc_ty_void, rpc_ty_int, rpc_ty_str}
use remote_procedure_control.RpcData.Integer.Decimal.{decimal-suc, digits_onto}
use remote_procedure_control.Mapper.{FunctionMapper}
use remote_procedure_control.Specials.{
  hd_name_string, hd_doc_string, hd_ret_type_string, hd_nb_param_string, hd_param_types, get_type,
}
use remote_procedure_control.Specials.Text.{
  types_text, params_text, number_text, function_text, functions_text,
}

pub append-IsText : (s t : Bytes) → IsText s → IsText t → IsText (s ++ t)
append-IsText [] t h k = k
append-IsText (c ∷ s) t h k = (h.0, append-IsText s t h.1 k)

digits-IsText : (fuel n : ℕ) (acc : Bytes) → IsText acc → IsText (digits_onto fuel n acc)
unfolding digits_onto
digits-IsText zero n acc h = h
digits-IsText (suc fuel) n acc h =
    let more =
      digits-IsText fuel (n / 10) ((b'0' + n % 10) ∷ acc) ((omega arith, omega arith), h) in
    elim (Bool-cases (n == 0)) [
      | inl none_left ↦ rw none_left h
      | inr some_left ↦ rw some_left more
    ]

number-IsText : (n : ℕ) → IsText (number_text n)
unfolding number_text
number-IsText zero = tt
number-IsText (suc n) = rw (decimal-suc n) (digits-IsText 10 (suc n) [] tt)

type-IsText : (typ : ℕ) → IsText (get_type typ)
unfolding get_type
type-IsText typ = elim (Bool-cases (typ == rpc_ty_void)) [
  | inl v ↦ rw v (omega arith)
  | inr nv ↦ elim (Bool-cases (typ == rpc_ty_int)) [
    | inl i ↦ rw (nv, i) (omega arith)
    | inr ni ↦ elim (Bool-cases (typ == rpc_ty_str)) [
      | inl s ↦ rw (nv, ni, s) (omega arith)
      | inr ns ↦ rw (nv, ni, ns) (omega arith)
    ]
  ]
]

types-IsText : (types : List ℕ) → IsText (types_text types)
unfolding types_text
types-IsText [] = tt
types-IsText (t ∷ []) = append-IsText (get_type t) (10 ∷ []) (type-IsText t) (omega arith)
types-IsText (t ∷ u ∷ types) =
    append-IsText (get_type t) _ (type-IsText t)
      ((omega arith, omega arith), types-IsText (u ∷ types))

params-IsText : (types : List ℕ) → IsText (params_text types)
unfolding params_text
params-IsText [] = tt
params-IsText (t ∷ types) =
    append-IsText hd_param_types _ (omega arith)
      (append-IsText (types_text (t ∷ types)) (10 ∷ []) (types-IsText (t ∷ types)) (omega arith))

-- A string, for a chain of texts.
record IsPrinted (s : Bytes) : Type 0 where
  printed : IsText s

then_text : {s t : Bytes} → IsPrinted s → IsPrinted t → IsPrinted (s ++ t)
then_text {s} {t} h k = record { printed = append-IsText s t h.printed k.printed }

module _ {F : Type 0} where
  -- The name and the description are strings.
  abbrev pub IsNamed : FunctionMapper F → Type 0
  IsNamed f = IsText f.name × IsText f.description

  function-IsText : (f : FunctionMapper F) → IsNamed f → IsText (function_text f)
  unfolding function_text
  function-IsText f (n, d) =
      let line : IsPrinted (10 ∷ []) = record { printed = omega arith } in
      let named : IsPrinted hd_name_string = record { printed = omega arith } in
      let described : IsPrinted hd_doc_string = record { printed = omega arith } in
      let returning : IsPrinted hd_ret_type_string = record { printed = omega arith } in
      let counting : IsPrinted hd_nb_param_string = record { printed = omega arith } in
      let name : IsPrinted f.name = record { printed = n } in
      let description : IsPrinted f.description = record { printed = d } in
      let type : IsPrinted (get_type f.fun.return_type) = record {
        printed = type-IsText f.fun.return_type;
      } in
      let number : IsPrinted (number_text (length f.fun.argv)) = record {
        printed = number-IsText (length f.fun.argv);
      } in
      let params : IsPrinted (params_text f.fun.argv) = record {
        printed = params-IsText f.fun.argv;
      } in
      let whole = then_text named (
        then_text name (
          then_text line (
            then_text described (
              then_text description (
                then_text line (
                  then_text returning (
                    then_text type (
                      then_text line
                        (then_text counting (then_text (then_text number line) params)))))))))) in
      whole.printed

  pub functions-IsText :
      (fmap : List (FunctionMapper F)) → All IsNamed fmap → IsText (functions_text fmap)
  unfolding functions_text
  functions-IsText [] d = tt
  functions-IsText (f ∷ fmap) (d, ds) =
      append-IsText (function_text f) (functions_text fmap) (function-IsText f d)
        (functions-IsText fmap ds)
