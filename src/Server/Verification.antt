-- ===== src/Server/Verification.antt =====
-- `verification_function` against the signature of the function that was found.
use remote_procedure_control.Prelude.{
  if◌then◌else◌, ℕ, ◌≡◌, ◌≢◌, ◌↔◌, ◌⊎◌, inl, inr, refl, true, false, Bool-cases, List, [], ◌∷◌, map,
  arith, ◌==◌, Option, none, some, length,
}
use remote_procedure_control.Prelude.Int.{ℤ, pos, negsuc, pos_part, eqb_ℤ}
use remote_procedure_control.Machine.{str_eq, str_eq_refl, str_eq→eq, Exec, done}
use remote_procedure_control.RpcData.{rpc_ret_wrong_arg, rpc_ret_wrong_typ, rpc_wrong_number_args}
use remote_procedure_control.RpcData.Protocol.{Argument, Request, to_arg, to_argv, to_message}
use remote_procedure_control.Mapper.{Function}
use remote_procedure_control.Server.{same_types, verify_types, verification}

-- The type tags of arguments.
abbrev pub tags : List Argument → List ℕ
tags [] = []
tags (a ∷ as') = (to_arg a).typ ∷ tags as'

same_types_cases :
    (types : List ℕ) (as' : List Argument)
    → length types ≡ length as'
    → ((same_types (length as') types (map to_arg as') ≡ done true) × (types ≡ tags as'))
      ⊎ ((same_types (length as') types (map to_arg as') ≡ done false) × (types ≢ tags as'))
unfolding same_types
same_types_cases [] [] h = inl (refl, refl)
same_types_cases [] (a ∷ as') h = absurd (omega arith)
same_types_cases (t ∷ types) [] h = absurd (omega arith)
same_types_cases (t ∷ types) (a ∷ as') h = ground (arith, same_types_cases types as')

pub eqb_ℤ_iff : (a b : ℤ) → (eqb_ℤ a b ≡ true) ↔ (a ≡ b)
eqb_ℤ_iff (pos m) (pos n) = ground arith
eqb_ℤ_iff (pos m) (negsuc n) = ground arith
eqb_ℤ_iff (negsuc m) (pos n) = ground arith
eqb_ℤ_iff (negsuc m) (negsuc n) = ground arith

verify_types-argv :
    (types : List ℕ) (as' : List Argument)
    → verify_types (length as') types (to_argv as') ≡ same_types (length as') types (map to_arg as')
unfolding verify_types
verify_types-argv types [] = refl
verify_types-argv types (a ∷ as') = refl

module _ {F : Type 0} (f : Function F) (r : Request)
    (stored : length f.argv ≡ pos_part f.argc) where
  -- Another number of arguments is answered with that error, whatever the types are.
  pub verification_number :
      f.argc ≢ pos (length r.arguments) → verification f (to_message r) ≡ done (some 5)
  unfolding verification to_message
  verification_number h = ground (arith, eqb_ℤ_iff f.argc (pos (length r.arguments)))

  module _ (counted : f.argc ≡ pos (length r.arguments)) where
    same_length : length f.argv ≡ length r.arguments
    same_length = ground arith

    rounds : pos_part f.argc ≡ length r.arguments
    rounds = ground arith

    same_number : eqb_ℤ f.argc (pos (length r.arguments)) ≡ true
    same_number = (eqb_ℤ_iff f.argc (pos (length r.arguments))).1 counted

    -- With the right number, a wrong type of an argument is the error.
    pub verification_argument :
        f.argv ≢ tags r.arguments → verification f (to_message r) ≡ done (some 2)
    unfolding verification to_message
    verification_argument h = elim (same_types_cases f.argv r.arguments same_length) [
      | inl (e, same) ↦ absurd (h same)
      | inr (e, other) ↦ rw (same_number, rounds, verify_types-argv f.argv r.arguments, e)
    ]

    module _ (typed : f.argv ≡ tags r.arguments) where
      same_arguments : verify_types (pos_part f.argc) f.argv (to_argv r.arguments) ≡ done true
      same_arguments = elim (same_types_cases f.argv r.arguments same_length) [
        | inl (e, same) ↦ rw (rounds, verify_types-argv f.argv r.arguments) e
        | inr (e, other) ↦ absurd (other typed)
      ]

      -- With the right arguments, a wrong return type is the error.
      pub verification_return :
          f.return_type ≢ r.return_type → verification f (to_message r) ≡ done (some 4)
      unfolding verification to_message
      verification_return h =
          let other : (f.return_type == r.return_type) ≡ false = ground arith in
          rw (same_number, same_arguments, other)

      pub verification_passes :
          f.return_type ≡ r.return_type → verification f (to_message r) ≡ done none
      unfolding verification to_message
      verification_passes h =
          let same : (f.return_type == r.return_type) ≡ true = ground arith in
          rw (same_number, same_arguments, same)

-- What the client is told: the first difference between the request and the declared signature.
abbrev pub expected_error : {F : Type 0} → Function F → Request → Option ℕ
expected_error f r =
    if eqb_ℤ f.argc (pos (length r.arguments))
    then if str_eq f.argv (tags r.arguments)
      then if f.return_type == r.return_type then none else some rpc_ret_wrong_typ
      else some rpc_ret_wrong_arg
    else some rpc_wrong_number_args

-- The request fits the declared signature.
pub record Fits {F : Type 0} (f : Function F) (r : Request) : Type 0 where
  pub counted : f.argc ≡ pos (length r.arguments)
  pub typed : f.argv ≡ tags r.arguments
  pub returned : f.return_type ≡ r.return_type

not-some {ℓ} : {A : Type ℓ} {m : Exec (Option ℕ)} {n : ℕ} → m ≡ done none → m ≡ done (some n) → A
not-some h e = absurd (cc)

module _ {F : Type 0} (f : Function F) (r : Request)
    (stored : length f.argv ≡ pos_part f.argc) where
  passes→Fits : verification f (to_message r) ≡ done none → Fits f r
  passes→Fits h =
      let differ : (n : ℕ) → verification f (to_message r) ≡ done (some n) → Fits f r =
        λ n e. not-some h e in
      elim (Bool-cases (eqb_ℤ f.argc (pos (length r.arguments)))) [
        | inl number ↦
            let counted = (eqb_ℤ_iff f.argc (pos (length r.arguments))).0 number in
            elim (same_types_cases f.argv r.arguments (same_length f r stored counted)) [
              | inl (_, typed) ↦ elim (Bool-cases (f.return_type == r.return_type)) [
                | inl same ↦ record { counted = counted; typed = typed; returned = ground arith }
                | inr other ↦ differ 4 (verification_return f r stored counted typed (ground arith))
              ]
              | inr (_, other) ↦ differ 2 (verification_argument f r stored counted other)
            ]
        | inr other ↦ differ 5 (verification_number f r stored (ground arith))
      ]

  -- For a function that stores one type per argument declared, the verification of a request's
  -- message sends no error exactly when the number of arguments, the type of each and the return
  -- type are those of the function.
  pub verification_iff : (verification f (to_message r) ≡ done none) ↔ Fits f r
  verification_iff = (passes→Fits, λ v. verification_passes f r stored v.counted v.typed v.returned)

  -- For a function that stores one type per argument declared, the verification of a request's
  -- message sends the error of the first difference: the number of arguments, then their types,
  -- then the return type; or no error.
  pub verification_lem : verification f (to_message r) ≡ done (expected_error f r)
  verification_lem = elim (Bool-cases (eqb_ℤ f.argc (pos (length r.arguments)))) [
    | inl number ↦
        let counted = (eqb_ℤ_iff f.argc (pos (length r.arguments))).0 number in
        elim (Bool-cases (str_eq f.argv (tags r.arguments))) [
          | inl types ↦
              let typed = str_eq→eq f.argv (tags r.arguments) types in
              elim (Bool-cases (f.return_type == r.return_type)) [
                | inl same ↦
                    rw (number, types, same)
                      (verification_passes f r stored counted typed (ground arith))
                | inr other ↦
                    rw (number, types, other)
                      (verification_return f r stored counted typed (ground arith))
              ]
          | inr types ↦
              rw (number, types)
                (verification_argument f r stored counted (λ typed. differ types typed))
        ]
    | inr other ↦ rw other (verification_number f r stored (ground arith))
  ]
    where
      differ : str_eq f.argv (tags r.arguments) ≡ false → f.argv ≢ tags r.arguments
      differ h e = absurd (
          let same : str_eq f.argv (tags r.arguments) ≡ true =
            rw e (str_eq_refl (tags r.arguments)) in
          ground arith)
