-- ===== src/Mapper/Refinement.antt =====
-- The list of functions as its clients see it: under each name a stack of functions.
use mathlib.Core.Path.{fun_ext}
use mathlib.Core.List.{head?, tail}
use remote_procedure_control.Prelude.{
  ◌≡◌, refl, ap, sym, ◌∙◌, true, false, Option-cases, inl, inr, List, [], ◌∷◌, arith, if◌then◌else◌,
  none, some,
}
use remote_procedure_control.Machine.{Bytes, strcmp_zero, str_eq_refl, str_eq→eq, c_string}
use remote_procedure_control.Mapper.{
  FunctionMapper, Memory, add_function, find, get_function, unlink, remove_function, clear_mapper,
}
use remote_procedure_control.Mapper.Lookup.{IsValid, initialize_lem}
use remote_procedure_control.Mapper.Counting.{
  Operation, adds, removes, clears, kept, apply, apply_all, apply-IsValid,
}

-- The functions registered under each name, the last one first.
abbrev Offer : Type 0 → Type 0
Offer F = Bytes → List (FunctionMapper F)

module _ {F : Type 0} where
  -- What each operation means for the offer: an addition that got its node is a push, a removal a pop.
  unfoldable pub offer_apply : Offer F → Operation F → Offer F
  offer_apply o (adds false f) name = o name
  offer_apply o (adds true f) name = if strcmp_zero name f.name then f ∷ o name else o name
  offer_apply o (removes old) name = if strcmp_zero name old then tail (o name) else o name
  offer_apply o clears name = []

  unfoldable pub replay : Offer F → List (Operation F) → Offer F
  replay o [] = o
  replay o (op ∷ ops) = replay (offer_apply o op) ops

  -- The functions of the list that bear the name.
  pub matching : Bytes → List (FunctionMapper F) → List (FunctionMapper F)
  matching name [] = []
  matching name (f ∷ fmap) =
      let rest = matching name fmap in if strcmp_zero name f.name then f ∷ rest else rest

  unfoldable pub view : Memory F → Offer F
  view m name = matching name m.fmap

  find-matching :
      (name : Bytes) (fmap : List (FunctionMapper F)) → find name fmap ≡ head? (matching name fmap)
  unfolding find matching
  find-matching name [] = refl
  find-matching name (f ∷ fmap) = ground (arith, find-matching name fmap)

  unlink-none :
      (name : Bytes) (fmap : List (FunctionMapper F))
      → find name fmap ≡ none
      → unlink name fmap ≡ fmap
  unfolding find unlink
  unlink-none name [] h = refl
  unlink-none name (f ∷ fmap) h = ground (arith, unlink-none name fmap)

  matching-unlink :
      (name old : Bytes) (fmap : List (FunctionMapper F))
      → matching name (unlink old fmap)
        ≡ (if strcmp_zero name old then tail (matching name fmap) else matching name fmap)
  unfolding matching unlink
  matching-unlink name old [] = ground arith
  matching-unlink name old (f ∷ fmap) = ground (
    arith,
    matching-unlink name old fmap,
    str_eq→eq (c_string name) (c_string old),
    str_eq→eq (c_string old) (c_string f.name),
    str_eq→eq (c_string name) (c_string f.name),
    str_eq_refl (c_string f.name),
    str_eq_refl (c_string old),
  )

  apply_removes-fmap :
      (m : Memory F) (old : Bytes) → (apply m (removes old)).fmap ≡ unlink old m.fmap
  unfolding apply kept remove_function
  apply_removes-fmap m old = elim (Option-cases (find old m.fmap)) [
    | inl e ↦ rw (e, remove_function) (sym (unlink-none old m.fmap e))
    | inr (f, e) ↦ rw (e, remove_function)
  ]

  view-apply :
      (m : Memory F) (op : Operation F) → IsValid m → view (apply m op) ≡ offer_apply (view m) op
  unfolding view apply kept offer_apply add_function remove_function clear_mapper matching
  view-apply m (adds true f) v = rw (initialize_lem m v)
  view-apply m (adds false f) v = rw (initialize_lem m v)
  view-apply m (removes old) v =
      fun_ext
        λ name. ap (matching name) (apply_removes-fmap m old) ∙ matching-unlink name old m.fmap
  view-apply m clears v = refl

  view-apply_all :
      (ops : List (Operation F)) (m : Memory F)
      → IsValid m
      → view (apply_all m ops) ≡ replay (view m) ops
  unfolding apply_all replay
  view-apply_all [] m v = refl
  view-apply_all (op ∷ ops) m v =
      view-apply_all ops (apply m op) (apply-IsValid m op v)
      ∙ ap (λ o. replay o ops) (view-apply m op v)

  -- From a valid memory, after any sequence of additions, removals and clearings, with the allocator's
  -- answers as they fall, `get_function` answers for every name with the top of the stack that the
  -- same sequence of pushes and pops leaves under that name, and with null where the stack is empty.
  pub get-apply_all_refines :
      (ops : List (Operation F)) (m : Memory F) (name : Bytes)
      → IsValid m
      → get_function (some (apply_all m ops)) name ≡ head? (replay (view m) ops name)
  unfolding get_function
  get-apply_all_refines ops m name v =
      let same : matching name (apply_all m ops).fmap ≡ replay (view m) ops name =
        unfold view in ap (λ (o : Offer F). o name) (view-apply_all ops m v) in
      find-matching name (apply_all m ops).fmap ∙ ap head? same
