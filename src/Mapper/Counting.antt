-- ===== src/Mapper/Counting.antt =====
-- The memory stays valid under every sequence of operations.
use remote_procedure_control.Prelude.{
  suc, ◌%◌, ◌^◌, ◌≡◌, Option-cases, inl, inr, refl, ap, sym, ◌∙◌, ◌≢◌, Bool, true, false, List, [],
  ◌∷◌, arith, Option, none, some, length,
}
use remote_procedure_control.Machine.{Bytes}
use remote_procedure_control.Mapper.{
  FunctionMapper, Memory, empty_memory, initialize, add_function, find, unlink, remove_function,
  clear_mapper,
}
use remote_procedure_control.Mapper.Lookup.{IsValid, initialize_lem}

-- The calls that change the memory; an addition comes with the answer of `malloc`.
pub data Operation (F : Type 0) : Type 0 where
  adds : Bool → FunctionMapper F → Operation F
  removes : Bytes → Operation F
  clears : Operation F

module _ {F : Type 0} where
  unfoldable pub kept : Memory F → Option (Memory F) → Memory F
  kept m none = m
  kept m (some m') = m'

  unfoldable pub apply : Memory F → Operation F → Memory F
  apply m (adds granted f) = kept m (add_function granted (some m) f).1
  apply m (removes name) = kept m (remove_function (some m) name).1
  apply m clears = clear_mapper m

  unfoldable pub apply_all : Memory F → List (Operation F) → Memory F
  apply_all m [] = m
  apply_all m (op ∷ ops) = apply_all (apply m op) ops

  length-unlink :
      (name : Bytes) (fmap : List (FunctionMapper F)) (f : FunctionMapper F)
      → find name fmap ≡ some f
      → length fmap ≡ suc (length (unlink name fmap))
  unfolding find unlink
  length-unlink name [] f e = cc
  length-unlink name (g ∷ fmap) f e = ground (arith, length-unlink name fmap f)

  found-ne-nil :
      (name : Bytes) (fmap : List (FunctionMapper F)) (f : FunctionMapper F)
      → find name fmap ≡ some f
      → fmap ≢ []
  unfolding find
  found-ne-nil name [] f e h = cc
  found-ne-nil name (g ∷ fmap) f e h = cc

  initialize-IsValid : (m : Memory F) → IsValid m → IsValid (initialize m)
  unfolding initialize
  initialize-IsValid m v = record {
    unused = λ h. cc;
    counted =
        v.counted
        ∙ ap (λ (l : List (FunctionMapper F)). length l % 2 ^ 64) (sym (initialize_lem m v));
  }

  add-IsValid :
      (m : Memory F) (granted : Bool) (f : FunctionMapper F)
      → IsValid m
      → IsValid (apply m (adds granted f))
  unfolding apply kept add_function
  add-IsValid m true f v = record {
    unused = λ h. unfold initialize in cc;
    counted = omega (arith, (initialize-IsValid m v).counted);
  }
  add-IsValid m false f v = initialize-IsValid m v

  remove-IsValid : (m : Memory F) (name : Bytes) → IsValid m → IsValid (apply m (removes name))
  unfolding apply kept remove_function
  remove-IsValid m name v = elim (Option-cases (find name m.fmap)) [
    | inl e ↦ rw (e, remove_function) v
    | inr (f, e) ↦
        rw (e, remove_function)
          (record {
            unused = λ h. absurd (found-ne-nil name m.fmap f e (v.unused h));
            counted = omega (arith, v.counted, length-unlink name m.fmap f e);
          })
  ]

  pub apply-IsValid : (m : Memory F) (op : Operation F) → IsValid m → IsValid (apply m op)
  apply-IsValid m (adds granted f) v = add-IsValid m granted f v
  apply-IsValid m (removes name) v = remove-IsValid m name v
  apply-IsValid m clears v =
      unfold apply clear_mapper in record { unused = λ h. refl; counted = refl }

  -- Any sequence of additions, removals and clearings, with the allocator's answers as they fall,
  -- keeps a memory valid: its `size` is the number of functions in the list modulo 2 ^ 64, and the
  -- list is empty before its first use.
  pub apply_all-IsValid :
      (ops : List (Operation F)) (m : Memory F) → IsValid m → IsValid (apply_all m ops)
  unfolding apply_all
  apply_all-IsValid [] m v = v
  apply_all-IsValid (op ∷ ops) m v = apply_all-IsValid ops (apply m op) (apply-IsValid m op v)

  pub empty_memory-IsValid : IsValid {F = F} empty_memory
  empty_memory-IsValid = record { unused = λ h. refl; counted = refl }
