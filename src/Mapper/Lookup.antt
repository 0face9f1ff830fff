-- ===== src/Mapper/Lookup.antt =====
-- What the list of functions answers after each operation.
use remote_procedure_control.Prelude.{
  ◌+◌, ◌-◌, ◌%◌, ◌^◌, ◌≡◌, refl, sym, ◌≢◌, true, false, Bool-cases, inl, inr, List, [], ◌∷◌, arith,
  if◌then◌else◌, none, some, length,
}
use remote_procedure_control.Prelude.Int.{ℤ, pos, negsuc}
use remote_procedure_control.Machine.{Bytes, strcmp_zero, str_eq_refl, str_eq→eq, c_string}
use remote_procedure_control.Mapper.{
  FunctionMapper, Memory, initialize, add_function, exist_loop, exist_function, find, get_function,
  unlink, remove_function,
}

module _ {F : Type 0} where
  -- The list is empty before its first use, and its size is counted in a `size_t`.
  pub record IsValid (m : Memory F) : Type 0 where
    pub unused : m.initialized ≡ false → m.fmap ≡ []
    pub counted : m.size ≡ length m.fmap % 2 ^ 64

  pub initialize_lem : (m : Memory F) → IsValid m → (initialize m).fmap ≡ m.fmap
  unfolding initialize
  initialize_lem m v = elim (Bool-cases m.initialized) [
    | inl t ↦ simp t
    | inr t ↦ simp t (sym (v.unused t))
  ]

  -- In a valid memory, after an `add_function` that got its node the new function answers to its
  -- name, in front of any older one, and every other name answers as before.
  pub get-add :
      (m : Memory F) (f : FunctionMapper F) (name : Bytes)
      → IsValid m
      → get_function (add_function true (some m) f).1 name
        ≡ (if strcmp_zero name f.name then some f else get_function (some m) name)
  unfolding get_function add_function find
  get-add m f name v = rw (initialize_lem m v)

  exist_loop-find :
      (name : Bytes) (fmap : List (FunctionMapper F))
      → exist_loop name fmap ≡ elim (find name fmap) [ none ↦ pos 0 | some f ↦ pos 1 ]
  unfolding exist_loop find
  exist_loop-find name [] = refl
  exist_loop-find name (f ∷ fmap) = ground (arith, exist_loop-find name fmap)

  -- `exist_function` answers 1 exactly when `get_function` finds a function, and 0 when it does
  -- not.
  pub exist-get :
      (m : Memory F) (name : Bytes)
      → exist_function (some m) name
        ≡ elim (get_function (some m) name) [ none ↦ pos 0 | some f ↦ pos 1 ]
  unfolding exist_function get_function
  exist-get m name = exist_loop-find name m.fmap

  find-name :
      (name : Bytes) (fmap : List (FunctionMapper F)) (f : FunctionMapper F)
      → find name fmap ≡ some f
      → c_string name ≡ c_string f.name
  unfolding find
  find-name name [] f e = cc
  find-name name (g ∷ fmap) f e =
      ground (arith, str_eq→eq (c_string name) (c_string g.name), find-name name fmap f)

  -- What `get_function` finds bears the name that was asked for.
  pub get-name :
      (m : Memory F) (name : Bytes) (f : FunctionMapper F)
      → get_function (some m) name ≡ some f
      → c_string name ≡ c_string f.name
  unfolding get_function
  get-name m name f e = find-name name m.fmap f e

  find-unlink_ne :
      (name other : Bytes) (fmap : List (FunctionMapper F))
      → c_string other ≢ c_string name
      → find other (unlink name fmap) ≡ find other fmap
  unfolding find unlink
  find-unlink_ne name other [] h = refl
  find-unlink_ne name other (f ∷ fmap) h = ground (
    arith,
    find-unlink_ne name other fmap h,
    str_eq→eq (c_string name) (c_string f.name),
    str_eq→eq (c_string other) (c_string f.name),
  )

  -- `remove_function` returns 0 exactly when the name has a function, and -1 otherwise; either way
  -- a name other than the removed one answers as before.
  pub get-remove_ne :
      (m m' : Memory F) (name other : Bytes) (code : ℤ)
      → c_string other ≢ c_string name
      → remove_function (some m) name ≡ (code, some m')
      → (get_function (some m') other ≡ get_function (some m) other)
        × (code ≡ elim (get_function (some m) name) [ none ↦ negsuc 0 | some f ↦ pos 0 ])
  unfolding get_function remove_function
  get-remove_ne m m' name other code h e = ground (arith, find-unlink_ne name other m.fmap h)

  -- In a valid memory that was initialized, removing the name of the function added last returns 0
  -- and brings the memory back to what it was.
  pub remove-add :
      (m : Memory F) (f : FunctionMapper F)
      → IsValid m
      → m.initialized ≡ true
      → remove_function (add_function true (some m) f).1 f.name ≡ (pos 0, some m)
  unfolding remove_function add_function find unlink initialize
  remove-add m f v i =
      let self : strcmp_zero f.name f.name ≡ true = str_eq_refl (c_string f.name) in
      let back : ((m.size + 1) % 2 ^ 64 + 2 ^ 64 - 1) % 2 ^ 64 ≡ m.size =
        omega (arith, v.counted) in
      ground (arith, self, back, i)
