-- ===== src/Mapper.antt =====
-- src/s_mapper.h and src/s_mapper.c: the functions that the server offers, in a linked list.
pub mod Lookup
pub mod Counting
pub mod Refinement
pub mod Debug
pub mod Create
use remote_procedure_control.Prelude.{
  ℕ, zero, suc, ◌+◌, ◌-◌, ◌*◌, ◌%◌, ◌^◌, ◌≡◌, Bool, true, false, ◌||◌, List, [], ◌∷◌, ltb, leb,
  ◌==◌, if◌then◌else◌, Option, none, some,
}
use remote_procedure_control.Prelude.Int.{ℤ, pos, negsuc, pos_part}
use remote_procedure_control.Machine.{
  Exec, done, undefined, ◌>>=◌, Bytes, c_string, strlen, strcmp_zero,
}
use remote_procedure_control.RpcData.{type_exists}

abbrev pub function_name_length : ℕ
function_name_length = 255

abbrev pub max_description_length : ℕ
max_description_length = 1023

abbrev pub max_parameters : ℕ
max_parameters = 255

-- `F` stands for the union of function pointers.
pub record Function (F : Type 0) : Type 0 where
  pub return_type : ℕ
  pub argc : ℤ
  pub argv : List ℕ
  pub fun_ptr : F

pub record FunctionMapper (F : Type 0) : Type 0 where
  pub name_length : ℕ
  pub name : Bytes
  pub description_length : ℕ
  pub description : Bytes
  pub fun : Function F

-- `size` is a `size_t`.
pub record Memory (F : Type 0) : Type 0 where
  pub size : ℕ
  pub initialized : Bool
  pub fmap : List (FunctionMapper F)

-- The static `function_memory`, which starts as zeros.
abbrev pub empty_memory : {F : Type 0} → Memory F
empty_memory = record { size = 0; initialized = false; fmap = [] }

-- `mapper->fun.argv[cpt] = (char)va_arg(ap, int)`, from the counter on. The array has 255 cells,
-- and an argument that was not passed is undefined.
unfoldable pub read_parameters : ℕ → ℕ → List ℕ → Exec (List ℕ)
read_parameters zero cpt ap = done []
read_parameters (suc rounds) cpt [] = undefined
read_parameters (suc rounds) cpt (typ ∷ ap) =
    if ltb cpt max_parameters
    then read_parameters rounds (suc cpt) ap >>= (λ rest. done ((typ % 256) ∷ rest))
    else undefined

module _ {F : Type 0} where
  -- `strcpy` into the description's array, which a longer text runs over.
  unfoldable pub copy_description : FunctionMapper F → Option Bytes → Exec (FunctionMapper F)
  copy_description mapper none = done (record mapper { description_length = 0 })
  copy_description mapper (some text) =
      if leb (strlen text) max_description_length
      then done (record mapper { description_length = strlen text; description = c_string text })
      else undefined

  unfoldable pub fill_function :
      FunctionMapper F → Bytes → ℕ → Option Bytes → F → ℤ → List ℕ → Exec (FunctionMapper F)
  fill_function mapper name return_type description fun_ptr argc ap = do
    mapper ←
        copy_description (record mapper { name_length = strlen name; name = c_string name })
          description
    argv ← read_parameters (pos_part argc) 0 ap
    done (record mapper {
      fun = record { return_type = return_type; argc = argc; argv = argv; fun_ptr = fun_ptr };
    })

  -- The code that is returned, and the mapper, which an error leaves alone. `none` is null.
  unfoldable pub create_function :
      Option (FunctionMapper F)
      → Bytes
      → ℕ
      → Option Bytes
      → F
      → ℤ
      → List ℕ
      → Exec (ℤ × Option (FunctionMapper F))
  create_function none name return_type description fun_ptr argc ap = done (negsuc 0, none)
  create_function (some mapper) name return_type description fun_ptr argc ap =
      if ltb function_name_length (strlen name)
      then done (negsuc 1, some mapper)
      else if type_exists return_type
      then (fill_function mapper name return_type description fun_ptr argc ap >>= λ filled.
          done (pos 0, some filled))
      else done (negsuc 2, some mapper)

  -- `LIST_INIT` on the first use.
  unfoldable pub initialize : Memory F → Memory F
  initialize m = record m { initialized = true; fmap = if m.initialized then m.fmap else [] }

  -- `granted` is the answer of `malloc`.
  unfoldable pub add_function : Bool → Option (Memory F) → FunctionMapper F → ℤ × Option (Memory F)
  add_function granted none mapper = (negsuc 0, none)
  add_function granted (some memory) mapper =
      let m = initialize memory in
      if granted
      then (pos 0, some (record m { fmap = mapper ∷ m.fmap; size = (m.size + 1) % 2 ^ 64 }))
      else (negsuc 0, some m)

  exist_loop : Bytes → List (FunctionMapper F) → ℤ
  exist_loop fun_name [] = pos 0
  exist_loop fun_name (f ∷ fmap) =
      if strcmp_zero fun_name f.name then pos 1 else exist_loop fun_name fmap

  pub exist_function : Option (Memory F) → Bytes → ℤ
  exist_function none fun_name = negsuc 0
  exist_function (some memory) fun_name = exist_loop fun_name memory.fmap

  unfoldable pub find : Bytes → List (FunctionMapper F) → Option (FunctionMapper F)
  find fun_name [] = none
  find fun_name (f ∷ fmap) = if strcmp_zero fun_name f.name then some f else find fun_name fmap

  unfoldable pub get_function : Option (Memory F) → Bytes → Option (FunctionMapper F)
  get_function none fun_name = none
  get_function (some memory) fun_name = find fun_name memory.fmap

  -- `LIST_REMOVE` of the first node with that name.
  unfoldable pub unlink : Bytes → List (FunctionMapper F) → List (FunctionMapper F)
  unlink fun_name [] = []
  unlink fun_name (f ∷ fmap) =
      if strcmp_zero fun_name f.name then fmap else f ∷ unlink fun_name fmap

  unfoldable pub remove_function : Option (Memory F) → Bytes → ℤ × Option (Memory F)
  remove_function none fun_name = (negsuc 0, none)
  remove_function (some memory) fun_name = elim (find fun_name memory.fmap) [
    | none ↦ (negsuc 0, some memory)
    | some _ ↦ (
      pos 0,
      some (record memory {
        fmap = unlink fun_name memory.fmap;
        size = (memory.size + 2 ^ 64 - 1) % 2 ^ 64;
      }),
    )
  ]

  unfoldable pub clear_mapper : Memory F → Memory F
  clear_mapper memory = record memory { size = 0; fmap = [] }
