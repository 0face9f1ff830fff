-- ===== src/Specials.antt =====
-- src/s_specials.c: the documentation that the server generates of its functions.
pub mod Text
pub mod Writes
pub mod Exact
pub mod Document
pub mod Printable
pub mod Moves
pub mod Undescribed
use remote_procedure_control.Prelude.{
  ℕ, zero, suc, ◌+◌, ◌-◌, ◌≡◌, Bool, true, false, List, [], ◌∷◌, ◌++◌, leb, ltb, ◌==◌,
  if◌then◌else◌, Option, none, some, length,
}
use remote_procedure_control.Prelude.Int.{ℤ, pos, negsuc, pos_part, neg_part}
use remote_procedure_control.Machine.{Exec, done, undefined, ◌>>=◌, Bytes, read_bytes, checked_size}
use remote_procedure_control.Machine.Cells.{Cells, fresh, blit}
use remote_procedure_control.RpcData.{rpc_ty_void, rpc_ty_int, rpc_ty_str}
use remote_procedure_control.RpcData.Integer.{count_digits}
use remote_procedure_control.RpcData.Integer.Decimal.{decimal_ℤ}
use remote_procedure_control.Mapper.{FunctionMapper, Memory}

abbrev pub hd_name_string : Bytes
hd_name_string = b'N' ∷ b'A' ∷ b'M' ∷ b'E' ∷ b':' ∷ b' ' ∷ []

abbrev pub hd_doc_string : Bytes
hd_doc_string = b'D' ∷ b'O' ∷ b'C' ∷ b':' ∷ b' ' ∷ []

abbrev pub no_doc_string : Bytes
no_doc_string =
    b'-' ∷ b' ' ∷ b'n' ∷ b'o' ∷ b' ' ∷ b'd' ∷ b'o' ∷ b'c' ∷ b'u' ∷ b'm' ∷ b'e' ∷ b'n' ∷ b't' ∷ b'a'
    ∷ b't' ∷ b'i' ∷ b'o' ∷ b'n' ∷ b' ' ∷ b'-' ∷ []

abbrev pub hd_ret_type_string : Bytes
hd_ret_type_string =
    b'R' ∷ b'E' ∷ b'T' ∷ b'U' ∷ b'R' ∷ b'N' ∷ b'E' ∷ b'D' ∷ b' ' ∷ b'T' ∷ b'Y' ∷ b'P' ∷ b'E' ∷ b':'
    ∷ b' ' ∷ []

abbrev pub hd_nb_param_string : Bytes
hd_nb_param_string =
    b'N' ∷ b'U' ∷ b'M' ∷ b'B' ∷ b'E' ∷ b'R' ∷ b' ' ∷ b'O' ∷ b'F' ∷ b' ' ∷ b'P' ∷ b'A' ∷ b'R' ∷ b'A'
    ∷ b'M' ∷ b'E' ∷ b'T' ∷ b'E' ∷ b'R' ∷ b'S' ∷ b':' ∷ b' ' ∷ []

abbrev pub hd_param_types : Bytes
hd_param_types =
    b'P' ∷ b'A' ∷ b'R' ∷ b'A' ∷ b'M' ∷ b'E' ∷ b'T' ∷ b'E' ∷ b'R' ∷ b'S' ∷ b' ' ∷ b'T' ∷ b'Y' ∷ b'P'
    ∷ b'E' ∷ b':' ∷ b' ' ∷ []

abbrev pub hd_typ_str : Bytes
hd_typ_str = b'<' ∷ b's' ∷ b't' ∷ b'r' ∷ b'>' ∷ []

abbrev pub hd_typ_int : Bytes
hd_typ_int = b'<' ∷ b'i' ∷ b'n' ∷ b't' ∷ b'>' ∷ []

abbrev pub hd_typ_void : Bytes
hd_typ_void = b'<' ∷ b'v' ∷ b'o' ∷ b'i' ∷ b'd' ∷ b'>' ∷ []

abbrev pub hd_typ_unknown : Bytes
hd_typ_unknown = b'<' ∷ b'u' ∷ b'n' ∷ b'k' ∷ b'n' ∷ b'o' ∷ b'w' ∷ b'n' ∷ b'>' ∷ []

-- `while (i != 0)`, on the absolute value: none for 0, and no sign.
unfoldable pub int_size : ℤ → ℕ
int_size i = count_digits 10 (pos_part i + neg_part i) 0

unfoldable pub type_size : ℕ → ℕ
type_size typ =
    if typ == rpc_ty_void
    then length hd_typ_void
    else if typ == rpc_ty_int
    then length hd_typ_int
    else if typ == rpc_ty_str
    then length hd_typ_str
    else length hd_typ_unknown

unfoldable pub get_type : ℕ → Bytes
get_type typ =
    if typ == rpc_ty_void
    then hd_typ_void
    else if typ == rpc_ty_int
    then hd_typ_int
    else if typ == rpc_ty_str
    then hd_typ_str
    else hd_typ_unknown

-- The loop over the types, one byte more for each.
unfoldable pub types_size : ℕ → List ℕ → Exec ℕ
types_size zero argv = done 0
types_size (suc rounds) [] = undefined
types_size (suc rounds) (typ ∷ argv) =
    types_size rounds argv >>= λ size. done (type_size typ + 1 + size)

unfoldable pub params_size : ℤ → List ℕ → Exec ℕ
params_size argc argv = elim (pos_part argc) [
  | zero ↦ done 0
  | suc n ↦ types_size (suc n) argv >>= λ size. done (length hd_param_types + size + 1)
]

-- Where a text is written: the counter and the block.
abbrev pub Place : Type 0
Place = ℕ × Cells

infixr 5 ◌>=>◌
abbrev pub ◌>=>◌ : (Place → Exec Place) → (Place → Exec Place) → Place → Exec Place
(f >=> g) s = f s >>= g

-- `memcpy(__doc_string + cpt, bytes, …); cpt += …`
unfoldable pub put : Bytes → Place → Exec Place
put bytes (cpt, cells) = blit cpt bytes cells >>= λ cells'. done (cpt + length bytes, cells')

-- `__doc_string[cpt++] = …`
abbrev pub put_char : ℕ → Place → Exec Place
put_char c = put (c ∷ [])

-- The first bytes of an array of characters, which holds a zero byte behind them.
pub put_array : ℕ → Bytes → Place → Exec Place
put_array n array s = read_bytes n (array ++ (0 ∷ [])) >>= λ (bytes, _). put bytes s

-- `sprintf` writes a zero byte too, which does not count.
pub put_number : ℤ → Place → Exec Place
put_number argc (cpt, cells) =
    blit cpt (decimal_ℤ argc ++ (0 ∷ [])) cells >>= λ cells'. done (cpt + int_size argc, cells')

pub put_type : ℕ → Place → Exec Place
put_type typ = put_array (type_size typ) (get_type typ)

-- The loop over the types: a comma behind each but the last, and a new line there.
pub put_types : ℕ → List ℕ → Place → Exec Place
put_types zero argv s = done s
put_types (suc rounds) [] s = undefined
put_types (suc rounds) (typ ∷ argv) s =
    (put_type typ >=> put_char (if rounds == 0 then 10 else b',') >=> put_types rounds argv) s

pub put_params : ℤ → List ℕ → Place → Exec Place
put_params argc argv s = elim (pos_part argc) [
  | zero ↦ done s
  | suc n ↦ (put hd_param_types >=> put_types (suc n) argv >=> put_char 10) s
]

module _ {F : Type 0} where
  -- The increments for one function.
  unfoldable pub function_size : FunctionMapper F → Exec ℕ
  function_size f = params_size f.fun.argc f.fun.argv >>= λ params. done (
      length hd_name_string
      + f.name_length
      + 1
      + (length hd_doc_string + f.description_length + 1)
      + (length hd_ret_type_string + type_size f.fun.return_type + 1)
      + (length hd_nb_param_string + int_size f.fun.argc + 1)
      + params)

  unfoldable pub functions_size : List (FunctionMapper F) → Exec ℕ
  functions_size [] = done 0
  functions_size (f ∷ fmap) = do
    here ← function_size f
    more ← functions_size fmap
    done (here + more)

  -- The sizes only grow, so that one test of the sum is enough.
  unfoldable pub documentation_size : Memory F → Exec ℕ
  documentation_size memory = functions_size memory.fmap >>= λ size. checked_size (size + 1)

  pub put_description : FunctionMapper F → Place → Exec Place
  put_description f =
      if ltb 0 f.description_length
      then put_array f.description_length f.description
      else put no_doc_string

  pub put_function : FunctionMapper F → Place → Exec Place
  put_function f =
      put hd_name_string
      >=> put_array f.name_length f.name
      >=> put_char 10
      >=> put hd_doc_string
      >=> put_description f
      >=> put_char 10
      >=> put hd_ret_type_string
      >=> put_type f.fun.return_type
      >=> put_char 10
      >=> put hd_nb_param_string
      >=> (put_number f.fun.argc >=> put_char 10)
      >=> put_params f.fun.argc f.fun.argv

  pub put_functions : List (FunctionMapper F) → Place → Exec Place
  put_functions [] s = done s
  put_functions (f ∷ fmap) s = (put_function f >=> put_functions fmap) s

  -- The new block; `none` is the code 1. `granted` is the answer of `malloc`. The size is never 0.
  pub generate_documentation : (ℕ → Bool) → Memory F → Exec (Option Cells)
  generate_documentation granted memory = do
    size ← documentation_size memory
    if granted (size + 1)
        then ((put_functions memory.fmap >=> put_char 10 >=> put_char 0) (0, fresh (size + 1))
            >>= λ (_, cells). done (some cells))
        else done none
