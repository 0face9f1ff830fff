-- ===== src/Defaults/Registration.antt =====
-- `add_default_functions` of src/s_defaults.c: the names and types that are registered.
use remote_procedure_control.Prelude.{ℕ, Bool, List, [], ◌∷◌, none, some, length}
use remote_procedure_control.Prelude.Int.{pos}
use remote_procedure_control.Machine.{Exec, done, undefined, ◌>>=◌, Bytes}
use remote_procedure_control.RpcData.{rpc_ty_void, rpc_ty_int, rpc_ty_str}
use remote_procedure_control.Mapper.{FunctionMapper, Memory, create_function, add_function}
use remote_procedure_control.Defaults.{
  Operator, plus, minus, multiplication, division, power, Default, documentation, concat, identity,
  shutdown, square, string_length, operator,
}

unfoldable pub operator_name : Operator → Bytes
operator_name plus = b'p' ∷ b'l' ∷ b'u' ∷ b's' ∷ []
operator_name minus = b'm' ∷ b'i' ∷ b'n' ∷ b'u' ∷ b's' ∷ []
operator_name multiplication =
    b'm' ∷ b'u' ∷ b'l' ∷ b't' ∷ b'i' ∷ b'p' ∷ b'l' ∷ b'i' ∷ b'c' ∷ b'a' ∷ b't' ∷ b'i' ∷ b'o' ∷ b'n'
    ∷ []
operator_name division = b'd' ∷ b'i' ∷ b'v' ∷ b'i' ∷ b's' ∷ b'i' ∷ b'o' ∷ b'n' ∷ []
operator_name power = b'p' ∷ b'o' ∷ b'w' ∷ b'e' ∷ b'r' ∷ []

unfoldable pub default_name : Default → Bytes
default_name (operator op) = operator_name op
default_name documentation =
    b'd' ∷ b'o' ∷ b'c' ∷ b'u' ∷ b'm' ∷ b'e' ∷ b'n' ∷ b't' ∷ b'a' ∷ b't' ∷ b'i' ∷ b'o' ∷ b'n' ∷ []
default_name concat = b'c' ∷ b'o' ∷ b'n' ∷ b'c' ∷ b'a' ∷ b't' ∷ []
default_name identity = b'i' ∷ b'd' ∷ b'e' ∷ b'n' ∷ b't' ∷ b'i' ∷ b't' ∷ b'y' ∷ []
default_name shutdown = b's' ∷ b'h' ∷ b'u' ∷ b't' ∷ b'd' ∷ b'o' ∷ b'w' ∷ b'n' ∷ []
default_name square = b's' ∷ b'q' ∷ b'u' ∷ b'a' ∷ b'r' ∷ b'e' ∷ []
default_name string_length =
    b's' ∷ b't' ∷ b'r' ∷ b'i' ∷ b'n' ∷ b'g' ∷ b'_' ∷ b'l' ∷ b'e' ∷ b'n' ∷ b'g' ∷ b't' ∷ b'h' ∷ []

unfoldable pub operator_description : Operator → Bytes
operator_description plus =
    b'p' ∷ b'l' ∷ b'u' ∷ b's' ∷ b' ' ∷ b'f' ∷ b'u' ∷ b'n' ∷ b'c' ∷ b't' ∷ b'i' ∷ b'o' ∷ b'n' ∷ b's'
    ∷ []
operator_description minus =
    b'm' ∷ b'i' ∷ b'n' ∷ b'u' ∷ b's' ∷ b' ' ∷ b'f' ∷ b'u' ∷ b'n' ∷ b'c' ∷ b't' ∷ b'i' ∷ b'o' ∷ b'n'
    ∷ b's' ∷ []
operator_description multiplication =
    b'm' ∷ b'u' ∷ b'l' ∷ b't' ∷ b'i' ∷ b'p' ∷ b'l' ∷ b'i' ∷ b'c' ∷ b'a' ∷ b't' ∷ b'i' ∷ b'o' ∷ b'n'
    ∷ b' ' ∷ b'f' ∷ b'u' ∷ b'n' ∷ b'c' ∷ b't' ∷ b'i' ∷ b'o' ∷ b'n' ∷ b's' ∷ []
operator_description division =
    b'd' ∷ b'i' ∷ b'v' ∷ b'i' ∷ b's' ∷ b'i' ∷ b'o' ∷ b'n' ∷ b' ' ∷ b'f' ∷ b'u' ∷ b'n' ∷ b'c' ∷ b't'
    ∷ b'i' ∷ b'o' ∷ b'n' ∷ b's' ∷ []
operator_description power =
    b'p' ∷ b'o' ∷ b'w' ∷ b'e' ∷ b'r' ∷ b' ' ∷ b'f' ∷ b'u' ∷ b'n' ∷ b'c' ∷ b't' ∷ b'i' ∷ b'o' ∷ b'n'
    ∷ b's' ∷ []

unfoldable pub default_description : Default → Bytes
default_description (operator op) = operator_description op
default_description documentation =
    b'r' ∷ b'e' ∷ b't' ∷ b'u' ∷ b'r' ∷ b'n' ∷ b' ' ∷ b't' ∷ b'h' ∷ b'e' ∷ b' ' ∷ b'd' ∷ b'o' ∷ b'c'
    ∷ b'u' ∷ b'm' ∷ b'e' ∷ b'n' ∷ b't' ∷ b'a' ∷ b't' ∷ b'i' ∷ b'o' ∷ b'n' ∷ b' ' ∷ b'o' ∷ b'f'
    ∷ b' ' ∷ b'a' ∷ b'l' ∷ b'l' ∷ b' ' ∷ b's' ∷ b'a' ∷ b'v' ∷ b'e' ∷ b'd' ∷ b' ' ∷ b'f' ∷ b'u'
    ∷ b'n' ∷ b'c' ∷ b't' ∷ b'i' ∷ b'o' ∷ b'n' ∷ b's' ∷ b'.' ∷ []
default_description concat =
    b'c' ∷ b'o' ∷ b'n' ∷ b'c' ∷ b'a' ∷ b't' ∷ b'e' ∷ b'n' ∷ b'a' ∷ b't' ∷ b'e' ∷ b' ' ∷ b't' ∷ b'w'
    ∷ b'e' ∷ b' ' ∷ b's' ∷ b't' ∷ b'r' ∷ b'i' ∷ b'n' ∷ b'g' ∷ b's' ∷ []
default_description identity =
    b'r' ∷ b'e' ∷ b't' ∷ b'u' ∷ b'r' ∷ b'n' ∷ b' ' ∷ b't' ∷ b'h' ∷ b'e' ∷ b' ' ∷ b's' ∷ b'a' ∷ b'm'
    ∷ b'e' ∷ b' ' ∷ b's' ∷ b't' ∷ b'r' ∷ []
default_description shutdown =
    b'S' ∷ b'h' ∷ b'u' ∷ b't' ∷ b'd' ∷ b'o' ∷ b'w' ∷ b'n' ∷ b' ' ∷ b't' ∷ b'h' ∷ b'e' ∷ b' ' ∷ b's'
    ∷ b'e' ∷ b'r' ∷ b'v' ∷ b'e' ∷ b'r' ∷ []
default_description square =
    b's' ∷ b'q' ∷ b'u' ∷ b'a' ∷ b'r' ∷ b'e' ∷ b' ' ∷ b'f' ∷ b'u' ∷ b'n' ∷ b'c' ∷ b't' ∷ b'i' ∷ b'o'
    ∷ b'n' ∷ []
default_description string_length =
    b's' ∷ b't' ∷ b'r' ∷ b'i' ∷ b'n' ∷ b'g' ∷ b'_' ∷ b'l' ∷ b'e' ∷ b'n' ∷ b'g' ∷ b't' ∷ b'h' ∷ b' '
    ∷ b'f' ∷ b'u' ∷ b'n' ∷ b'c' ∷ b't' ∷ b'i' ∷ b'o' ∷ b'n' ∷ []

-- The return type and the types of the arguments that are passed to `create_function`.
abbrev pub default_type : Default → ℕ
default_type documentation = rpc_ty_str
default_type concat = rpc_ty_str
default_type identity = rpc_ty_str
default_type shutdown = rpc_ty_void
default_type square = rpc_ty_int
default_type string_length = rpc_ty_int
default_type (operator op) = rpc_ty_int

abbrev pub parameter_types : Default → List ℕ
parameter_types documentation = []
parameter_types concat = rpc_ty_str ∷ rpc_ty_str ∷ []
parameter_types identity = rpc_ty_str ∷ []
parameter_types shutdown = rpc_ty_str ∷ []
parameter_types square = rpc_ty_int ∷ []
parameter_types string_length = rpc_ty_str ∷ []
parameter_types (operator op) = rpc_ty_int ∷ rpc_ty_int ∷ []

-- `memset(&map, 0, sizeof(struct function_mapper))`; its pointer is never called.
abbrev blank : Default → FunctionMapper Default
blank fun_ptr = record {
  name_length = 0;
  name = [];
  description_length = 0;
  description = [];
  fun = record { return_type = 0; argc = pos 0; argv = []; fun_ptr = fun_ptr };
}

-- One registration; neither result is looked at. `granted` is the answer of `malloc`.
unfoldable pub register : Bool → Default → Memory Default → Exec (Memory Default)
register granted d memory =
    create_function (some (blank d)) (default_name d) (default_type d)
      (some (default_description d)) d (pos (length (parameter_types d))) (parameter_types d)
    >>= λ created. elim created.1 [
      | none ↦ undefined
      | some map ↦ elim (add_function granted (some memory) map).1 [
        | none ↦ undefined
        | some memory' ↦ done memory'
      ]
    ]

unfoldable pub register_all :
    (Default → Bool) → List Default → Memory Default → Exec (Memory Default)
register_all granted [] memory = done memory
register_all granted (d ∷ ds) memory = register (granted d) d memory >>= register_all granted ds

-- The order of the registrations.
abbrev pub defaults : List Default
defaults =
    documentation
    ∷ concat
    ∷ identity
    ∷ shutdown
    ∷ operator plus
    ∷ operator minus
    ∷ operator multiplication
    ∷ operator division
    ∷ operator power
    ∷ square
    ∷ string_length
    ∷ []

-- `main` calls it with the address of `function_memory`, to which some of the additions go in any case.
unfoldable pub add_default_functions : (Default → Bool) → Memory Default → Exec (Memory Default)
add_default_functions granted memory = register_all granted defaults memory
