-- ===== src/Defaults/Registered.antt =====
-- What `add_default_functions` of src/s_defaults.c registers, and calls of it from end to end.
use remote_procedure_control.Prelude.{
  ℕ, ◌≡◌, ◌≤◌, refl, ap, ◌∙◌, length-append, Bool, true, arith, [], ◌∷◌, Option, none, some, length,
}
use remote_procedure_control.Prelude.Int.{ℤ, pos}
use remote_procedure_control.Machine.{IsText, done-injective}
use remote_procedure_control.RpcData.{Pointee, deref_int}
use remote_procedure_control.RpcData.Integer.Decimal.{length-integer_bytes-le}
use remote_procedure_control.RpcData.Protocol.{
  number, Request, IsRequest, IsArgument, argument_bytes, arguments_bytes, to_arg,
}
use remote_procedure_control.RpcData.Serialize.Frame.{length-body, length-frame}
use remote_procedure_control.RpcData.Deserialize.Accepts.{IsGranting}
use remote_procedure_control.Server.{Platform}
use remote_procedure_control.Server.Answers.{datas}
use remote_procedure_control.Client.{Network, external_call}
use remote_procedure_control.Client.Call.{external_call_lem}
use remote_procedure_control.Client.Conversation.{IsOpen, transmition_value}
use remote_procedure_control.Defaults.{operate, two_ints, call_int_default, default_calls}
use remote_procedure_control.Machine.{done, ◌>>=◌, Bytes, str_eq, c_string, strlen}
use remote_procedure_control.RpcData.{type_exists}
use remote_procedure_control.Mapper.{
  Function, FunctionMapper, Memory, empty_memory, create_function, fill_function, copy_description,
  read_parameters, initialize, add_function, find, get_function,
}
use remote_procedure_control.Defaults.{
  Default, Operator, operator, documentation, concat, identity, shutdown, square, string_length,
  plus, minus, multiplication, division, power,
}
use remote_procedure_control.Defaults.Registration.{
  default_name, operator_name, default_description, operator_description, default_type,
  parameter_types, register, register_all, add_default_functions,
}

abbrev pub signature : Default → Function Default
signature d = record {
  return_type = default_type d;
  argc = pos (length (parameter_types d));
  argv = parameter_types d;
  fun_ptr = d;
}

abbrev pub function_of : Memory Default → Default → Option (Function Default)
function_of m d = elim (get_function (some m) (default_name d)) [
  | none ↦ none
  | some f ↦ some f.fun
]

-- In a memory that starts empty, with a node for each addition, `add_default_functions` registers
-- every default function under its own name, with its declared types and its pointer.
pub registered_lem :
    (d : Default)
    → (add_default_functions (λ _. true) empty_memory >>= λ m. done (function_of m d))
      ≡ done (some (signature d))
unfolding add_default_functions register_all register create_function fill_function copy_description
    read_parameters initialize add_function find get_function default_name operator_name
    default_description operator_description str_eq c_string strlen type_exists
registered_lem documentation = refl
registered_lem concat = refl
registered_lem identity = refl
registered_lem shutdown = refl
registered_lem square = refl
registered_lem string_length = refl
registered_lem (operator plus) = refl
registered_lem (operator minus) = refl
registered_lem (operator multiplication) = refl
registered_lem (operator division) = refl
registered_lem (operator power) = refl

pub fun-some :
    (found : Option (FunctionMapper Default)) (g : Function Default)
    → elim found [ none ↦ none | some f ↦ some f.fun ] ≡ some g
    → (f : FunctionMapper Default) × (found ≡ some f) × (f.fun ≡ g)
fun-some none g e = absurd (ground arith)
fun-some (some f) g e = (f, refl, ground arith)

pub registered_function :
    (m : Memory Default) (d : Default)
    → add_default_functions (λ _. true) empty_memory ≡ done m
    → (f : FunctionMapper Default) × (get_function (some m) (default_name d) ≡ some f)
      × (f.fun ≡ signature d)
registered_function m d e =
    fun-some (get_function (some m) (default_name d)) (signature d)
      (done-injective _ _ (rw e at (registered_lem d)))

-- A request for a function of two numbers.
abbrev pub operator_request : Operator → ℤ → ℤ → Request
operator_request op a b = record {
  command = operator_name op;
  return_type = 1;
  arguments = number a ∷ number b ∷ [];
}

operator_name-IsText :
    (op : Operator) → IsText (operator_name op) × (length (operator_name op) ≤ 14)
unfolding operator_name
operator_name-IsText plus = omega arith
operator_name-IsText minus = omega arith
operator_name-IsText multiplication = omega arith
operator_name-IsText division = omega arith
operator_name-IsText power = omega arith

pub operator_request-IsRequest :
    (op : Operator) (a b : ℤ)
    → IsArgument (number a)
    → IsArgument (number b)
    → IsRequest (operator_request op a b)
operator_request-IsRequest op a b ha hb =
    let r = operator_request op a b in
    let (named, short) = operator_name-IsText op in
    record {
      command_text = named;
      return_exists = omega arith;
      arguments_valid = (ha, (hb, tt));
      fits = omega (
        arith,
        length-frame r,
        length-body r,
        short,
        length-append (argument_bytes (number a)) (arguments_bytes (number b ∷ [])),
        length-append (argument_bytes (number b)) [],
        length-integer_bytes-le a,
        length-integer_bytes-le b,
      );
    }

-- On a network that works, whose server has the default functions in memory, `external_call` of a
-- function of two numbers with its name ends with code 0 and stores the result of the function, if
-- neither the arguments nor the result are the least `int`, the result is an `int`, and there is room
-- for it.
pub external_call-operate :
    (net : Network) (p : Platform) (granted : Bool) (doc : Option Bytes) (memory : Memory Default)
    (op : Operator) (a b i : ℤ) (room : ℕ)
    → IsOpen net p (default_calls granted doc) memory
    → IsGranting net.calling
    → IsGranting net.creating
    → add_default_functions (λ _. true) empty_memory ≡ done memory
    → IsArgument (number a)
    → IsArgument (number b)
    → operate op a b ≡ done i
    → IsArgument (number i)
    → 4 ≤ room
    → external_call net
        (operator_name op)
        1
        (some room)
        (to_arg (number a) ∷ to_arg (number b) ∷ [])
      ≡ done (record { code = pos 0; stored = some (Pointee.int i); printed = [] })
external_call-operate net p granted doc memory op a b i room o calling creating added ha hb result
      hi fits =
    let r = operator_request op a b in
    let q = operator_request-IsRequest op a b ha hb in
    let (f, found, same) =
      (let found_there : (f : FunctionMapper Default) × (get_function (some memory)
                (operator_name op)
              ≡ some f)
            × (f.fun ≡ signature (operator op)) =
          unfold default_name in registered_function memory (operator op) added in
        found_there) in
    external_call_lem net r (some room) calling creating q (tt, (tt, tt))
    ∙ transmition_value net p (default_calls granted doc) memory r o q (some room) f (number i)
        found (rw same refl) (rw same (record { counted = refl; typed = refl; returned = refl }))
        (omega arith) hi
        (
          refl,
          ap (λ (g : Function Default). call_int_default g.fun_ptr (datas r.arguments)) same
              ∙ called,
        )
        fits
  where
    called : call_int_default (operator op) (datas (number a ∷ number b ∷ [])) ≡ done i
    called = unfold call_int_default two_ints deref_int in result
