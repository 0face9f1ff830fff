-- ===== src/Examples/Service.antt =====
-- The theorems on the list of functions and on the server's child process, at a server with one
-- function.
use remote_procedure_control.Prelude.{
  ℕ, ◌≡◌, ◌↔◌, refl, arith, true, false, List, [], ◌∷◌, none, some, length, if◌then◌else◌,
}
use remote_procedure_control.Prelude.Int.{ℤ, pos, negsuc, ◌+ℤ◌}
use remote_procedure_control.Machine.{
  Exec, done, undefined, diverges, strlen, c_string, strcmp_zero, str_eq,
}
use remote_procedure_control.Machine.Cells.{written}
use remote_procedure_control.RpcData.{type_exists, Pointee, int}
use remote_procedure_control.RpcData.Protocol.{number, text, void, Request, body, to_message}
use remote_procedure_control.RpcData.Answer.Layout.{answer_frame, error_frame}
use remote_procedure_control.Mapper.{
  Function, FunctionMapper, Memory, empty_memory, create_function, add_function, find, unlink,
  fill_function, copy_description, read_parameters, exist_function, get_function, remove_function,
}
use remote_procedure_control.Mapper.Lookup.{
  IsValid, get-add, exist-get, get-name, get-remove_ne, remove-add,
}
use remote_procedure_control.Mapper.Counting.{
  Operation, adds, removes, clears, apply_all, apply_all-IsValid, empty_memory-IsValid,
}
use remote_procedure_control.Mapper.Create.{IsFilled, create_function-IsFilled}
use remote_procedure_control.Server.{
  Platform, Calls, answered, same_types, verify_types, verification, call_arguments,
}
use remote_procedure_control.Server.Verification.{Fits, verification_lem, verification_iff}
use remote_procedure_control.Server.Errors.{
  IsWorking, read_msg_lem, handled, execute_client_unknown, execute_client_refused,
}
use remote_procedure_control.Server.Answers.{execute_client_value}
use mathlib.Core.List.{head?}
use remote_procedure_control.Server.Typed.{Matches, verified_call}
use remote_procedure_control.Mapper.Refinement.{replay, view, get-apply_all_refines}
use remote_procedure_control.Mapper.Debug.{print_memory_state, print_memory_state_lem}
use remote_procedure_control.Machine.Words.{int_bytes}
use remote_procedure_control.Specials.{
  documentation_size, functions_size, function_size, params_size, types_size, type_size, int_size,
  generate_documentation,
}
use remote_procedure_control.Specials.Undescribed.{generate_undescribed}
use remote_procedure_control.RpcData.Integer.{count_digits}
use remote_procedure_control.Examples.{
  granted, granted-IsGranting, plus_name, hello, plus_request, plus_request-IsRequest,
}

-- A pointer to a function is its number; there is one, which adds.
abbrev pub calls : Calls ℕ
calls = record {
  call_void = λ f args. done tt;
  call_int = λ f args. sum args;
  call_str = λ f args. done none;
}
  where
    sum : List Pointee → Exec ℤ
    sum (int a ∷ int b ∷ []) = done (a +ℤ b)
    sum _ = undefined

abbrev plus_function : Function ℕ
plus_function = record { return_type = 1; argc = pos 2; argv = 1 ∷ 1 ∷ []; fun_ptr = 0 }

abbrev pub plus_mapper : FunctionMapper ℕ
plus_mapper = record {
  name_length = 4;
  name = plus_name;
  description_length = 0;
  description = [];
  fun = plus_function;
}

abbrev pub memory : Memory ℕ
memory = record { size = 1; initialized = true; fmap = plus_mapper ∷ [] }

memory-IsValid : IsValid memory
memory-IsValid = record { unused = λ h. cc; counted = refl }

-- Everything is granted, and `send` works.
abbrev pub working : Platform
working = record { reading = granted; answering = granted; sends = true }

pub working-IsWorking : IsWorking working
working-IsWorking = record {
  reading_grants = granted-IsGranting;
  answering_grants = granted-IsGranting;
  sending = refl;
}

get-add_test : get_function (add_function true (some memory) plus_mapper).1 hello ≡ (
    if strcmp_zero hello plus_mapper.name
    then some plus_mapper
    else get_function (some memory) hello)
get-add_test = get-add memory plus_mapper hello memory-IsValid

exist-get_test :
    exist_function (some memory) hello
    ≡ elim (get_function (some memory) hello) [ none ↦ pos 0 | some f ↦ pos 1 ]
exist-get_test = exist-get memory hello

get-name_test : c_string plus_name ≡ c_string plus_mapper.name
get-name_test =
    get-name memory plus_name plus_mapper (unfold get_function find str_eq c_string in refl)

get-remove_ne_test :
    (get_function (some (record memory { size = 0; fmap = [] })) hello
      ≡ get_function (some memory) hello)
    × (pos 0 ≡ elim (get_function (some memory) plus_name) [ none ↦ negsuc 0 | some f ↦ pos 0 ])
get-remove_ne_test =
    get-remove_ne memory (record memory { size = 0; fmap = [] }) plus_name hello (pos 0)
      (λ h. unfold c_string in cc) (unfold remove_function find unlink str_eq c_string in refl)

remove-add_test :
    remove_function (add_function true (some memory) plus_mapper).1 plus_name ≡ (pos 0, some memory)
remove-add_test = remove-add memory plus_mapper memory-IsValid refl

abbrev operations : List (Operation ℕ)
operations =
    adds true plus_mapper
    ∷ removes plus_name
    ∷ removes plus_name
    ∷ adds false plus_mapper
    ∷ clears
    ∷ []

apply_all-IsValid_example : IsValid (apply_all (empty_memory {F = ℕ}) operations)
apply_all-IsValid_example = apply_all-IsValid operations empty_memory empty_memory-IsValid

abbrev blank : FunctionMapper ℕ
blank = record {
  name_length = 0;
  name = [];
  description_length = 0;
  description = [];
  fun = record { return_type = 0; argc = pos 0; argv = []; fun_ptr = 0 };
}

create_function-IsFilled_test :
    IsFilled plus_mapper
    × (plus_mapper.name ≡ c_string plus_name)
    × (plus_mapper.fun.return_type ≡ 1)
    × (plus_mapper.fun.argc ≡ pos 2)
    × (plus_mapper.fun.fun_ptr ≡ 0)
create_function-IsFilled_test =
    create_function-IsFilled blank plus_mapper plus_name 1 none 0 (pos 2) (1 ∷ 1 ∷ []) (
      unfold create_function fill_function copy_description read_parameters strlen c_string
        type_exists in
      refl)

-- A request for the same function with other types.
abbrev text_request : Request
text_request = record { command = plus_name; return_type = 1; arguments = text hello ∷ void ∷ [] }

verification_lem_test : verification plus_function (to_message text_request) ≡ done (some 2)
unfolding str_eq
verification_lem_test = verification_lem plus_function text_request refl

verification_iff_test :
    (verification plus_function (to_message plus_request) ≡ done none)
    ↔ Fits plus_function plus_request
verification_iff_test = verification_iff plus_function plus_request refl

execute_client_unknown_test :
    handled working calls (empty_memory {F = ℕ}) plus_request
    ≡ done (answered (written (error_frame 1)))
execute_client_unknown_test =
    execute_client_unknown working calls empty_memory plus_request working-IsWorking
      plus_request-IsRequest (unfold get_function find in refl)

-- The same name, registered with no argument.
abbrev pub other_mapper : FunctionMapper ℕ
other_mapper = record plus_mapper {
  fun = record { return_type = 1; argc = pos 0; argv = []; fun_ptr = 0 };
}

abbrev pub other_memory : Memory ℕ
other_memory = record { size = 1; initialized = true; fmap = other_mapper ∷ [] }

execute_client_refused_test :
    handled working calls other_memory plus_request ≡ done (answered (written (error_frame 5)))
execute_client_refused_test =
    execute_client_refused working calls other_memory plus_request working-IsWorking
      plus_request-IsRequest other_mapper 5 (unfold get_function find str_eq c_string in refl)
      (λ h. ground arith) (unfold verification verify_types same_types to_message in refl)

execute_client_value_test :
    handled working calls memory plus_request
    ≡ done (answered (written (answer_frame (number (pos 35)))))
execute_client_value_test =
    execute_client_value working calls memory plus_request plus_mapper (number (pos 35))
      working-IsWorking plus_request-IsRequest (unfold get_function find str_eq c_string in refl)
      refl (record { counted = refl; typed = refl; returned = refl }) (omega arith)
      (omega arith, λ h. ground arith) (refl, refl)

verified_call_example :
    ((ps : List Pointee) × (call_arguments (to_message plus_request) ≡ done ps)
      × Matches (1 ∷ 1 ∷ []) ps)
    × (1 ≡ (to_message plus_request).return_type)
verified_call_example =
    verified_call working plus_function (some (int_bytes (pos (length (body plus_request)))))
      (some (body plus_request)) (to_message plus_request) refl
      (read_msg_lem working plus_request working-IsWorking plus_request-IsRequest)
      ((verification_iff plus_function plus_request refl).1
        (record { counted = refl; typed = refl; returned = refl }))

get-apply_all_refines_example :
    get_function (some (apply_all (empty_memory {F = ℕ}) operations)) hello
    ≡ head? (replay (view (empty_memory {F = ℕ})) operations hello)
get-apply_all_refines_example =
    get-apply_all_refines operations empty_memory hello empty_memory-IsValid

print_memory_state_lem_test : print_memory_state (some memory) ≡ diverges
print_memory_state_lem_test = print_memory_state_lem memory

-- The function `plus` has no description.
generate_undescribed_example : generate_documentation (λ n. true) memory ≡ undefined
generate_undescribed_example =
    generate_undescribed (λ n. true) memory 93
      (unfold documentation_size functions_size function_size params_size types_size type_size
          int_size count_digits in
        refl)
      refl (omega arith)
