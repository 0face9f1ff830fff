-- ===== src/Examples/CommandLine.antt =====
-- The theorems on the client's command line.
use remote_procedure_control.Prelude.{
  ℕ, ◌+◌, ◌≡◌, ◌<◌, ◌↔◌, refl, arith, true, false, ltb, if◌then◌else◌, List, [], ◌∷◌, ◌++◌, drop,
  some, length,
}
use remote_procedure_control.Prelude.Int.{pos}
use remote_procedure_control.Machine.{done, undefined, Bytes, str_eq, c_string}
use remote_procedure_control.Mapper.{Memory, FunctionMapper, find, get_function}
use remote_procedure_control.Server.{Calls}
use remote_procedure_control.Server.Loop.{SocketCalls}
use remote_procedure_control.Specials.Text.{functions_text}
use remote_procedure_control.Defaults.{default_calls}
use remote_procedure_control.Service.{default_memory}
use remote_procedure_control.Service.Documented.{started_lem, main-list-started}
use remote_procedure_control.Client.{Network}
use remote_procedure_control.Client.Conversation.{served, IsOpen}
use remote_procedure_control.Client.CommandLine
use remote_procedure_control.Client.Options.{
  accepts, rejects, check_command, documentation_name, minus_int, minus_void, minus_ret, minus_c,
  minus_l, list_flag,
}
use remote_procedure_control.Client.CommandLine.{Flag, Shown, Finish, failure, succeeds, flag}
use remote_procedure_control.Client.Options.Checks.{Options, check_command_iff}
use remote_procedure_control.Client.CommandLine.Failures.{main-command}
use remote_procedure_control.Client.CommandLine.Listing.{main-list}
use remote_procedure_control.Examples.{granted, granted-IsGranting, plus_name, hello}
use remote_procedure_control.Examples.Service.{working, working-IsWorking, memory}
use remote_procedure_control.Examples.Calling.{joined}

abbrev client_name : Bytes
client_name = b'c' ∷ b'l' ∷ b'i' ∷ b'e' ∷ b'n' ∷ b't' ∷ []

-- `-c plus -ret -int -int 42`
abbrev words : List Bytes
words = plus_name ∷ minus_ret ∷ minus_int ∷ minus_int ∷ (b'4' ∷ b'2' ∷ []) ∷ []

check_command_iff_example : (check_command (client_name ∷ minus_c ∷ words) 2 ≡ accepts 1) ↔ (
    (2 + 2 < length (client_name ∷ minus_c ∷ words))
    × Options (drop (2 + 3) (client_name ∷ minus_c ∷ words)) 1)
check_command_iff_example = check_command_iff (client_name ∷ minus_c ∷ words) 2 1

-- `-c plus -ret -int -void -int 42`
abbrev void_first : List Bytes
void_first =
    client_name
    ∷ minus_c
    ∷ plus_name
    ∷ minus_ret
    ∷ minus_int
    ∷ minus_void
    ∷ minus_int
    ∷ (b'4' ∷ b'2' ∷ [])
    ∷ []

main-command_example :
    CommandLine.main granted (λ n. joined memory) (client_name ∷ minus_c ∷ words)
    ≡ elim (check_command (client_name ∷ minus_c ∷ words) 2) [
      | accepts n ↦ undefined
      | rejects position ↦ done failure
    ]
main-command_example =
    main-command granted (λ n. joined memory) client_name minus_c words granted-IsGranting
      (omega arith) (unfold flag str_eq c_string in refl)

-- A server with one function, which says "hello".
abbrev greeting : Calls ℕ
greeting = record {
  call_void = λ f args. undefined;
  call_int = λ f args. undefined;
  call_str = λ f args. done (some hello);
}

abbrev documentation_mapper : FunctionMapper ℕ
documentation_mapper = record {
  name_length = 13;
  name = documentation_name;
  description_length = 0;
  description = [];
  fun = record { return_type = 2; argc = pos 0; argv = []; fun_ptr = 0 };
}

abbrev greeting_memory : Memory ℕ
greeting_memory = record { size = 1; initialized = true; fmap = documentation_mapper ∷ [] }

abbrev network_of : {F : Type 0} → Calls F → Memory F → Network
network_of calls m = record (joined memory) { server = served working calls m }

network_of-IsOpen :
    {F : Type 0} (calls : Calls F) (m : Memory F) → IsOpen (network_of calls m) working calls m
network_of-IsOpen calls m = record {
  sending_grants = granted-IsGranting;
  answering_grants = granted-IsGranting;
  connecting = refl;
  sends_all = refl;
  serving = refl;
  working = working-IsWorking;
}

main-list_example :
    CommandLine.main granted (λ n. network_of greeting greeting_memory) (client_name ∷ minus_l ∷ [])
    ≡ (if ltb (length hello) 2048 then done (succeeds (Shown.text hello)) else undefined)
main-list_example =
    main-list (network_of greeting greeting_memory) working greeting greeting_memory
      (network_of-IsOpen greeting greeting_memory) granted-IsGranting granted-IsGranting
      documentation_mapper granted (λ n. network_of greeting greeting_memory) client_name minus_l []
      hello refl (unfold flag str_eq c_string in refl)
      (record {
        found = unfold get_function find str_eq c_string in refl;
        stored = refl;
        fits = record { counted = refl; typed = refl; returned = refl };
        returned = refl;
        written = omega arith;
        carried = omega arith;
      })

abbrev sockets : SocketCalls
sockets = record {
  socket = some 3;
  unlinks = true;
  no_file = false;
  binds = true;
  listens = true;
  creates_thread = true;
}

abbrev documentation_text : Bytes
documentation_text = functions_text default_memory.fmap ++ (10 ∷ 0 ∷ [])

main-list-started_example :
    CommandLine.main granted
      (λ n. network_of (default_calls true (some documentation_text)) default_memory)
      (client_name ∷ list_flag ∷ [])
    ≡ done (succeeds (Shown.text (functions_text default_memory.fmap ++ (10 ∷ []))))
main-list-started_example =
    main-list-started _ sockets
      (network_of (default_calls true (some documentation_text)) default_memory) working
      documentation_text granted
      (λ n. network_of (default_calls true (some documentation_text)) default_memory) client_name
      list_flag [] (started_lem sockets) refl
      (network_of-IsOpen (default_calls true (some documentation_text)) default_memory)
      granted-IsGranting granted-IsGranting refl (unfold flag str_eq c_string in refl)
