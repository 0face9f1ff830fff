-- ===== src/CallClient/Request.antt =====
-- What comes of the example's request.
use remote_procedure_control.Prelude.{
  ℕ, ◌≡◌, ap, refl, arith, List, [], ◌∷◌, ◌++◌, true, some, map, All, ◌≢◌,
}
use remote_procedure_control.Machine.{undefined, Bytes, str_eq, c_string}
use remote_procedure_control.RpcData.{Malloc}
use remote_procedure_control.RpcData.Deserialize.Accepts.{IsGranting}
use remote_procedure_control.Client.{Network}
use remote_procedure_control.Client.Options.{accepts, check_command, minus_c, minus_ret, minus_str}
use remote_procedure_control.Client.Options.Checks.{
  no_option, option, str_option, check_command_iff,
}
use remote_procedure_control.Client.CommandLine
use remote_procedure_control.Client.CommandLine.{Flag, flag}
use remote_procedure_control.Client.CommandLine.Failures.{main-command}
use remote_procedure_control.CallClient.{client_path, concat_name, request, read_loop, main}

-- Whatever the two words are, they are two arguments.
accepted : (first second : Bytes) → check_command (request first second) 2 ≡ accepts 2
accepted first second =
    (check_command_iff (request first second) 2 2).1 (
      omega arith,
      option minus_str first str_option (option minus_str second str_option no_option),
    )

-- The client that the example runs accepts its words, whatever the two arguments are, and then runs
-- over the block of the command's name: where memory is granted, its behaviour is undefined, on
-- every network.
pub request-overruns :
    (malloc : Malloc) (networks : ℕ → Network) (first second : Bytes)
    → IsGranting malloc
    → CommandLine.main malloc networks (request first second) ≡ undefined
request-overruns malloc networks first second granting = rw (accepted first second) at (
    main-command malloc networks client_path minus_c
      (concat_name ∷ minus_ret ∷ minus_str ∷ minus_str ∷ first ∷ minus_str ∷ second ∷ []) granting
      (omega arith) (unfold flag str_eq c_string in refl))

abbrev pub concat : List Bytes → Bytes
concat [] = []
concat (chunk ∷ chunks) = chunk ++ concat chunks

read_loop_lem :
    (chunks : List Bytes)
    → All (λ chunk. chunk ≢ []) chunks
    → read_loop (map some chunks) ≡ (concat chunks, true)
unfolding read_loop
read_loop_lem [] h = refl
read_loop_lem ([] ∷ chunks) (h, hs) = absurd (h refl)
read_loop_lem ((b ∷ bs) ∷ chunks) (h, hs) = rw (read_loop_lem chunks hs) refl

-- The example passes on what it reads.
pub main-reads :
    (prog first second : Bytes) (chunks : List Bytes)
    → All (λ chunk. chunk ≢ []) chunks
    → (main
        (record { pipes = true; forks = true; reads = map some chunks })
        (prog ∷ first ∷ second ∷ [])).passed_on
      ≡ concat chunks
unfolding main
main-reads prog first second chunks h = ap (λ r. r.0) (read_loop_lem chunks h)
