-- ===== src/Client/CommandLine.antt =====
-- The options of src/c_client.c and what they do: the calls of the built-in functions, and `main`.
pub mod Failures
pub mod Listing
pub mod Stopping
use remote_procedure_control.Prelude.{
  ℕ, zero, suc, ◌+◌, ◌-◌, ◌*◌, Bool, true, false, not, ◌&&◌, ◌||◌, List, [], ◌∷◌, ◌++◌, leb, ltb,
  ◌==◌, if◌then◌else◌, Option, none, some, length, drop, get_elem?,
}
use remote_procedure_control.Prelude.Int.{ℤ, pos, negsuc, neg_ℤ, eqb_ℤ}
use remote_procedure_control.Machine.{
  Exec, done, undefined, ◌>>=◌, Bytes, c_string, strlen, strcmp_zero, checked, checked_size,
}
use remote_procedure_control.Machine.Cells.{fresh, blit}
use remote_procedure_control.RpcData.{
  rpc_ty_void, rpc_ty_int, rpc_ty_str, Pointee, null, int, str, RpcArg, Message, Malloc, argv_site,
  command_site, arg_site, value_site, sizeof_int, sizeof_rpc_arg,
}
use remote_procedure_control.Client.{Outcome, Network, transmition, external_call}
use remote_procedure_control.Client.Options.{
  minus_int, minus_str, minus_void, minus_ret, minus_l, list_flag, minus_s, shutdown_flag, minus_h,
  help_flag, minus_c, command_flag, documentation_name, shutdown_name, either, is_type_command,
  returned_type, Check, check_words, check_command, accepts, rejects,
}
use remote_procedure_control.Client.Parsing.{
  skip_spaces, leading_digits, signed_digits, atoi, strcpy, Attempt, ◌>>>◌, parse_value,
  parse_words, word, parse_checked, parse_behind, parse_command, gives, exits,
}

-- What is printed on the standard output.
pub data Shown : Type 0 where
  nothing help execution_success : Shown
  number : ℤ → Shown
  text : Bytes → Shown

-- How the client ends: its exit status is a success or a failure.
pub record Finish : Type 0 where
  pub success : Bool
  pub shown : Shown

abbrev pub failure : Finish
failure = record { success = false; shown = nothing }

abbrev pub succeeds : Shown → Finish
succeeds shown = record { success = true; shown = shown }

-- `char doc[2048]`
pub call_documentation : Network → Exec Finish
call_documentation net = do
  outcome ← external_call net documentation_name rpc_ty_str (some 2048) []
  if eqb_ℤ outcome.code (negsuc 0)
      then done failure
      else elim outcome.stored [ some (str doc) ↦ done (succeeds (text doc)) | _ ↦ undefined ]

-- Its outcome is not looked at.
unfoldable pub call_shutdown : Network → Bytes → Exec Outcome
call_shutdown net password =
    external_call net shutdown_name rpc_ty_void none
      (record { typ = rpc_ty_str; pointee = str password } ∷ [])

-- The block for the value: of an `int`, of 256 bytes, or none.
value_room : Malloc → ℕ → Attempt (Option ℕ)
value_room malloc return_type =
    if return_type == rpc_ty_int
    then (if malloc value_site sizeof_int then gives (some sizeof_int) else exits)
    else if return_type == rpc_ty_str
    then (if malloc value_site 256 then gives (some 256) else exits)
    else if return_type == rpc_ty_void
    then gives none
    else exits

-- A value that was not stored is read unset.
show_value : ℕ → Option Pointee → Exec Shown
show_value return_type stored =
    if return_type == rpc_ty_void then done execution_success else elim stored [
      | some (int i) ↦ done (number i)
      | some (str s) ↦ done (text s)
      | _ ↦ undefined
    ]

pub call_command : Malloc → Network → Message → Exec Finish
call_command malloc net msg = elim (value_room malloc msg.return_type) [
  | exits ↦ done failure
  | gives ret ↦ transmition net ret msg >>= λ outcome.
      if eqb_ℤ outcome.code (negsuc 0)
      then done failure
      else (show_value msg.return_type outcome.stored >>= λ shown. done (succeeds shown))
]

pub run_command : Malloc → Network → List Bytes → ℕ → Exec Finish
run_command malloc net argv cpt =
    parse_command malloc argv (cpt + 1)
    >>= elim [ exits ↦ done failure | gives msg ↦ call_command malloc net msg ]

pub data Flag : Type 0 where
  listing shutdown helping command unknown : Flag

-- The chain of tests on a word.
unfoldable pub flag : Bytes → Flag
flag cmd =
    if either cmd minus_l list_flag
    then listing
    else if either cmd minus_s shutdown_flag
    then shutdown
    else if either cmd minus_h help_flag
    then helping
    else if either cmd minus_c command_flag
    then command
    else unknown

-- The branches that end the process. `next` is what a shutdown does.
pub dispatch : Malloc → Network → List Bytes → ℕ → Flag → Exec Finish → Exec Finish
dispatch malloc net argv cpt listing next = call_documentation net
dispatch malloc net argv cpt shutdown next = next
dispatch malloc net argv cpt helping next = done (succeeds help)
dispatch malloc net argv cpt command next = run_command malloc net argv cpt
dispatch malloc net argv cpt unknown next = done (record { success = false; shown = help })

-- The loop `while (cpt < argc)` on the words from `cpt` on; a shutdown takes the next word too.
-- Each call of the server has its own network.
pub main_loop : Malloc → (ℕ → Network) → List Bytes → ℕ → List Bytes → Exec Finish
main_loop malloc net argv cpt [] = done (succeeds nothing)
main_loop malloc net argv cpt (cmd ∷ []) =
    dispatch malloc (net cpt) argv cpt (flag cmd) (done failure)
main_loop malloc net argv cpt (cmd ∷ password ∷ words) =
    let rest = main_loop malloc net argv (cpt + 2) words in
    dispatch malloc (net cpt) argv cpt (flag cmd) (call_shutdown (net cpt) password >>= λ _. rest)

pub main : Malloc → (ℕ → Network) → List Bytes → Exec Finish
main malloc net argv = main_loop malloc net argv 1 (drop 1 argv)
