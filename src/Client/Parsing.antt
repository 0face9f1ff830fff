-- ===== src/Client/Parsing.antt =====
-- `parse_command` of src/c_client.c, with the functions of the C library that it calls. The null
-- pointer behind the words of `argv` is not read without undefined behaviour.
pub mod Overruns
use remote_procedure_control.Prelude.{
  ℕ, zero, suc, ◌+◌, ◌-◌, ◌*◌, Bool, true, false, not, ◌&&◌, ◌||◌, List, [], ◌∷◌, ◌++◌, leb, ltb,
  ◌==◌, if◌then◌else◌, Option, none, some, length, drop, get_elem?,
}
use remote_procedure_control.Prelude.Int.{ℤ, pos, negsuc, neg_ℤ, eqb_ℤ}
use remote_procedure_control.Machine.{
  Exec, done, undefined, ◌>>=◌, Bytes, c_string, strlen, strcmp_zero, checked, checked_size,
}
use remote_procedure_control.Machine.Cells.{fresh, blit}
use remote_procedure_control.RpcData.{
  rpc_ty_void, rpc_ty_int, rpc_ty_str, Pointee, null, int, str, wild, RpcArg, Message, Malloc,
  argv_site, command_site, arg_site, value_site, sizeof_int, sizeof_rpc_arg,
}
use remote_procedure_control.Client.{Outcome, Network, transmition, external_call}
use remote_procedure_control.Client.Options.{
  minus_int, minus_str, minus_void, minus_ret, minus_l, list_flag, minus_s, shutdown_flag, minus_h,
  help_flag, minus_c, command_flag, documentation_name, shutdown_name, either, is_type_command,
  returned_type, Check, check_words, check_command, accepts, rejects,
}

-- `isspace` and `isdigit` in the C locale.
abbrev is_space : ℕ → Bool
is_space c = c == 32 || (leb 9 c && leb c 13)

abbrev is_digit : ℕ → Bool
is_digit c = leb b'0' c && leb c b'9'

pub skip_spaces : Bytes → Bytes
skip_spaces [] = []
skip_spaces (c ∷ s) = let rest = skip_spaces s in if is_space c then rest else c ∷ s

pub leading_digits : Bytes → ℕ → ℕ
leading_digits [] n = n
leading_digits (c ∷ s) n =
    let more = leading_digits s (n * 10 + (c - b'0')) in if is_digit c then more else n

pub signed_digits : Bytes → ℤ
signed_digits [] = pos 0
signed_digits (c ∷ s) =
    if c == b'-'
    then neg_ℤ (pos (leading_digits s 0))
    else if c == b'+'
    then pos (leading_digits s 0)
    else pos (leading_digits (c ∷ s) 0)

-- `atoi` of the C library; a number that is no `int` is undefined.
pub atoi : Bytes → Exec ℤ
atoi s = checked (signed_digits (skip_spaces (c_string s)))

-- `strcpy` into a block of `size` bytes: the string and its zero byte are written.
unfoldable pub strcpy : ℕ → Bytes → Exec Bytes
strcpy size s = blit 0 (c_string s ++ (0 ∷ [])) (fresh size) >>= λ cells. done (c_string s)

-- The function returns, or the process exits with a failure.
pub data Attempt {ℓ} (A : Type ℓ) : Type ℓ where
  gives : A → Attempt A
  exits : Attempt A

infixl 5 ◌>>>◌
abbrev pub ◌>>>◌ : {A B : Type 0} → Exec (Attempt A) → (A → Exec (Attempt B)) → Exec (Attempt B)
m >>> f = m >>= elim [ gives a ↦ f a | exits ↦ done exits ]

-- The data of one argument; the block for a string has no room for the zero byte.
pub parse_value : Malloc → ℕ → ℕ → Bytes → Exec (Attempt RpcArg)
parse_value malloc arg_cpt typ value =
    if typ == rpc_ty_int
    then (atoi value >>= λ i. done (
        if malloc (arg_site arg_cpt) sizeof_int
        then gives (record { typ = typ; pointee = int i })
        else exits))
    else if typ == rpc_ty_str
    then (if malloc (arg_site arg_cpt) (strlen value)
        then (strcpy (strlen value) value >>= λ s.
            done (gives (record { typ = typ; pointee = str s })))
        else done exits)
    else if typ == rpc_ty_void
    then done exits
    else done (gives (record { typ = typ; pointee = wild }))

-- The loop over the words. Without a value there is only a void argument, which is not allowed.
pub parse_words : Malloc → ℕ → List Bytes → Exec (Attempt (List RpcArg))
parse_words malloc arg_cpt [] = done (gives [])
parse_words malloc arg_cpt (typ ∷ []) =
    if returned_type typ == rpc_ty_void then done exits else undefined
parse_words malloc arg_cpt (typ ∷ value ∷ words) =
    parse_value malloc arg_cpt (returned_type typ) value >>> λ arg.
    parse_words malloc (arg_cpt + 1) words >>> λ args. done (gives (arg ∷ args))

-- A word of `argv`; behind the last one stands a null pointer.
unfoldable pub word : List Bytes → ℕ → Exec Bytes
word argv i = elim (get_elem? argv i) [ none ↦ undefined | some w ↦ done w ]

-- From the copy of the command's name on.
pub parse_checked : Malloc → List Bytes → ℕ → ℕ → Exec (Attempt Message)
parse_checked malloc argv current_cpt nb_arg = do
  name ← word argv current_cpt
  command_length ← checked_size (strlen name)
  if malloc command_site command_length
      then (do
        command ← strcpy command_length name
        typ ← word argv (current_cpt + 2)
        third ← word argv 3
        if strcmp_zero third minus_ret
            then (parse_words malloc 0 (drop (current_cpt + 3) argv) >>> λ args. done (
                gives (record {
                  command_length = command_length;
                  command = command;
                  return_type = returned_type typ;
                  argc = pos nb_arg;
                  argv = if nb_arg == 0 then none else some args;
                })))
            else done exits)
      else done exits

-- What `check_command` returns, and the rest of `parse_command`.
pub parse_behind : Malloc → List Bytes → ℕ → Check → Exec (Attempt Message)
parse_behind malloc argv current_cpt (rejects position) = done exits
parse_behind malloc argv current_cpt (accepts nb_arg) =
    if nb_arg == 0 || malloc argv_site (nb_arg * sizeof_rpc_arg)
    then parse_checked malloc argv current_cpt nb_arg
    else done exits

pub parse_command : Malloc → List Bytes → ℕ → Exec (Attempt Message)
parse_command malloc argv current_cpt =
    parse_behind malloc argv current_cpt (check_command argv current_cpt)
