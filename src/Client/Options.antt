-- ===== src/Client/Options.antt =====
-- The words of the command line of src/c_client.c: `is_type_command`, `returned_type` and
-- `check_command`. `argv` is the list of the `argc` words.
pub mod Checks
pub mod Documented
use remote_procedure_control.Prelude.{
  ℕ, zero, suc, ◌+◌, ◌-◌, ◌*◌, Bool, true, false, not, ◌&&◌, ◌||◌, List, [], ◌∷◌, ◌++◌, leb, ltb,
  ◌==◌, if◌then◌else◌, Option, none, some, length, drop, get_elem?,
}
use remote_procedure_control.Prelude.Int.{ℤ, pos, negsuc, neg_ℤ, eqb_ℤ}
use remote_procedure_control.Machine.{
  Exec, done, undefined, ◌>>=◌, Bytes, c_string, strlen, strcmp_zero, checked, checked_size,
}
use remote_procedure_control.Machine.Cells.{fresh, blit}
use remote_procedure_control.RpcData.{
  rpc_ty_void, rpc_ty_int, rpc_ty_str, Pointee, null, int, str, RpcArg, Message, Malloc, argv_site,
  command_site, arg_site, value_site, sizeof_int, sizeof_rpc_arg,
}
use remote_procedure_control.Client.{Outcome, Network, transmition, external_call}

abbrev pub minus_int : Bytes
minus_int = b'-' ∷ b'i' ∷ b'n' ∷ b't' ∷ []

abbrev pub minus_str : Bytes
minus_str = b'-' ∷ b's' ∷ b't' ∷ b'r' ∷ []

abbrev pub minus_void : Bytes
minus_void = b'-' ∷ b'v' ∷ b'o' ∷ b'i' ∷ b'd' ∷ []

abbrev pub minus_ret : Bytes
minus_ret = b'-' ∷ b'r' ∷ b'e' ∷ b't' ∷ []

abbrev pub minus_l : Bytes
minus_l = b'-' ∷ b'l' ∷ []

abbrev pub list_flag : Bytes
list_flag = b'-' ∷ b'-' ∷ b'l' ∷ b'i' ∷ b's' ∷ b't' ∷ []

abbrev pub minus_s : Bytes
minus_s = b'-' ∷ b's' ∷ []

abbrev pub shutdown_flag : Bytes
shutdown_flag = b'-' ∷ b'-' ∷ b's' ∷ b'h' ∷ b'u' ∷ b't' ∷ b'd' ∷ b'o' ∷ b'w' ∷ b'n' ∷ []

abbrev pub minus_h : Bytes
minus_h = b'-' ∷ b'h' ∷ []

abbrev pub help_flag : Bytes
help_flag = b'-' ∷ b'-' ∷ b'h' ∷ b'e' ∷ b'l' ∷ b'p' ∷ []

abbrev pub minus_c : Bytes
minus_c = b'-' ∷ b'c' ∷ []

abbrev pub command_flag : Bytes
command_flag = b'-' ∷ b'-' ∷ b'c' ∷ b'o' ∷ b'm' ∷ b'm' ∷ b'a' ∷ b'n' ∷ b'd' ∷ []

abbrev pub documentation_name : Bytes
documentation_name =
    b'd' ∷ b'o' ∷ b'c' ∷ b'u' ∷ b'm' ∷ b'e' ∷ b'n' ∷ b't' ∷ b'a' ∷ b't' ∷ b'i' ∷ b'o' ∷ b'n' ∷ []

abbrev pub shutdown_name : Bytes
shutdown_name = b's' ∷ b'h' ∷ b'u' ∷ b't' ∷ b'd' ∷ b'o' ∷ b'w' ∷ b'n' ∷ []

-- `STR_EQ` with one of two spellings.
abbrev pub either : Bytes → Bytes → Bytes → Bool
either cmd short long = strcmp_zero cmd short || strcmp_zero cmd long

unfoldable pub is_type_command : Bytes → Bool
is_type_command cmd =
    strcmp_zero cmd minus_int || (strcmp_zero cmd minus_str || strcmp_zero cmd minus_void)

pub returned_type : Bytes → ℕ
returned_type cmd =
    if strcmp_zero cmd minus_int
    then rpc_ty_int
    else if strcmp_zero cmd minus_str
    then rpc_ty_str
    else rpc_ty_void

-- `check_command` returns the number of arguments, or the process exits with an error at a position.
pub data Check : Type 0 where
  accepts : ℕ → Check
  rejects : ℕ → Check

-- The loop over the words from `cpt` on, two at a time.
pub check_words : ℕ → List Bytes → ℕ → Check
check_words cpt [] nb_arg = accepts nb_arg
check_words cpt (typ ∷ []) nb_arg =
    if not (is_type_command typ)
    then rejects cpt
    else if not (returned_type typ == rpc_ty_void)
    then rejects (cpt + 1)
    else accepts (nb_arg + 1)
check_words cpt (typ ∷ value ∷ words) nb_arg =
    let rest = check_words (cpt + 2) words (nb_arg + 1) in
    if not (is_type_command typ) then rejects cpt else rest

pub check_command : List Bytes → ℕ → Check
check_command argv current_cpt =
    if leb (length argv) (current_cpt + 2)
    then rejects (length argv)
    else check_words (current_cpt + 3) (drop (current_cpt + 3) argv) 0
