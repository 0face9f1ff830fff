-- ===== src/RpcData/Create.antt =====
-- `create_message` and `free_message` of src/u_rpc_data.c.
pub mod Copies
pub mod Failure
use remote_procedure_control.Prelude.{
  ℕ, zero, suc, ◌+◌, ◌*◌, ◌≡◌, refl, Bool, true, false, ◌&&◌, not, List, [], ◌∷◌, ◌++◌, arith, ◌==◌,
  if◌then◌else◌, Option, none, some,
}
use remote_procedure_control.Prelude.Int.{ℤ, pos_part}
use remote_procedure_control.Machine.{
  Exec, done, undefined, diverges, ◌>>=◌, Bytes, c_string, strlen, checked_size,
}
use remote_procedure_control.RpcData.{
  rpc_ty_void, rpc_ty_int, rpc_ty_str, Pointee, null, int, str, wild, RpcArg, Message, Malloc, Site,
  command_site, argv_site, arg_site, sizeof_int, sizeof_rpc_arg, deref_int, deref_str, type_exists,
}

-- The copy of one argument's data. `none` is a failed `malloc`; with a type that does not exist the
-- pointer of the copy is left as it was.
pub copy_pointee : Malloc → ℕ → RpcArg → Exec (Option Pointee)
copy_pointee malloc cpt arg =
    if arg.typ == rpc_ty_void
    then done (some null)
    else if arg.typ == rpc_ty_int
    then (if malloc (arg_site cpt) sizeof_int
        then deref_int arg.pointee >>= (λ i. done (some (int i)))
        else done none)
    else if arg.typ == rpc_ty_str
    then (deref_str arg.pointee >>= λ s.
        if malloc (arg_site cpt) (strlen s + 1) then done (some (str (c_string s))) else done none)
    else done (some wild)

-- The loop behind `fail`, when `argv` is there: it does not step its counter, so it looks at the
-- first argument for ever, and frees its data again and again if there is any.
pub fail_copy : List RpcArg → Exec (Option (List RpcArg))
fail_copy [] = diverges
fail_copy (first ∷ copied) = elim first.pointee [ null ↦ diverges | _ ↦ undefined ]

-- The copying loop: rounds left, counter, the caller's array from there, the copies so far.
pub copy_args : Malloc → ℕ → ℕ → List RpcArg → List RpcArg → Exec (Option (List RpcArg))
copy_args malloc zero cpt argv copied = done (some copied)
copy_args malloc (suc rounds) cpt [] copied = undefined
copy_args malloc (suc rounds) cpt (arg ∷ argv) copied = copy_pointee malloc cpt arg >>= elim [
  | none ↦ fail_copy copied
  | some p ↦
      copy_args malloc rounds (cpt + 1) argv
        (copied ++ (record { typ = arg.typ; pointee = p } ∷ []))
]

-- `if (argc > 0) … else msg->argv = NULL`, on the rounds of the loop. Without an array the code goes
-- to `fail` and reads `msg->argv`, which no caller has set.
unfoldable pub copy_argv : Malloc → ℕ → Option (List RpcArg) → Exec (Option (Option (List RpcArg)))
copy_argv malloc zero argv = done (some none)
copy_argv malloc (suc n) none = undefined
copy_argv malloc (suc n) (some args) =
    if malloc argv_site (sizeof_rpc_arg * suc n)
    then copy_args malloc (suc n) 0 args []
      >>= elim [ none ↦ done none | some copied ↦ done (some (some copied)) ]
    else done none

unfoldable pub fill_message : Malloc → Bytes → ℕ → ℤ → Option (List RpcArg) → Exec (Option Message)
fill_message malloc command return_type argc argv = do
  length ← checked_size (strlen command)
  room ← checked_size (length + 1)
  copies ← if malloc command_site room then copy_argv malloc (pos_part argc) argv else undefined
  elim copies [
    | none ↦ done none
    | some copied ↦ done (
        some (record {
          command_length = length;
          command = c_string command;
          return_type = return_type;
          argc = argc;
          argv = copied;
        }))
  ]

-- `has_msg` is `msg != NULL`, and `none` for the command is a null pointer. The result `none` is -1.
unfoldable pub create_message :
    Malloc → Bool → Option Bytes → ℕ → ℤ → Option (List RpcArg) → Exec (Option Message)
create_message malloc has_msg none return_type argc argv = done none
create_message malloc has_msg (some command) return_type argc argv =
    if has_msg && type_exists return_type
    then fill_message malloc command return_type argc argv
    else done none

-- The blocks that the loop of `free_message` frees.
pub free_args : ℕ → ℕ → List RpcArg → Exec (List Site)
free_args zero cpt argv = done []
free_args (suc rounds) cpt [] = undefined
free_args (suc rounds) cpt (arg ∷ argv) = elim arg.pointee [
  | null ↦ free_args rounds (cpt + 1) argv
  | wild ↦ undefined
  | _ ↦ free_args rounds (cpt + 1) argv >>= λ freed. done (arg_site cpt ∷ freed)
]

-- The array, and the data of its arguments. `free(NULL)` frees nothing.
pub free_argv : ℕ → Option (List RpcArg) → Exec (List Site)
free_argv zero none = done []
free_argv (suc n) none = undefined
free_argv n (some argv) = do freed ← free_args n 0 argv; done (freed ++ (argv_site ∷ []))

-- The blocks that are freed, in order.
pub free_message : Message → Exec (List Site)
free_message msg = do freed ← free_argv (pos_part msg.argc) msg.argv; done (command_site ∷ freed)
