-- ===== src/RpcData/Create/Copies.antt =====
-- What `create_message` copies, and what `free_message` frees of it.
use remote_procedure_control.Prelude.{
  ℕ, suc, ◌+◌, ◌*◌, ◌^◌, leb, ◌≡◌, ◌≤◌, ◌<◌, refl, ap, true, List, [], ◌∷◌, ◌++◌, map, arith, none,
  some, length, length-map, append_assoc, append-nil, All,
}
use remote_procedure_control.Prelude.Int.{pos}
use remote_procedure_control.Machine.{
  done, undefined, ◌>>=◌, Bytes, int_max, c_string, strlen, checked_size,
}
use remote_procedure_control.RpcData.{
  RpcArg, Malloc, Site, command_site, argv_site, arg_site, sizeof_int, sizeof_rpc_arg, deref_int,
  deref_str, type_exists,
}
use remote_procedure_control.RpcData.Create.{
  copy_pointee, copy_args, copy_argv, fill_message, create_message, free_args, free_argv,
  free_message,
}
use remote_procedure_control.RpcData.Deserialize.Accepts.{IsGranting}
use remote_procedure_control.RpcData.Protocol.{
  Argument, void, number, text, Request, to_arg, to_argv, to_message,
}

-- An argument cut at the end of its string.
abbrev pub cut : Argument → Argument
cut void = void
cut (number i) = number i
cut (text s) = text (c_string s)

abbrev pub cut_request : Bytes → ℕ → List Argument → Request
cut_request command return_type as' = record {
  command = c_string command;
  return_type = return_type;
  arguments = map cut as';
}

-- The strings of the arguments, with their final zero, are less than a terabyte.
abbrev pub IsSmall : Argument → Type 0
IsSmall void = Unit {0}
IsSmall (number i) = Unit {0}
IsSmall (text s) = strlen s + 1 < 2 ^ 40

module _ (malloc : Malloc) (granting : IsGranting malloc) where
  copy_args_lem :
      (as' : List Argument) (cpt : ℕ) (copied : List RpcArg)
      → All IsSmall as'
      → copy_args malloc (length as') cpt (map to_arg as') copied
        ≡ done (some (copied ++ map to_arg (map cut as')))
  unfolding copy_args copy_pointee deref_int deref_str
  copy_args_lem [] cpt copied h = rw append-nil
  copy_args_lem (void ∷ as') cpt copied h =
      rw (copy_args_lem as' (cpt + 1) (copied ++ (to_arg void ∷ [])) h.1)
        (ap (λ l. done (some l)) (append_assoc copied (to_arg void ∷ []) _))
  copy_args_lem (number i ∷ as') cpt copied h =
      rw
        (
          granting (arg_site cpt) sizeof_int (omega arith),
          copy_args_lem as' (cpt + 1) (copied ++ (to_arg (number i) ∷ [])) h.1,
        )
        (ap (λ l. done (some l)) (append_assoc copied (to_arg (number i) ∷ []) _))
  copy_args_lem (text s ∷ as') cpt copied h =
      rw
        (
          granting (arg_site cpt) (strlen s + 1) h.0,
          copy_args_lem as' (cpt + 1) (copied ++ (to_arg (text (c_string s)) ∷ [])) h.1,
        )
        (ap (λ l. done (some l)) (append_assoc copied (to_arg (text (c_string s)) ∷ []) _))

  copy_argv_lem :
      (as' : List Argument)
      → All IsSmall as'
      → length as' ≤ int_max
      → copy_argv malloc (length as') (to_argv as') ≡ done (some (to_argv (map cut as')))
  unfolding copy_argv
  copy_argv_lem [] h k = refl
  copy_argv_lem (a ∷ as') h k = rw (
    granting argv_site (sizeof_rpc_arg * suc (length as')) (omega arith),
    copy_args_lem (a ∷ as') 0 [] h,
  )

  -- With a granting allocator, for an existing return type, a command that an `int` can measure,
  -- and at most INT_MAX small arguments, `create_message` makes the message of the request with
  -- every string cut at its zero byte.
  pub create_message_lem :
      (command : Bytes) (return_type : ℕ) (as' : List Argument)
      → return_type ≤ 2
      → strlen command < int_max
      → All IsSmall as'
      → length as' ≤ int_max
      → create_message malloc true (some command) return_type (pos (length as')) (to_argv as')
        ≡ done (some (to_message (cut_request command return_type as')))
  unfolding create_message fill_message type_exists to_message strlen
  create_message_lem command return_type as' ht hc h k =
      let exists : leb return_type 2 ≡ true = ground arith in
      let sized : checked_size (length (c_string command)) ≡ done (length (c_string command)) =
        ground arith in
      let room : checked_size (length (c_string command) + 1)
          ≡ done (length (c_string command) + 1) =
        ground arith in
      rw
        (
          exists,
          sized,
          room,
          granting command_site (length (c_string command) + 1) (omega arith),
          copy_argv_lem as' h k,
        )
        (let same : length (map cut as') ≡ length as' = length-map as' cut in rw same refl)

-- The blocks that the message of a request owns: the command, the data of each argument that has
-- some, and the array if there are arguments.
argument_blocks : ℕ → List Argument → List Site
argument_blocks cpt [] = []
argument_blocks cpt (void ∷ as') = argument_blocks (cpt + 1) as'
argument_blocks cpt (number i ∷ as') = arg_site cpt ∷ argument_blocks (cpt + 1) as'
argument_blocks cpt (text s ∷ as') = arg_site cpt ∷ argument_blocks (cpt + 1) as'

pub blocks : List Argument → List Site
blocks [] = command_site ∷ []
blocks (a ∷ as') = command_site ∷ (argument_blocks 0 (a ∷ as') ++ (argv_site ∷ []))

free_args_lem :
    (as' : List Argument) (cpt : ℕ)
    → free_args (length as') cpt (map to_arg as') ≡ done (argument_blocks cpt as')
unfolding free_args argument_blocks
free_args_lem [] cpt = refl
free_args_lem (void ∷ as') cpt = free_args_lem as' (cpt + 1)
free_args_lem (number i ∷ as') cpt = rw (free_args_lem as' (cpt + 1))
free_args_lem (text s ∷ as') cpt = rw (free_args_lem as' (cpt + 1))

free_argv_lem :
    (as' : List Argument)
    → (free_argv (length as') (to_argv as') >>= λ freed. done (command_site ∷ freed))
      ≡ done (blocks as')
unfolding free_argv blocks
free_argv_lem [] = refl
free_argv_lem (a ∷ as') = rw (free_args_lem (a ∷ as') 0)

pub free_message_lem : (r : Request) → free_message (to_message r) ≡ done (blocks r.arguments)
unfolding free_message to_message
free_message_lem r = free_argv_lem r.arguments

-- With a granting allocator, for an existing return type, a command that an `int` can measure, and
-- at most INT_MAX small arguments, creating the message and freeing it gives back every block that
-- the message owns, once each: the command's, those of the arguments with data, and the array's if
-- there are arguments.
pub free-create :
    (malloc : Malloc) (command : Bytes) (return_type : ℕ) (as' : List Argument)
    → IsGranting malloc
    → return_type ≤ 2
    → strlen command < int_max
    → All IsSmall as'
    → length as' ≤ int_max
    → (create_message malloc true (some command) return_type (pos (length as')) (to_argv as')
        >>= elim [ none ↦ undefined | some msg ↦ free_message msg ])
      ≡ done (blocks (map cut as'))
unfolding free_message to_message
free-create malloc command return_type as' granting ht hc h k =
    rw (create_message_lem malloc granting command return_type as' ht hc h k)
      (free_argv_lem (map cut as'))
