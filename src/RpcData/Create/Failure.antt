-- ===== src/RpcData/Create/Failure.antt =====
-- How `create_message` fails.
use remote_procedure_control.Prelude.{
  ℕ, zero, suc, ◌+◌, ◌*◌, ◌≤◌, ◌≡◌, ◌≢◌, inl, inr, refl, true, false, Bool-cases, Option-cases,
  List, [], ◌∷◌, ◌++◌, arith, Option, none, some,
}
use remote_procedure_control.Prelude.Int.{ℤ, pos_part}
use remote_procedure_control.Machine.{Exec, done, ◌>>=◌, >>=-eq-done, Bytes}
use remote_procedure_control.RpcData.{
  RpcArg, Pointee, null, int, str, wild, Malloc, argv_site, sizeof_rpc_arg, type_exists,
}
use remote_procedure_control.RpcData.Create.{
  copy_pointee, fail_copy, copy_args, copy_argv, fill_message, create_message,
}

fail_first :
    (first : RpcArg) (p : Pointee) (copied : List RpcArg) (r : Option (List RpcArg))
    → first.pointee ≡ p
    → fail_copy (first ∷ copied) ≢ done r
unfolding fail_copy
fail_first first null copied r e h = ground arith
fail_first first (int i) copied r e h = ground arith
fail_first first (str s) copied r e h = ground arith
fail_first first wild copied r e h = ground arith

fail_copy-ne-done : (copied : List RpcArg) (r : Option (List RpcArg)) → fail_copy copied ≢ done r
fail_copy-ne-done [] r h = unfold fail_copy in cc
fail_copy-ne-done (first ∷ copied) r h = fail_first first first.pointee copied r refl h

-- The copying loop never gives up: it copies everything, or does not return.
copy_args-ne-none :
    (malloc : Malloc) (rounds cpt : ℕ) (argv copied : List RpcArg)
    → copy_args malloc rounds cpt argv copied ≢ done none
unfolding copy_args
copy_args-ne-none malloc zero cpt argv copied h = cc
copy_args-ne-none malloc (suc rounds) cpt [] copied h = cc
copy_args-ne-none malloc (suc rounds) cpt (arg ∷ argv) copied h =
    let (result, e, f) = >>=-eq-done (copy_pointee malloc cpt arg) _ h in
    elim (Option-cases result) [
      | inl is_none ↦ fail_copy-ne-done copied none (rw is_none at f)
      | inr (p, is_some) ↦
          copy_args-ne-none malloc rounds (cpt + 1) argv
            (copied ++ (record { typ = arg.typ; pointee = p } ∷ [])) (rw is_some at f)
    ]

-- `create_message` goes to `fail` before it has an array.
abbrev not_copied : Exec (Option (Option (List RpcArg)))
not_copied = done none

copy_argv-eq-none :
    (malloc : Malloc) (n : ℕ) (argv : Option (List RpcArg))
    → copy_argv malloc n argv ≡ done none
    → (1 ≤ n) × (malloc argv_site (sizeof_rpc_arg * n) ≡ false)
unfolding copy_argv
copy_argv-eq-none malloc zero argv h = absurd (ground arith)
copy_argv-eq-none malloc (suc n) none h = absurd (ground arith)
copy_argv-eq-none malloc (suc n) (some args) h =
    elim (Bool-cases (malloc argv_site (sizeof_rpc_arg * suc n))) [
      | inl t ↦ absurd (copied-ne-none (rw t at h))
      | inr t ↦ (omega arith, t)
    ]
  where
    copied-ne-none :
        (copy_args malloc (suc n) 0 args []
          >>= elim [ none ↦ done none | some copied ↦ done (some (some copied)) ])
        ≢ not_copied
    copied-ne-none e =
        let (result, e', f) = >>=-eq-done (copy_args malloc (suc n) 0 args []) _ e in
        elim (Option-cases result) [
          | inl is_none ↦ copy_args-ne-none malloc (suc n) 0 args [] (rw is_none at e')
          | inr (l, is_some) ↦ absurd (ground arith)
        ]

fill_message-eq-none :
    (malloc : Malloc) (command : Bytes) (return_type : ℕ) (argc : ℤ) (argv : Option (List RpcArg))
    → fill_message malloc command return_type argc argv ≡ done none
    → (1 ≤ pos_part argc) × (malloc argv_site (sizeof_rpc_arg * pos_part argc) ≡ false)
unfolding fill_message
fill_message-eq-none malloc command return_type argc argv h =
    ground (arith, copy_argv-eq-none malloc (pos_part argc) argv)

-- For a command and an existing type, `create_message` returns -1 only if there is at least one
-- argument and the array of arguments gets no memory. (Every other failure behind the first tests
-- does not return, or is undefined behaviour.)
pub create_message-eq-none :
    (malloc : Malloc) (command : Bytes) (return_type : ℕ) (argc : ℤ) (argv : Option (List RpcArg))
    → return_type ≤ 2
    → create_message malloc true (some command) return_type argc argv ≡ done none
    → (1 ≤ pos_part argc) × (malloc argv_site (sizeof_rpc_arg * pos_part argc) ≡ false)
unfolding create_message type_exists
create_message-eq-none malloc command return_type argc argv ht h =
    fill_message-eq-none malloc command return_type argc argv (ground arith)
