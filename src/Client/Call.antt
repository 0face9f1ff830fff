-- ===== src/Client/Call.antt =====
-- `external_call` of src/c_client.c: it passes its arguments on to the call itself.
use remote_procedure_control.Prelude.{
  ℕ, ◌*◌, ◌≡◌, ◌≤◌, ◌<◌, refl, arith, true, List, [], ◌∷◌, map, Option, some, length, length-map,
  All,
}
use remote_procedure_control.Prelude.Int.{pos}
use remote_procedure_control.Machine.{
  Exec, done, undefined, ◌>>=◌, Bytes, int_max, strlen-IsText, c_string, c_string-IsText,
  checked_size,
}
use remote_procedure_control.RpcData.{Malloc, argv_site, sizeof_rpc_arg}
use remote_procedure_control.RpcData.Protocol.{
  Argument, void, number, text, Request, IsArgument, IsRequest, to_arg, to_argv, to_message,
}
use remote_procedure_control.RpcData.Create.{copy_argv, fill_message, create_message}
use remote_procedure_control.RpcData.Create.Copies.{
  cut, IsSmall, create_message_lem, free_message_lem,
}
use remote_procedure_control.RpcData.Deserialize.Accepts.{IsGranting, length-le-bytes}
use remote_procedure_control.RpcData.Serialize.Frame.{length-body, length-frame}
use remote_procedure_control.Client.{Outcome, Network, passed, transmition, external_call}

-- A variadic argument is a pointer, which is not null: every argument has data.
abbrev pub HasData : Argument → Type 0
HasData void = ⊥
HasData (number i) = Unit {0}
HasData (text s) = Unit {0}

passed_lem : (as' : List Argument) → All HasData as' → passed (map to_arg as') ≡ map to_arg as'
unfolding passed
passed_lem [] h = refl
passed_lem (void ∷ as') h = absurd h.0
passed_lem (number i ∷ as') h = rw (passed_lem as' h.1)
passed_lem (text s ∷ as') h = rw (passed_lem as' h.1)

valid-IsSmall : (as' : List Argument) → All IsArgument as' → All IsSmall as'
valid-IsSmall [] h = tt
valid-IsSmall (void ∷ as') h = (tt, valid-IsSmall as' h.1)
valid-IsSmall (number i ∷ as') h = (tt, valid-IsSmall as' h.1)
valid-IsSmall (text s ∷ as') h =
    (omega (arith, strlen-IsText s h.0.0, h.0.1), valid-IsSmall as' h.1)

cut_lem : (as' : List Argument) → All IsArgument as' → map cut as' ≡ as'
cut_lem [] h = refl
cut_lem (void ∷ as') h = rw (cut_lem as' h.1)
cut_lem (number i ∷ as') h = rw (cut_lem as' h.1)
cut_lem (text s ∷ as') h = rw (cut_lem as' h.1, c_string-IsText s h.0.0)

-- An empty array is as good as none.
create_some :
    (malloc : Malloc) (cmd : Bytes) (typ : ℕ) (as' : List Argument)
    → create_message malloc true (some cmd) typ (pos (length as')) (some (map to_arg as'))
      ≡ create_message malloc true (some cmd) typ (pos (length as')) (to_argv as')
unfolding create_message fill_message copy_argv
create_some malloc cmd typ [] = refl
create_some malloc cmd typ (a ∷ as') = refl

-- Where memory is granted, `external_call` of a valid request whose arguments all have data is the
-- transmission of the request's message: it is created whole, and freeing it afterwards goes wrong
-- nowhere.
pub external_call_lem :
    (net : Network) (r : Request) (ret : Option ℕ)
    → IsGranting net.calling
    → IsGranting net.creating
    → IsRequest r
    → All HasData r.arguments
    → external_call net r.command r.return_type ret (map to_arg r.arguments)
      ≡ transmition net ret (to_message r)
unfolding external_call
external_call_lem net r ret calling creating q data_there =
    let as' = r.arguments in
    let n = length as' in
    let lb = length-body r in
    let lf = length-frame r in
    let few : n ≤ int_max = omega (arith, lb, lf, q.fits, length-le-bytes as') in
    let short : length r.command < int_max = omega (arith, lb, lf, q.fits) in
    let counted : length (map to_arg as') ≡ n = length-map as' to_arg in
    let sized : checked_size n ≡ done n = ground arith in
    let named : c_string r.command ≡ r.command = c_string-IsText r.command q.command_text in
    let created =
      create_message_lem net.creating creating r.command r.return_type as' q.return_exists
        (omega (arith, strlen-IsText r.command q.command_text, short))
        (valid-IsSmall as' q.arguments_valid) few in
    rw
      (
        passed_lem as' data_there,
        counted,
        sized,
        calling argv_site (n * sizeof_rpc_arg) (omega (arith, few)),
        create_some net.creating r.command r.return_type as',
        created,
        named,
        cut_lem as' q.arguments_valid,
        free_message_lem r,
      )
      (drop_done (transmition net ret (to_message r)))
  where
    drop_done : (m : Exec Outcome) → (m >>= λ o. done o) ≡ m
    drop_done (done o) = refl
    drop_done undefined = refl
    drop_done Exec.diverges = refl
