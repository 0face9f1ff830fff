-- ===== src/Client/Conversation/Remote.antt =====
-- What a remote call is: the call itself, behind a test of the name and of the types.
use remote_procedure_control.Prelude.{
  ℕ, zero, suc, List, ◌++◌, ◌≡◌, ◌≤◌, refl, ap, sym, ◌∙◌, arith, [], Option, none, some, length,
}
use remote_procedure_control.Prelude.Int.{ℤ, pos, pos_part}
use remote_procedure_control.Machine.{Exec, done, undefined, ◌>>=◌, Bytes}
use remote_procedure_control.Machine.Cells.{written}
use remote_procedure_control.Machine.Words.{int_bytes}
use remote_procedure_control.RpcData.{rpc_ret_unknown_func, Pointee}
use remote_procedure_control.RpcData.Protocol.{
  Argument, Request, IsRequest, frame, body, to_arg, to_message,
}
use remote_procedure_control.RpcData.Answer.Layout.{answer_frame}
use remote_procedure_control.Mapper.{FunctionMapper, Memory, get_function}
use remote_procedure_control.Server.{Platform, Calls, answered}
use remote_procedure_control.Server.Errors.{handled}
use remote_procedure_control.Server.Verification.{
  Fits, expected_error, verification_lem, verification_iff,
}
use remote_procedure_control.Server.Answers.{datas, Gives}
use remote_procedure_control.Server.Local.{local_call, IsCarried, execute_client_local}
use remote_procedure_control.Client.{
  Outcome, Network, failed_with, print_error_status, store, transmition,
}
use remote_procedure_control.Client.Conversation.{
  IsOpen, served, sent_lem, contents-written, parts-int_bytes, transmition_stores,
  transmition_unknown, transmition_refused,
}

-- The value of the call, stored where `ret` points.
abbrev finished : Option ℕ → Exec Argument → Exec Outcome
finished ret call = call >>= λ value. store ret (to_arg value) >>= λ stored.
    done (record { code = pos 0; stored = stored; printed = [] })

module _ {F : Type 0} (calls : Calls F) (r : Request) (ret : Option ℕ) where
  -- The call of a function that was found, by the first difference between the request and its
  -- signature.
  checked_call : FunctionMapper F → Option ℕ → Exec Outcome
  checked_call f (some status) = failed_with (pos status)
  checked_call f none =
      finished ret (local_call calls f.fun.fun_ptr r.return_type (datas r.arguments))

  pub called : Option (FunctionMapper F) → Exec Outcome
  called none = failed_with (pos rpc_ret_unknown_func)
  called (some f) = checked_call f (expected_error f.fun r)

  -- The call without a network: the name is looked up, the types are compared, and the function is
  -- called.
  pub remote_call : Memory F → Exec Outcome
  remote_call memory = called (get_function (some memory) r.command)

local-Gives :
    {F : Type 0} (calls : Calls F) (g : F) (typ : ℕ) (args : List Pointee) (value : Argument)
    → typ ≤ 2
    → local_call calls g typ args ≡ done value
    → Gives calls g typ args value
unfolding local_call
local-Gives calls g zero args value h e = ends (calls.call_void g args) refl e
  where
    ends :
        (m : Exec (Unit {0}))
        → calls.call_void g args ≡ m
        → (m >>= λ _. done Argument.void) ≡ done value
        → Gives calls g zero args value
    ends (done u) k e' = let same : Argument.void ≡ value = cc in rw (sym same) (refl, k)
    ends undefined k e' = cc
    ends Exec.diverges k e' = cc
local-Gives calls g (suc zero) args value h e = ends (calls.call_int g args) refl e
  where
    ends :
        (m : Exec ℤ)
        → calls.call_int g args ≡ m
        → (m >>= λ i. done (Argument.number i)) ≡ done value
        → Gives calls g 1 args value
    ends (done i) k e' = let same : Argument.number i ≡ value = cc in rw (sym same) (refl, k)
    ends undefined k e' = cc
    ends Exec.diverges k e' = cc
local-Gives calls g (suc (suc zero)) args value h e = ends (calls.call_str g args) refl e
  where
    ends :
        (m : Exec (Option Bytes))
        → calls.call_str g args ≡ m
        → (m >>= elim [ none ↦ undefined | some s ↦ done (Argument.text s) ]) ≡ done value
        → Gives calls g 2 args value
    ends (done (some s)) k e' = let same : Argument.text s ≡ value = cc in rw (sym same) (refl, k)
    ends (done none) k e' = cc
    ends undefined k e' = cc
    ends Exec.diverges k e' = cc
local-Gives calls g (suc (suc (suc typ))) args value h e = absurd (omega arith)

module _ {F : Type 0} (net : Network) (p : Platform) (calls : Calls F) (memory : Memory F)
    (r : Request) (o : IsOpen net p calls memory) (q : IsRequest r) where
  -- What is left of a call when the child process does not come to an answer.
  transmition_undefined :
      (ret : Option ℕ)
      → handled p calls memory r ≡ undefined
      → transmition net ret (to_message r) ≡ undefined
  unfolding transmition served frame
  transmition_undefined ret h =
      rw
        (
          sent_lem net p calls memory r o q,
          o.serving,
          contents-written (int_bytes (pos (length (body r))) ++ body r),
          parts-int_bytes (pos (length (body r))) (body r),
          h,
        )
        refl

  transmition_diverges :
      (ret : Option ℕ)
      → handled p calls memory r ≡ Exec.diverges
      → transmition net ret (to_message r) ≡ Exec.diverges
  unfolding transmition served frame
  transmition_diverges ret h =
      rw
        (
          sent_lem net p calls memory r o q,
          o.serving,
          contents-written (int_bytes (pos (length (body r))) ++ body r),
          parts-int_bytes (pos (length (body r))) (body r),
          h,
        )
        refl

  module _ (ret : Option ℕ) (f : FunctionMapper F)
      (found : get_function (some memory) r.command ≡ some f)
      (stored : length f.fun.argv ≡ pos_part f.fun.argc) (fits : Fits f.fun r)
      (few : length r.arguments ≤ 255) where
    in_child :
        (call : Exec Argument)
        → local_call calls f.fun.fun_ptr r.return_type (datas r.arguments) ≡ call
        → IsCarried call
        → handled p calls memory r
          ≡ (call >>= λ value. done (answered (written (answer_frame value))))
    in_child call e c =
        let carried : IsCarried (local_call calls f.fun.fun_ptr r.return_type (datas r.arguments)) =
          rw e c in
        rw e at (execute_client_local p calls memory r f o.working q found stored fits few carried)

    transmition_local :
        (call : Exec Argument)
        → local_call calls f.fun.fun_ptr r.return_type (datas r.arguments) ≡ call
        → IsCarried call
        → transmition net ret (to_message r) ≡ finished ret call
    transmition_local (done value) e c =
        transmition_stores net p calls memory r o q ret f value found stored fits few c (
          local-Gives calls f.fun.fun_ptr r.return_type (datas r.arguments) value q.return_exists e)
    transmition_local undefined e c = transmition_undefined ret (in_child undefined e c)
    transmition_local Exec.diverges e c = transmition_diverges ret (in_child Exec.diverges e c)

  fits_lem :
      (f : FunctionMapper F)
      → length f.fun.argv ≡ pos_part f.fun.argc
      → expected_error f.fun r ≡ none
      → Fits f.fun r
  fits_lem f stored e =
      (verification_iff f.fun r stored).0 (verification_lem f.fun r stored ∙ ap done e)

  -- A remote call is a local call, whatever comes of it. On a network that works, the transmission
  -- of a valid request with at most 255 arguments comes to what `remote_call` says: the line about
  -- an unknown function if no function has its name; the outcome of the first difference between
  -- the request and the declared signature; or else what the call of the function with the
  -- request's data comes to: its value, stored where `ret` points, undefined behaviour, or no end.
  -- The function found has to store one type per argument declared, and to return, if it returns, a
  -- value that an answer can carry.
  pub transmition_remote :
      (ret : Option ℕ)
      → length r.arguments ≤ 255
      → ((f : FunctionMapper F)
          → get_function (some memory) r.command ≡ some f
          → length f.fun.argv ≡ pos_part f.fun.argc)
      → ((f : FunctionMapper F)
          → get_function (some memory) r.command ≡ some f
          → IsCarried (local_call calls f.fun.fun_ptr r.return_type (datas r.arguments)))
      → transmition net ret (to_message r) ≡ remote_call calls r ret memory
  unfolding remote_call called checked_call print_error_status
  transmition_remote ret few stored carried = named (get_function (some memory) r.command) refl
    where
      typed :
          (f : FunctionMapper F)
          → get_function (some memory) r.command ≡ some f
          → (error : Option ℕ) → expected_error f.fun r ≡ error
          → transmition net ret (to_message r) ≡ checked_call calls r ret f error
      typed f found (some status) e =
          transmition_refused net p calls memory r o q ret f status found (stored f found) e
      typed f found none e =
          transmition_local ret f found (stored f found) (fits_lem f (stored f found) e) few
            (local_call calls f.fun.fun_ptr r.return_type (datas r.arguments)) refl
            (carried f found)

      named :
          (found : Option (FunctionMapper F))
          → get_function (some memory) r.command ≡ found
          → transmition net ret (to_message r) ≡ called calls r ret found
      named none e = transmition_unknown net p calls memory r o q ret e
      named (some f) e = (typed f e (expected_error f.fun r) refl)
