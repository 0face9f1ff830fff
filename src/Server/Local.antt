-- ===== src/Server/Local.antt =====
-- What the child process does with a request, in terms of the call itself, however the call ends.
use remote_procedure_control.Prelude.{
  ℕ, zero, suc, ◌≡◌, ◌≤◌, refl, arith, List, Option, none, some, leb, true, length,
}
use remote_procedure_control.Prelude.Int.{ℤ, pos_part}
use remote_procedure_control.Machine.{Exec, done, undefined, diverges, ◌>>=◌, Bytes}
use remote_procedure_control.Machine.Cells.{written}
use remote_procedure_control.RpcData.{Pointee}
use remote_procedure_control.RpcData.Protocol.{
  Argument, void, number, text, Request, IsRequest, to_message,
}
use remote_procedure_control.RpcData.Answer.Layout.{IsValue, answer_frame}
use remote_procedure_control.Mapper.{FunctionMapper, Memory, get_function}
use remote_procedure_control.Server.{
  Platform, Calls, Ending, answered, has_case, call_arguments, follow, returns, finish,
  execute_typed, execute_function, verification_function, answer_client, execute_client,
  send_answer,
}
use remote_procedure_control.Server.Verification.{Fits, verification_iff}
use remote_procedure_control.Server.Errors.{IsWorking, read_msg_lem, search_found, handled}
use remote_procedure_control.Server.Answers.{datas, Gives, call_arguments_lem, execute_client_value}

-- The call through the function pointer, and its value. A null string is no value.
unfoldable pub local_call : {F : Type 0} → Calls F → F → ℕ → List Pointee → Exec Argument
local_call calls g zero args = calls.call_void g args >>= λ _. done void
local_call calls g (suc zero) args = calls.call_int g args >>= λ i. done (number i)
local_call calls g (suc (suc typ)) args =
    calls.call_str g args >>= elim [ none ↦ undefined | some s ↦ done (text s) ]

-- What the call returns, if it returns, can be carried by an answer.
abbrev pub IsCarried : Exec Argument → Type 0
IsCarried (done value) = IsValue value
IsCarried undefined = Unit {0}
IsCarried diverges = Unit {0}

module _ {F : Type 0} (p : Platform) (calls : Calls F) (memory : Memory F) (r : Request)
    (f : FunctionMapper F) (w : IsWorking p) (q : IsRequest r)
    (found : get_function (some memory) r.command ≡ some f)
    (stored : length f.fun.argv ≡ pos_part f.fun.argc) (fits : Fits f.fun r)
    (few : length r.arguments ≤ 255) where
  -- Up to the call, nothing goes wrong.
  handled_lem : handled p calls memory r ≡ (
      execute_typed p calls f.fun (to_message r)
      >>= follow (λ block. send_answer p block >>= λ e. returns e)
      >>= finish)
  unfolding execute_client answer_client verification_function execute_function has_case
  handled_lem =
      let typed : leb (to_message r).return_type 2 ≡ true =
        unfold to_message in ground (arith, q.return_exists) in
      let case : has_case (to_message r).argc ≡ true = unfold to_message in ground arith in
      rw
        (
          read_msg_lem p r w q,
          search_found p memory r f found,
          (verification_iff f.fun r stored).1 fits,
          typed,
          case,
        )
        refl

  -- The outcome in terms of the value of the call.
  abbrev answers : Exec Argument → Exec Ending
  answers m = m >>= λ value. done (answered (written (answer_frame value)))

  valued :
      (value : Argument)
      → IsValue value
      → Gives calls f.fun.fun_ptr r.return_type (datas r.arguments) value
      → handled p calls memory r ≡ done (answered (written (answer_frame value)))
  valued value v g = execute_client_value p calls memory r f value w q found stored fits few v g

  by_type :
      (typ : ℕ)
      → r.return_type ≡ typ
      → typ ≤ 2
      → IsCarried (local_call calls f.fun.fun_ptr typ (datas r.arguments))
      → handled p calls memory r ≡ answers (local_call calls f.fun.fun_ptr typ (datas r.arguments))
  unfolding local_call execute_typed to_message call_arguments
  by_type zero t h = ends (calls.call_void f.fun.fun_ptr (datas r.arguments)) refl
    where
      ends :
          (m : Exec (Unit {0}))
          → calls.call_void f.fun.fun_ptr (datas r.arguments) ≡ m
          → IsCarried (m >>= λ _. done void)
          → handled p calls memory r ≡ answers (m >>= λ _. done void)
      ends (done u) e c = valued void tt (t, e)
      ends undefined e c = rw (handled_lem, t, call_arguments_lem r, e) refl
      ends Exec.diverges e c = rw (handled_lem, t, call_arguments_lem r, e) refl
  by_type (suc zero) t h = ends (calls.call_int f.fun.fun_ptr (datas r.arguments)) refl
    where
      ends :
          (m : Exec ℤ)
          → calls.call_int f.fun.fun_ptr (datas r.arguments) ≡ m
          → IsCarried (m >>= λ i. done (number i))
          → handled p calls memory r ≡ answers (m >>= λ i. done (number i))
      ends (done i) e c = valued (number i) c (t, e)
      ends undefined e c = rw (handled_lem, t, call_arguments_lem r, e) refl
      ends Exec.diverges e c = rw (handled_lem, t, call_arguments_lem r, e) refl
  by_type (suc (suc zero)) t h = ends (calls.call_str f.fun.fun_ptr (datas r.arguments)) refl
    where
      ends :
          (m : Exec (Option Bytes))
          → calls.call_str f.fun.fun_ptr (datas r.arguments) ≡ m
          → IsCarried (m >>= elim [ none ↦ undefined | some s ↦ done (text s) ])
          → handled p calls memory r
            ≡ answers (m >>= elim [ none ↦ undefined | some s ↦ done (text s) ])
      ends (done (some s)) e c = valued (text s) c (t, e)
      ends (done none) e c = rw (handled_lem, t, call_arguments_lem r, e) refl
      ends undefined e c = rw (handled_lem, t, call_arguments_lem r, e) refl
      ends Exec.diverges e c = rw (handled_lem, t, call_arguments_lem r, e) refl
  by_type (suc (suc (suc typ))) t h = absurd (omega arith)

  -- The child process answers with the value of the call, and ends as the call does if it does not
  -- return.
  pub execute_client_local :
      IsCarried (local_call calls f.fun.fun_ptr r.return_type (datas r.arguments))
      → handled p calls memory r ≡ (
          local_call calls f.fun.fun_ptr r.return_type (datas r.arguments) >>= λ value.
          done (answered (written (answer_frame value))))
  execute_client_local = by_type r.return_type refl q.return_exists
