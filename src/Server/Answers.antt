-- ===== src/Server/Answers.antt =====
-- The child process on a request that fits: the function's value goes to the client.
use remote_procedure_control.Prelude.{
  ℕ, ◌^◌, leb, ◌≡◌, ◌≤◌, ◌<◌, refl, true, List, [], ◌∷◌, map, arith, none, some, length,
}
use remote_procedure_control.Prelude.Int.{pos_part}
use remote_procedure_control.Machine.{done}
use remote_procedure_control.Machine.Cells.{written}
use remote_procedure_control.RpcData.{Pointee, buffer_site, value_site, sizeof_int, rpc_ret_ok}
use remote_procedure_control.RpcData.Protocol.{
  Argument, void, number, text, Request, IsRequest, to_arg, to_argv, to_message,
}
use remote_procedure_control.RpcData.Answer.{serialize_answer}
use remote_procedure_control.RpcData.Answer.Layout.{
  IsValue, answer_frame, length-answer_frame, serialize_answer_frame,
}
use remote_procedure_control.RpcData.Integer.Decimal.{length-integer_bytes-le}
use remote_procedure_control.Mapper.{Function, FunctionMapper, Memory, get_function}
use remote_procedure_control.Server.{
  Platform, Calls, answered, returns, deliver, send_answer, pointees, call_arguments, has_case,
  execute_typed, execute_function, verification_function, answer_client, execute_client, finish,
}
use remote_procedure_control.Server.Verification.{Fits, verification_iff}
use remote_procedure_control.Server.Errors.{IsWorking, read_msg_lem, search_found, handled}

-- The data of the arguments, as the function is called with.
abbrev pub datas : List Argument → List Pointee
datas [] = []
datas (a ∷ as') = (to_arg a).pointee ∷ datas as'

pointees_lem : (as' : List Argument) → pointees (length as') (map to_arg as') ≡ done (datas as')
unfolding pointees
pointees_lem [] = refl
pointees_lem (a ∷ as') = rw (pointees_lem as')

pub call_arguments_lem : (r : Request) → call_arguments (to_message r) ≡ done (datas r.arguments)
unfolding call_arguments to_message
call_arguments_lem r = argv_lem r.arguments
  where
    argv_lem :
        (as' : List Argument)
        → pointees (length as') (elim (to_argv as') [ none ↦ [] | some args ↦ args ])
          ≡ done (datas as')
    argv_lem [] = pointees_lem []
    argv_lem (a ∷ as') = pointees_lem (a ∷ as')

-- A call of the function's type returns this value.
abbrev pub Gives : {F : Type 0} → Calls F → F → ℕ → List Pointee → Argument → Type 0
Gives calls g t args void = (t ≡ 0) × (calls.call_void g args ≡ done tt)
Gives calls g t args (number i) = (t ≡ 1) × (calls.call_int g args ≡ done i)
Gives calls g t args (text s) = (t ≡ 2) × (calls.call_str g args ≡ done (some s))

pub Gives-typ :
    {F : Type 0} (calls : Calls F) (g : F) (typ : ℕ) (args : List Pointee) (a : Argument)
    → Gives calls g typ args a
    → typ ≡ (to_arg a).typ
Gives-typ calls g typ args void (t, e) = t
Gives-typ calls g typ args (number i) (t, e) = t
Gives-typ calls g typ args (text s) (t, e) = t

IsValue-small : (a : Argument) → IsValue a → length (answer_frame a) < 2 ^ 40
IsValue-small void v = omega (arith, length-answer_frame void)
IsValue-small (number i) v =
    omega (arith, length-answer_frame (number i), length-integer_bytes-le i)
IsValue-small (text s) v = omega (arith, length-answer_frame (text s))

module _ {F : Type 0} (p : Platform) (calls : Calls F) (r : Request) (f : Function F)
    (w : IsWorking p) where
  answer_lem :
      (a : Argument)
      → IsValue a
      → serialize_answer p.answering rpc_ret_ok (some (to_arg a))
        ≡ done (some (length (answer_frame a), written (answer_frame a)))
  answer_lem a v =
      serialize_answer_frame p.answering a v
        (w.answering_grants buffer_site (length (answer_frame a)) (IsValue-small a v))

  execute_typed_lem :
      (value : Argument)
      → IsValue value
      → Gives calls f.fun_ptr r.return_type (datas r.arguments) value
      → execute_typed p calls f (to_message r)
        ≡ returns (some (length (answer_frame value), written (answer_frame value)))
  unfolding execute_typed to_message
  execute_typed_lem void v (t, g) = rw (call_arguments_lem r, t, g, answer_lem void v)
  execute_typed_lem (number i) v (t, g) = rw (
    call_arguments_lem r,
    t,
    g,
    w.answering_grants value_site sizeof_int (omega arith),
    answer_lem (number i) v,
  )
  execute_typed_lem (text s) v (t, g) = rw (call_arguments_lem r, t, g, answer_lem (text s) v)

  execute_function_lem :
      (value : Argument)
      → IsRequest r
      → length r.arguments ≤ 255
      → IsValue value
      → Gives calls f.fun_ptr r.return_type (datas r.arguments) value
      → execute_function p calls f (to_message r)
        ≡ returns (some (length (answer_frame value), written (answer_frame value)))
  unfolding execute_function has_case
  execute_function_lem value q few v g =
      let typed : leb (to_message r).return_type 2 ≡ true =
        unfold to_message in ground (arith, q.return_exists) in
      let case : has_case (to_message r).argc ≡ true = unfold to_message in ground arith in
      rw (typed, case) (execute_typed_lem value v g)

-- On a working platform, when the two parts of a valid request arrive, its name has a function that
-- stores one type per argument declared and whose signature the request fits, the request has at
-- most 255 arguments, and the call with its data returns a value of the return type that an answer
-- can carry, the child process sends the frame of that value.
pub execute_client_value :
    {F : Type 0} (p : Platform) (calls : Calls F) (memory : Memory F) (r : Request)
    (f : FunctionMapper F) (value : Argument)
    → IsWorking p
    → IsRequest r
    → get_function (some memory) r.command ≡ some f
    → length f.fun.argv ≡ pos_part f.fun.argc
    → Fits f.fun r
    → length r.arguments ≤ 255
    → IsValue value
    → Gives calls f.fun.fun_ptr r.return_type (datas r.arguments) value
    → handled p calls memory r ≡ done (answered (written (answer_frame value)))
unfolding execute_client answer_client verification_function send_answer deliver finish
execute_client_value p calls memory r f value w q found stored fits few v g = rw (
  read_msg_lem p r w q,
  search_found p memory r f found,
  (verification_iff f.fun r stored).1 fits,
  execute_function_lem p calls r f.fun w value q few v g,
  w.sending,
)
