-- ===== src/Client/Conversation.antt =====
-- A client and a server joined by a stream socket: what comes of a call, from end to end.
pub mod Stream
pub mod Timed
pub mod Remote
use remote_procedure_control.Prelude.{
  ℕ, ap, ◌∙◌, ◌≡◌, ◌≢◌, ◌≤◌, ◌<◌, refl, arith, true, [], ◌∷◌, ◌++◌, Option, none, some, length,
}
use remote_procedure_control.Prelude.Int.{ℤ, pos, negsuc, pos_part}
use remote_procedure_control.Machine.{Exec, done, undefined, ◌>>=◌, Bytes}
use remote_procedure_control.Machine.Cells.{Cells, written}
use remote_procedure_control.Machine.Words.{int_bytes}
use remote_procedure_control.RpcData.{buffer_site, rpc_ret_ok, rpc_ret_unknown_func}
use remote_procedure_control.RpcData.Protocol.{
  Argument, Request, IsRequest, body, frame, to_arg, to_message,
}
use remote_procedure_control.RpcData.Serialize.Frame.{serialize_message-frame}
use remote_procedure_control.RpcData.Deserialize.Accepts.{IsGranting}
use remote_procedure_control.RpcData.Answer.Layout.{IsValue, answer_body, error_frame}
use remote_procedure_control.Mapper.{Function, FunctionMapper, Memory, get_function}
use remote_procedure_control.Server.{Platform, Calls, Ending, answered, dropped, execute_client}
use remote_procedure_control.Server.Verification.{Fits, expected_error, verification_lem}
use remote_procedure_control.Server.Errors.{
  IsWorking, handled, execute_client_unknown, execute_client_refused,
}
use remote_procedure_control.Server.Answers.{datas, Gives, Gives-typ, execute_client_value}
use remote_procedure_control.Client.{
  Report, print_error_status, failed_with, store, Network, send_cmd, transmition,
}
use remote_procedure_control.Client.Replies.{
  stored_value, HasRoom, store_lem, get_answer_stores, get_answer_error,
}

-- The bytes that a stream carries.
pub contents : Cells → Exec Bytes
contents [] = done []
contents (none ∷ cells) = undefined
contents (some b ∷ cells) = contents cells >>= λ bytes. done (b ∷ bytes)

-- What two `recv` take from a stream, the first of them four bytes.
abbrev pub parts : Bytes → Option Bytes × Option Bytes
parts (a ∷ b ∷ c ∷ d ∷ rest) = (some (a ∷ b ∷ c ∷ d ∷ []), some rest)
parts few = (some few, some [])

-- The way back: a process that ends with nothing sent closes the stream.
replies : Ending → Exec (Option Bytes × Option Bytes)
replies (answered cells) = contents cells >>= λ bytes. done (parts bytes)
replies dropped = done (parts [])

module _ {F : Type 0} where
  -- The socket, with the child process at its other end.
  pub served : Platform → Calls F → Memory F → Cells → Exec (Option Bytes × Option Bytes)
  served p calls memory cells = do
    bytes ← contents cells
    ending ← execute_client p calls memory (parts bytes).0 (parts bytes).1
    replies ending

contents-written : (bytes : Bytes) → contents (written bytes) ≡ done bytes
unfolding contents
contents-written [] = refl
contents-written (b ∷ bytes) = rw (contents-written bytes)

parts-int_bytes :
    (n : ℤ) (bytes : Bytes) → parts (int_bytes n ++ bytes) ≡ (some (int_bytes n), some bytes)
unfolding int_bytes
parts-int_bytes n bytes = refl

-- The client reaches that server, and its memory is granted.
pub record IsOpen {F : Type 0} (net : Network) (p : Platform) (calls : Calls F) (memory : Memory F)
    : Type 0 where
  pub sending_grants : IsGranting net.sending
  pub answering_grants : IsGranting net.answering
  pub connecting : net.connects ≡ true
  pub sends_all : net.sends ≡ true
  pub serving : net.server ≡ served p calls memory
  pub working : IsWorking p

module _ {F : Type 0} (net : Network) (p : Platform) (calls : Calls F) (memory : Memory F)
    (r : Request) (o : IsOpen net p calls memory) (q : IsRequest r) where
  sent_lem : send_cmd net (to_message r) ≡ done (some (written (frame r)))
  unfolding send_cmd
  sent_lem =
      let granted : net.sending buffer_site (length (frame r)) ≡ true =
        o.sending_grants buffer_site (length (frame r)) (omega (arith, q.fits)) in
      rw (serialize_message-frame net.sending r q granted, o.connecting, o.sends_all)

  served_lem :
      (answer : Bytes) (n : ℤ)
      → handled p calls memory r ≡ done (answered (written (int_bytes n ++ answer)))
      → net.server (written (frame r)) ≡ done (some (int_bytes n), some answer)
  unfolding served replies frame
  served_lem answer n h = rw (
    o.serving,
    contents-written (int_bytes (pos (length (body r))) ++ body r),
    parts-int_bytes (pos (length (body r))) (body r),
    h,
    contents-written (int_bytes n ++ answer),
    parts-int_bytes n answer,
  )

  -- The value that the call returns comes to `store`, whatever the room for it.
  pub transmition_stores :
      (ret : Option ℕ) (f : FunctionMapper F) (value : Argument)
      → get_function (some memory) r.command ≡ some f
      → length f.fun.argv ≡ pos_part f.fun.argc
      → Fits f.fun r
      → length r.arguments ≤ 255
      → IsValue value
      → Gives calls f.fun.fun_ptr r.return_type (datas r.arguments) value
      → transmition net ret (to_message r) ≡ (
          store ret (to_arg value) >>= λ stored.
          done (record { code = pos 0; stored = stored; printed = [] }))
  unfolding transmition
  transmition_stores ret f value found stored fits few v g =
      let sent = sent_lem in
      let answer =
        execute_client_value p calls memory r f value o.working q found stored fits few v g in
      let typed : (to_message r).return_type ≡ (to_arg value).typ =
        unfold to_message in
        Gives-typ calls f.fun.fun_ptr r.return_type (datas r.arguments) value g in
      rw (
        sent,
        served_lem (answer_body value) (pos (length (answer_body value))) answer,
        typed,
        get_answer_stores net.answering o.answering_grants ret value v,
      )

  -- From end to end, a value: on a network that works, a valid request with at most 255 arguments,
  -- whose name has a function that stores one type per argument declared and whose signature the
  -- request fits, ends with code 0, if the call returns a value of the return type that an answer
  -- can carry; that value is stored where `ret` points, and there has to be room for it.
  pub transmition_value :
      (ret : Option ℕ) (f : FunctionMapper F) (value : Argument)
      → get_function (some memory) r.command ≡ some f
      → length f.fun.argv ≡ pos_part f.fun.argc
      → Fits f.fun r
      → length r.arguments ≤ 255
      → IsValue value
      → Gives calls f.fun.fun_ptr r.return_type (datas r.arguments) value
      → HasRoom ret value
      → transmition net ret (to_message r)
        ≡ done (record { code = pos 0; stored = stored_value ret value; printed = [] })
  transmition_value ret f value found stored fits few v g room =
      rw (transmition_stores ret f value found stored fits few v g, store_lem ret value v room)

  error_lem :
      (ret : Option ℕ) (status : ℕ)
      → status ≢ rpc_ret_ok
      → status < 128
      → handled p calls memory r ≡ done (answered (written (error_frame status)))
      → transmition net ret (to_message r) ≡ failed_with (pos status)
  unfolding transmition
  error_lem ret status h k answer = rw (
    sent_lem,
    served_lem (status ∷ []) (pos 1) answer,
    get_answer_error net.answering o.answering_grants status (to_message r).return_type ret h k,
  )

  -- From end to end, an unknown function: on a network that works, a valid request whose name has no
  -- function ends with -1, stores nothing, and prints the line about an unknown function.
  pub transmition_unknown :
      (ret : Option ℕ)
      → get_function (some memory) r.command ≡ none
      → transmition net ret (to_message r)
        ≡ done (record { code = negsuc 0; stored = none; printed = Report.unknown_function ∷ [] })
  unfolding print_error_status
  transmition_unknown ret missing =
      error_lem ret rpc_ret_unknown_func (omega arith) (omega arith)
        (execute_client_unknown p calls memory r o.working q missing)

  -- From end to end, a refusal: on a network that works, where the name of a valid request has a
  -- function that stores one type per argument declared, and the request differs from the declared
  -- signature, the outcome is that of the status of the first difference: -1, nothing stored, and
  -- the lines about that status.
  pub transmition_refused :
      (ret : Option ℕ) (f : FunctionMapper F) (status : ℕ)
      → get_function (some memory) r.command ≡ some f
      → length f.fun.argv ≡ pos_part f.fun.argc
      → expected_error f.fun r ≡ some status
      → transmition net ret (to_message r) ≡ failed_with (pos status)
  transmition_refused ret f status found stored differs =
      let (other, small) = error_range f.fun status differs in
      error_lem ret status other small (
        execute_client_refused p calls memory r o.working q f status found other
          (verification_lem f.fun r stored ∙ ap done differs))
    where
      error_range :
          (g : Function F) (s : ℕ) → expected_error g r ≡ some s → (s ≢ rpc_ret_ok) × (s < 128)
      error_range g s e = ground arith
