-- ===== src/Server/Errors.antt =====
-- The child process on a request that it refuses: the error that goes to the client.
use remote_procedure_control.Prelude.{
  ℕ, ◌+◌, ◌≡◌, ◌≢◌, true, [], arith, none, some, length, append-nil,
}
use remote_procedure_control.Prelude.Int.{ℤ, pos}
use remote_procedure_control.Machine.{Exec, done, checked_size}
use remote_procedure_control.Machine.Cells.{written}
use remote_procedure_control.Machine.Words.{int_bytes, read_int, read_int-int_bytes}
use remote_procedure_control.RpcData.{buffer_site, rpc_ret_ok, rpc_ret_unknown_func}
use remote_procedure_control.RpcData.Protocol.{Request, IsRequest, body, to_message}
use remote_procedure_control.RpcData.Serialize.Frame.{length-frame}
use remote_procedure_control.RpcData.Deserialize.{deserialize_message}
use remote_procedure_control.RpcData.Deserialize.Accepts.{IsGranting, deserialize-body}
use remote_procedure_control.RpcData.Answer.Layout.{error_frame, serialize_answer_error}
use remote_procedure_control.Mapper.{FunctionMapper, Memory, get_function}
use remote_procedure_control.Mapper.Lookup.{exist-get}
use remote_procedure_control.Server.{
  Platform, Calls, Ending, answered, ends, returns, deliver, send_error, read_received,
  allocate_received, read_msg, search_function, verification, verification_function, answer_client,
  execute_client, finish,
}

-- Memory is granted, and `send` sends.
pub record IsWorking (p : Platform) : Type 0 where
  pub reading_grants : IsGranting p.reading
  pub answering_grants : IsGranting p.answering
  pub sending : p.sends ≡ true

pub send_error_lem :
    (p : Platform) (status : ℕ)
    → IsWorking p
    → status ≢ rpc_ret_ok
    → send_error p status ≡ done (answered (written (error_frame status)))
unfolding send_error deliver
send_error_lem p status w h = rw (
  serialize_answer_error p.answering status h (w.answering_grants buffer_site 5 (omega arith)),
  w.sending,
)

-- The message of the request is what the process reads.
pub read_msg_lem :
    (p : Platform) (r : Request)
    → IsWorking p
    → IsRequest r
    → read_msg p (some (int_bytes (pos (length (body r))))) (some (body r)) ≡ returns (to_message r)
unfolding read_msg allocate_received read_received
read_msg_lem p r w v =
    let size : ℤ = pos (length (body r)) in
    let lf = length-frame r in
    let header : read_int (int_bytes size) ≡ done (size, []) =
      rw append-nil at (read_int-int_bytes size [] (omega (arith, lf, v.fits))) in
    let whole : deserialize_message p.reading true size (some (body r))
        ≡ done (pos 0, some (to_message r)) =
      rw append-nil at (deserialize-body p.reading w.reading_grants r [] v) in
    let room : checked_size (length (body r) + 1) ≡ done (length (body r) + 1) =
      ground (arith, lf, v.fits) in
    rw (
      header,
      room,
      w.reading_grants buffer_site (length (body r) + 1) (omega (arith, lf, v.fits)),
      whole,
    )

module _ {F : Type 0} (p : Platform) (memory : Memory F) (r : Request) where
  pub search_unknown :
      IsWorking p
      → get_function (some memory) r.command ≡ none
      → search_function p memory (to_message r)
        ≡ done (ends (answered (written (error_frame rpc_ret_unknown_func))))
  unfolding search_function to_message
  search_unknown w missing =
      rw (exist-get memory r.command, missing, send_error_lem p 1 w (omega arith))

  pub search_found :
      (f : FunctionMapper F)
      → get_function (some memory) r.command ≡ some f
      → search_function p memory (to_message r) ≡ returns f
  unfolding search_function to_message
  search_found f found = rw (exist-get memory r.command, found)

-- What the process does with the two parts of the frame.
abbrev pub handled : {F : Type 0} → Platform → Calls F → Memory F → Request → Exec Ending
handled p calls memory r =
    execute_client p calls memory (some (int_bytes (pos (length (body r))))) (some (body r))

module _ {F : Type 0} (p : Platform) (calls : Calls F) (memory : Memory F) (r : Request)
    (w : IsWorking p) (v : IsRequest r) where
  -- On a working platform, a valid request whose name has no function is answered with the frame of
  -- the status for an unknown function.
  pub execute_client_unknown :
      get_function (some memory) r.command ≡ none
      → handled p calls memory r ≡ done (answered (written (error_frame rpc_ret_unknown_func)))
  unfolding execute_client answer_client finish
  execute_client_unknown missing = rw (read_msg_lem p r w v, search_unknown p memory r w missing)

  -- On a working platform, a valid request whose name has a function, and that the verification
  -- refuses with a status other than OK, is answered with the frame of that status.
  pub execute_client_refused :
      (f : FunctionMapper F) (status : ℕ)
      → get_function (some memory) r.command ≡ some f
      → status ≢ rpc_ret_ok
      → verification f.fun (to_message r) ≡ done (some status)
      → handled p calls memory r ≡ done (answered (written (error_frame status)))
  unfolding execute_client answer_client verification_function finish
  execute_client_refused f status found h refused =
      rw (
        read_msg_lem p r w v,
        search_found p memory r f found,
        refused,
        send_error_lem p status w h,
      )
