-- ===== src/RpcData/Answer/RoundTrip.antt =====
-- `deserialize_answer` reads back what `serialize_answer` writes.
use remote_procedure_control.Prelude.{
  ℕ, suc, ◌-◌, ◌%◌, ◌≡◌, ◌≢◌, ◌<◌, refl, true, false, [], ◌∷◌, arith, ltb, none, some, length,
  append-nil,
}
use remote_procedure_control.Prelude.Int.{pos}
use remote_procedure_control.Machine.{done, read_bytes, read_bytes-append}
use remote_procedure_control.RpcData.{Malloc, rpc_ret_ok, command_site, sizeof_int}
use remote_procedure_control.RpcData.Integer.Decimal.{integer_bytes}
use remote_procedure_control.RpcData.Integer.RoundTrip.{deserialize-integer_bytes}
use remote_procedure_control.RpcData.Integer.{deserialize_integer}
use remote_procedure_control.RpcData.Answer.{
  read_value, read_typed, read_status, deserialize_answer,
}
use remote_procedure_control.RpcData.Answer.Layout.{IsValue, answer_body}
use remote_procedure_control.RpcData.Deserialize.Accepts.{IsGranting}
use remote_procedure_control.RpcData.Protocol.{Argument, void, number, text, to_arg}

-- With a granting allocator, `deserialize_answer` reads back every value that an answer can carry
-- from the answer's body, a string of any length included, and returns OK.
pub deserialize-answer_body :
    (malloc : Malloc) (a : Argument)
    → IsGranting malloc
    → IsValue a
    → deserialize_answer malloc true (pos (length (answer_body a))) (some (answer_body a))
      ≡ done (pos 0, some (to_arg a))
unfolding deserialize_answer read_status read_typed read_value
deserialize-answer_body malloc void granting v = refl
deserialize-answer_body malloc (number i) granting v =
    let whole : deserialize_integer (integer_bytes i) ≡ done (i, length (integer_bytes i), []) =
      rw append-nil at (deserialize-integer_bytes i [] v.0 v.1) in
    let long : ltb (suc (suc (length (integer_bytes i)))) 2 ≡ false = ground arith in
    rw (long, granting command_site sizeof_int (omega arith), whole)
deserialize-answer_body malloc (text s) granting v =
    let size = suc (suc (suc (length s))) in
    let whole : read_bytes (length s) s ≡ done (s, []) =
      rw append-nil at (read_bytes-append (length s) s [] refl) in
    let long : ltb size 2 ≡ false = ground arith in
    let holds : ltb size 3 ≡ false = ground arith in
    let less : size - 3 ≡ length s = omega arith in
    rw (
      granting command_site (size - 2) (omega arith),
      long,
      holds,
      read_bytes-append 1 ((length s % 256) ∷ []) s refl,
      less,
      whole,
    )

-- An error status below 128 comes back as it was sent, and no value with it.
pub deserialize-error :
    (malloc : Malloc) (status : ℕ)
    → status ≢ rpc_ret_ok
    → status < 128
    → deserialize_answer malloc true (pos 1) (some (status ∷ [])) ≡ done (pos status, none)
unfolding deserialize_answer read_status
deserialize-error malloc status h k = ground arith
