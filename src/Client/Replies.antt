-- ===== src/Client/Replies.antt =====
-- `getAnswer` of src/c_client.c on the frames that the server sends.
use remote_procedure_control.Prelude.{
  ℕ, ◌^◌, ◌≡◌, ◌≢◌, ◌≤◌, ◌<◌, refl, arith, true, false, [], ◌∷◌, ltb, leb, ◌==◌, Option, none, some,
  length, append-nil,
}
use remote_procedure_control.Prelude.Int.{ℤ, pos, negsuc, eqb_ℤ}
use remote_procedure_control.Machine.{done, ◌>>=◌, Bytes, strlen-IsText, c_string-IsText}
use remote_procedure_control.Machine.Words.{int_bytes, read_int, read_int-int_bytes}
use remote_procedure_control.RpcData.{
  Malloc, Pointee, int, str, buffer_site, rpc_ret_ok, deref_int, deref_str,
}
use remote_procedure_control.RpcData.Integer.Decimal.{length-integer_bytes-le}
use remote_procedure_control.RpcData.Protocol.{Argument, void, number, text, to_arg}
use remote_procedure_control.RpcData.Answer.Layout.{IsValue, answer_body}
use remote_procedure_control.RpcData.Answer.RoundTrip.{deserialize-answer_body, deserialize-error}
use remote_procedure_control.RpcData.Deserialize.Accepts.{IsGranting}
use remote_procedure_control.Client.{
  Report, print_error_status, failed_with, store, accept, read_answer, get_answer,
}

-- What a value leaves where `ret` points.
abbrev pub stored_value : Option ℕ → Argument → Option Pointee
stored_value none a = none
stored_value (some n) void = none
stored_value (some n) (number i) = some (int i)
stored_value (some n) (text s) = some (str s)

-- The value fits where `ret` points.
abbrev pub HasRoom : Option ℕ → Argument → Type 0
HasRoom none a = Unit {0}
HasRoom (some n) void = Unit {0}
HasRoom (some n) (number i) = 4 ≤ n
HasRoom (some n) (text s) = length s < n

pub store_lem :
    (ret : Option ℕ) (a : Argument)
    → IsValue a
    → HasRoom ret a
    → store ret (to_arg a) ≡ done (stored_value ret a)
unfolding store deref_int deref_str
store_lem none void v h = refl
store_lem none (number i) v h = refl
store_lem none (text s) v h = refl
store_lem (some n) void v h = refl
store_lem (some n) (number i) v h = let room : leb 4 n ≡ true = ground arith in rw room
store_lem (some n) (text s) v h =
    let room : ltb (length s) n ≡ true = ground arith in
    rw (strlen-IsText s v.0, c_string-IsText s v.0, room)

pub body-small : (a : Argument) → IsValue a → length (answer_body a) < 2 ^ 31
body-small void v = omega arith
body-small (number i) v = omega (arith, length-integer_bytes-le i)
body-small (text s) v = omega arith

module _ (malloc : Malloc) (granting : IsGranting malloc) where
  -- On any whole message the outcome is that of `deserialize_answer`.
  received :
      (typ : ℕ) (ret : Option ℕ) (bytes : Bytes)
      → length bytes < 2 ^ 31
      → get_answer malloc typ ret (some (int_bytes (pos (length bytes)))) (some bytes)
        ≡ read_answer malloc typ ret (pos (length bytes)) (some bytes)
  unfolding get_answer
  received typ ret bytes h =
      let size : ℤ = pos (length bytes) in
      let header : read_int (int_bytes size) ≡ done (size, []) =
        rw append-nil at (read_int-int_bytes size [] (omega arith)) in
      rw (header, granting buffer_site (length bytes) (omega arith))

  -- A value of the type that is expected comes to `store`.
  pub get_answer_stores :
      (ret : Option ℕ) (a : Argument)
      → IsValue a
      → get_answer malloc
          (to_arg a).typ
          ret
          (some (int_bytes (pos (length (answer_body a)))))
          (some (answer_body a))
        ≡ (store ret (to_arg a) >>= λ stored.
            done (record { code = pos 0; stored = stored; printed = [] }))
  unfolding read_answer accept
  get_answer_stores ret a v =
      let same : ((to_arg a).typ == (to_arg a).typ) ≡ true = ground arith in
      rw (
        received (to_arg a).typ ret (answer_body a) (body-small a v),
        deserialize-answer_body malloc a granting v,
        same,
      )

  -- Where memory is granted, a value of the type that is expected, in its frame, is stored where
  -- there is room for it, and the code is 0.
  pub get_answer_value :
      (ret : Option ℕ) (a : Argument)
      → IsValue a
      → HasRoom ret a
      → get_answer malloc
          (to_arg a).typ
          ret
          (some (int_bytes (pos (length (answer_body a)))))
          (some (answer_body a))
        ≡ done (record { code = pos 0; stored = stored_value ret a; printed = [] })
  get_answer_value ret a v h = rw (get_answer_stores ret a v, store_lem ret a v h)

  -- Where memory is granted, a value of another type than the one expected stores nothing, and ends
  -- with -1 and the line about a wrong return type.
  pub get_answer_wrong_type :
      (typ : ℕ) (ret : Option ℕ) (a : Argument)
      → IsValue a
      → (to_arg a).typ ≢ typ
      → get_answer malloc typ ret
          (some (int_bytes (pos (length (answer_body a)))))
          (some (answer_body a))
        ≡ done (record { code = negsuc 0; stored = none; printed = Report.wrong_return ∷ [] })
  unfolding read_answer accept print_error_status
  get_answer_wrong_type typ ret a v h =
      let other : ((to_arg a).typ == typ) ≡ false = ground arith in
      rw (
        received typ ret (answer_body a) (body-small a v),
        deserialize-answer_body malloc a granting v,
        other,
      )

  -- Where memory is granted, the frame of an error status below 128 ends as `printErrorStatus` of
  -- that status does: -1, nothing stored, and its lines.
  pub get_answer_error :
      (status typ : ℕ) (ret : Option ℕ)
      → status ≢ rpc_ret_ok
      → status < 128
      → get_answer malloc typ ret (some (int_bytes (pos 1))) (some (status ∷ []))
        ≡ failed_with (pos status)
  unfolding read_answer
  get_answer_error status typ ret h k =
      let other : eqb_ℤ (pos status) (pos 0) ≡ false = ground arith in
      rw (received typ ret (status ∷ []) (omega arith), deserialize-error malloc status h k, other)
