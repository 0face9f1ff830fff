-- ===== src/RpcData/Answer/Layout.antt =====
-- The answer protocol as the comment of src/u_rpc_data.h gives it, and that `serialize_answer`
-- writes it.
use remote_procedure_control.Prelude.{
  ℕ, suc, ◌+◌, ◌-◌, ◌%◌, ◌≡◌, ◌≢◌, ◌≤◌, refl, sym, true, [], ◌∷◌, ◌++◌, arith, ◌==◌, false, none,
  some, length, length-append, append-nil,
}
use remote_procedure_control.Prelude.Int.{ℤ, pos}
use remote_procedure_control.Machine.{
  done, Bytes, IsInt, IsText, int_max, c_string-IsText, checked_size, read_bytes-append,
}
use remote_procedure_control.Machine.Cells.{fresh, written, blit, poke, blit_at, replicate-add}
use remote_procedure_control.Machine.Words.{int_bytes, length-int_bytes}
use remote_procedure_control.RpcData.{
  Malloc, buffer_site, sizeof_int, deref_int, deref_str, rpc_ret_ok,
}
use remote_procedure_control.RpcData.Integer.Decimal.{
  integer_bytes, int_min, length-integer_bytes-le,
}
use remote_procedure_control.RpcData.Integer.Writing.{serialize_integer_lem}
use remote_procedure_control.RpcData.ArgSize.Exact.{
  arg_size_null, arg_size_void, arg_size_number, arg_size_text,
}
use remote_procedure_control.RpcData.Answer.{
  write_str, write_data, write_header, write_answer, serialize_answer,
}
use remote_procedure_control.RpcData.Protocol.{Argument, void, number, text, to_arg}

-- The value of an answer. Its length byte is the lowest byte of the string's length.
abbrev pub value_bytes : Argument → Bytes
value_bytes void = 0 ∷ []
value_bytes (number i) = 1 ∷ integer_bytes i
value_bytes (text s) = 2 ∷ (length s % 256) ∷ s

-- <status> <arg>, without the length of the message.
abbrev pub answer_body : Argument → Bytes
answer_body a = 0 ∷ value_bytes a

-- <message_length> <status> <arg>
abbrev pub answer_frame : Argument → Bytes
answer_frame a = int_bytes (pos (length (answer_body a))) ++ answer_body a

-- What an answer can carry: here a string has any length.
abbrev pub IsValue : Argument → Type 0
IsValue void = Unit {0}
IsValue (number i) = IsInt i × (i ≢ int_min)
IsValue (text s) = IsText s × (length s + 7 ≤ int_max)

write_value_void :
    (a : Argument)
    → write_answer rpc_ret_ok (some (to_arg void)) 1 (fresh 6)
      ≡ done (some (written (answer_frame void)))
unfolding write_answer write_data write_header blit poke int_bytes
write_value_void a = refl

write_value_number :
    (i : ℤ) (total : ℕ)
    → IsInt i
    → i ≢ int_min
    → total ≡ 6 + length (integer_bytes i)
    → write_answer rpc_ret_ok
        (some (to_arg (number i)))
        (1 + length (integer_bytes i))
        (fresh total)
      ≡ done (some (written (answer_frame (number i))))
unfolding write_answer write_data write_header blit poke deref_int int_bytes
write_value_number i total hi hm e =
    let bs = integer_bytes i in
    rw
      (
        e,
        replicate-add 6 (length bs),
        let e : fresh (length bs) ≡ fresh (length bs) ++ [] = sym (append-nil _) in e,
        serialize_integer_lem i 6 (fresh 6) [] hi hm refl,
      )
      (let two : 1 + (1 + length bs) ≡ suc (suc (length bs)) = omega arith in
        rw (append-nil, two) refl)

write_value_text :
    (s : Bytes) (total : ℕ)
    → IsText s
    → total ≡ 7 + length s
    → write_answer rpc_ret_ok (some (to_arg (text s))) (2 + length s) (fresh total)
      ≡ done (some (written (answer_frame (text s))))
unfolding write_answer write_data write_str write_header blit poke deref_str int_bytes
write_value_text s total h e =
    let less : 2 + length s - 2 ≡ length s = omega arith in
    let two : 1 + (2 + length s) ≡ suc (suc (suc (length s))) = omega arith in
    rw (
      e,
      less,
      c_string-IsText s h,
      read_bytes-append (length s) s (0 ∷ []) refl,
      replicate-add 7 (length s),
      let e : fresh (length s) ≡ fresh (length s) ++ [] = sym (append-nil _) in e,
      blit_at s (fresh 7) 7 (length s) 0 [] refl (omega arith),
      two,
      append-nil (written s),
    )

pub length-answer_frame : (a : Argument) → length (answer_frame a) ≡ 5 + length (value_bytes a)
length-answer_frame a =
    let size : ℤ = pos (length (answer_body a)) in
    omega (arith, length-append (int_bytes size) (answer_body a), length-int_bytes size)

-- Where the allocator grants the block, a value that an answer can carry is answered with status OK
-- by its frame, which fills the block exactly; a string may have any length.
pub serialize_answer_frame :
    (malloc : Malloc) (a : Argument)
    → IsValue a
    → malloc buffer_site (length (answer_frame a)) ≡ true
    → serialize_answer malloc rpc_ret_ok (some (to_arg a))
      ≡ done (some (length (answer_frame a), written (answer_frame a)))
unfolding serialize_answer
serialize_answer_frame malloc void v granted =
    unfold int_bytes in rw (arg_size_void, granted, write_value_void void)
serialize_answer_frame malloc (number i) v granted =
    let total = length (answer_frame (number i)) in
    let size = length-answer_frame (number i) in
    let fits : checked_size (sizeof_int + (1 + (1 + length (integer_bytes i)))) ≡ done total =
      ground (arith, length-integer_bytes-le i, size) in
    rw (
      arg_size_number i v.0 v.1,
      fits,
      granted,
      write_value_number i total v.0 v.1 (omega (arith, size)),
    )
serialize_answer_frame malloc (text s) v granted =
    let total = length (answer_frame (text s)) in
    let size = length-answer_frame (text s) in
    let fits : checked_size (sizeof_int + (1 + (2 + length s))) ≡ done total =
      ground (arith, size) in
    rw (
      arg_size_text s v.0 (omega arith),
      fits,
      granted,
      write_value_text s total v.0 (omega (arith, size)),
    )

-- The answer that carries an error.
abbrev pub error_frame : ℕ → Bytes
error_frame status = int_bytes (pos 1) ++ (status ∷ [])

-- Where the block is granted, every status but OK without a value is answered by a frame that holds
-- the status alone.
pub serialize_answer_error :
    (malloc : Malloc) (status : ℕ)
    → status ≢ rpc_ret_ok
    → malloc buffer_site 5 ≡ true
    → serialize_answer malloc status none ≡ done (some (5, written (error_frame status)))
unfolding serialize_answer write_answer write_header blit poke int_bytes
serialize_answer_error malloc status h granted =
    let other : (status == rpc_ret_ok) ≡ false = ground arith in rw (arg_size_null, granted, other)
