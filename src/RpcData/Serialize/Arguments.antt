-- ===== src/RpcData/Serialize/Arguments.antt =====
-- The argument loop of `serialize_message` writes the wire form of the arguments, byte after byte.
use remote_procedure_control.Prelude.{
  ℕ, ◌+◌, ◌%◌, ◌≡◌, refl, List, [], ◌∷◌, ◌++◌, map, arith, some, length, length-append,
  append_assoc, append-nil, All,
}
use remote_procedure_control.Prelude.Int.{ℤ}
use remote_procedure_control.Machine.{done, Bytes, c_string-IsText, strlen-IsText}
use remote_procedure_control.Machine.Cells.{fresh, written, blit_row}
use remote_procedure_control.RpcData.{deref_int, deref_str}
use remote_procedure_control.RpcData.Integer.Decimal.{integer_bytes}
use remote_procedure_control.RpcData.Integer.Writing.{serialize_integer_row}
use remote_procedure_control.RpcData.Serialize.{write_pointee, write_arg, write_args}
use remote_procedure_control.RpcData.Protocol.{
  Argument, void, number, text, IsArgument, argument_bytes, arguments_bytes, to_arg,
}

-- Writing a byte and then a row is writing them in one row.
append_cons : (out : Bytes) (b : ℕ) (bs : Bytes) → (out ++ (b ∷ [])) ++ bs ≡ out ++ (b ∷ bs)
append_cons out b bs = append_assoc out (b ∷ []) bs

write_number :
    (i : ℤ) (out : Bytes) (cpt n k : ℕ)
    → IsArgument (number i)
    → cpt ≡ length out
    → n ≡ length (integer_bytes i) + k
    → write_pointee (to_arg (number i)) cpt (written out ++ fresh n)
      ≡ done (some (cpt + length (integer_bytes i), written (out ++ integer_bytes i) ++ fresh k))
unfolding write_pointee deref_int
write_number i out cpt n k h hc e = rw (serialize_integer_row i out cpt n k h.0 h.1 hc e)

write_text :
    (s out : Bytes) (cpt n k : ℕ)
    → IsArgument (text s)
    → cpt ≡ length out
    → n ≡ 1 + length s + k
    → write_pointee (to_arg (text s)) cpt (written out ++ fresh n)
      ≡ done (some (cpt + 1 + length s, written (out ++ (length s ∷ s)) ++ fresh k))
unfolding write_pointee deref_str
write_text s out cpt n k h hc e =
    let low : length s % 256 ≡ length s = omega arith in
    rw (
      strlen-IsText s h.0,
      c_string-IsText s h.0,
      low,
      blit_row (length s ∷ []) out cpt n (length s + k) hc (omega arith),
      blit_row s (out ++ (length s ∷ [])) (cpt + 1) (length s + k) k
          (omega (arith, length-append out (length s ∷ []))) refl,
      append_cons out (length s) s,
    )

write_arg_lem :
    (a : Argument) (out : Bytes) (cpt n k : ℕ)
    → IsArgument a
    → cpt ≡ length out
    → n ≡ length (argument_bytes a) + k
    → write_arg (to_arg a) cpt (written out ++ fresh n)
      ≡ done (some (cpt + length (argument_bytes a), written (out ++ argument_bytes a) ++ fresh k))
unfolding write_arg
write_arg_lem void out cpt n k h hc e =
    rw (blit_row (0 ∷ []) out cpt n k hc (omega arith)) (unfold write_pointee in refl)
write_arg_lem (number i) out cpt n k h hc e =
    let next = length-append out (1 ∷ []) in
    rw
      (
        blit_row (1 ∷ []) out cpt n (length (integer_bytes i) + k) hc (omega arith),
        write_number i (out ++ (1 ∷ [])) (cpt + 1) (length (integer_bytes i) + k) k h
            (omega (arith, next)) refl,
        append_cons out 1 (integer_bytes i),
      )
      (ground arith)
write_arg_lem (text s) out cpt n k h hc e =
    let next = length-append out (2 ∷ []) in
    rw
      (
        blit_row (2 ∷ []) out cpt n (1 + length s + k) hc (omega arith),
        write_text s (out ++ (2 ∷ [])) (cpt + 1) (1 + length s + k) k h (omega (arith, next)) refl,
        append_cons out 2 (length s ∷ s),
      )
      (ground arith)

-- From any row of written bytes with enough room behind it, the argument loop of
-- `serialize_message` appends the wire form of valid arguments and leaves the rest of the block
-- unwritten.
pub write_args_lem :
    (as' : List Argument) (out : Bytes) (cpt n k : ℕ)
    → All IsArgument as'
    → cpt ≡ length out
    → n ≡ length (arguments_bytes as') + k
    → write_args (length as') (map to_arg as') cpt (written out ++ fresh n)
      ≡ done (some (written (out ++ arguments_bytes as') ++ fresh k))
unfolding write_args
write_args_lem [] out cpt n k h hc e =
    rw (append-nil out) (let e' : n ≡ k = omega arith in rw e' refl)
write_args_lem (a ∷ as') out cpt n k (h, hs) hc e =
    let size = length (arguments_bytes as') in
    let sum = length-append (argument_bytes a) (arguments_bytes as') in
    let next = length-append out (argument_bytes a) in
    rw (
      write_arg_lem a out cpt n (size + k) h hc (omega (arith, sum)),
      write_args_lem as' (out ++ argument_bytes a) (cpt + length (argument_bytes a)) (size + k) k hs
          (omega (arith, next)) refl,
      append_assoc out (argument_bytes a) (arguments_bytes as'),
    )
