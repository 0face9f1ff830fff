-- ===== src/RpcData/Serialize/Frame.antt =====
-- `serialize_message` fills its block with the frame of the request, exactly.
use remote_procedure_control.Prelude.{
  ℕ, ◌+◌, ◌*◌, ◌≡◌, refl, ap, ◌∙◌, true, List, [], ◌∷◌, ◌++◌, arith, some, length, length-append,
  append_assoc, append-nil, All,
}
use remote_procedure_control.Prelude.Int.{ℤ, pos}
use remote_procedure_control.Machine.{done, Bytes, checked_size, read_bytes-append}
use remote_procedure_control.Machine.Cells.{fresh, written, blit_row}
use remote_procedure_control.Machine.Words.{int_bytes, length-int_bytes}
use remote_procedure_control.RpcData.{Malloc, buffer_site, sizeof_int}
use remote_procedure_control.RpcData.ArgSize.Exact.{arg_size_lem}
use remote_procedure_control.RpcData.Serialize.{
  write_argv, write_message, message_size, serialize_message,
}
use remote_procedure_control.RpcData.Serialize.Arguments.{write_args_lem}
use remote_procedure_control.RpcData.Protocol.{
  Argument, Request, IsRequest, IsArgument, body, frame, arguments_bytes, to_message, to_argv,
}

write_argv_lem :
    (as' : List Argument) (out : Bytes) (cpt n : ℕ)
    → All IsArgument as'
    → cpt ≡ length out
    → n ≡ length (arguments_bytes as')
    → write_argv (length as') (to_argv as') cpt (written out ++ fresh n)
      ≡ done (some (written (out ++ arguments_bytes as')))
unfolding write_argv
write_argv_lem [] out cpt n h hc e =
    write_args_lem [] out cpt n 0 h hc (omega arith) ∙ ap (λ c. done (some c)) (append-nil _)
write_argv_lem (a ∷ as') out cpt n h hc e =
    write_args_lem (a ∷ as') out cpt n 0 h hc (omega arith) ∙ ap (λ c. done (some c)) (append-nil _)

pub length-body :
    (r : Request)
    → length (body r) ≡ 2 * sizeof_int + length r.command + 1 + length (arguments_bytes r.arguments)
unfolding body
length-body r =
    let cl = int_bytes (pos (length r.command)) in
    let argc = int_bytes (pos (length r.arguments)) in
    let args = arguments_bytes r.arguments in
    omega (
      arith,
      length-append cl (r.command ++ (r.return_type ∷ (argc ++ args))),
      length-append r.command (r.return_type ∷ (argc ++ args)),
      length-append argc args,
      length-int_bytes (pos (length r.command)),
      length-int_bytes (pos (length r.arguments)),
    )

pub length-frame : (r : Request) → length (frame r) ≡ 4 + length (body r)
unfolding frame
length-frame r =
    let size : ℤ = pos (length (body r)) in
    omega (arith, length-append (int_bytes size) (body r), length-int_bytes size)

-- The writes, with the rows as they grow.
write_message_lem :
    (r : Request) (size total : ℕ)
    → IsRequest r
    → total ≡ 13 + length r.command + length (arguments_bytes r.arguments)
    → write_message (to_message r) size (fresh total)
      ≡ done (some (written (int_bytes (pos size) ++ body r)))
unfolding write_message to_message body
write_message_lem r size total v e =
    let cl = length r.command in
    let args = length (arguments_bytes r.arguments) in
    let out1 = int_bytes (pos size) in
    let out2 = out1 ++ int_bytes (pos cl) in
    let out3 = out2 ++ r.command in
    let out4 = out3 ++ (r.return_type ∷ []) in
    let l1 = length-int_bytes (pos size) in
    let l2 = length-append out1 (int_bytes (pos cl)) in
    let l2' = length-int_bytes (pos cl) in
    let l3 = length-append out2 r.command in
    let l4 = length-append out3 (r.return_type ∷ []) in
    let l5 = length-int_bytes (pos (length r.arguments)) in
    let l6 = length-append out4 (int_bytes (pos (length r.arguments))) in
    rw
      (
        blit_row (int_bytes (pos size)) [] 0 total (9 + cl + args) refl (omega (arith, l1)),
        blit_row (int_bytes (pos cl)) out1 4 (9 + cl + args) (5 + cl + args) (omega (arith, l1))
            (omega (arith, l2')),
        read_bytes-append cl r.command (0 ∷ []) refl,
        blit_row r.command out2 8 (5 + cl + args) (5 + args) (omega (arith, l1, l2, l2'))
            (omega arith),
        blit_row (r.return_type ∷ []) out3 (8 + cl) (5 + args) (4 + args)
            (omega (arith, l1, l2, l2', l3)) (omega arith),
        blit_row (int_bytes (pos (length r.arguments))) out4 (8 + cl + 1) (4 + args) args
            (omega (arith, l1, l2, l2', l3, l4)) (omega (arith, l5)),
        write_argv_lem r.arguments (out4 ++ int_bytes (pos (length r.arguments)))
            (3 * sizeof_int + cl + 1) args v.arguments_valid
            (omega (arith, l1, l2, l2', l3, l4, l5, l6)) refl,
      )
      (simp append_assoc)

-- Where the allocator grants the block, the message of a valid request is serialized to its frame:
-- the size that is returned is the frame's, every byte of the block is written, and no byte outside
-- it.
pub serialize_message-frame :
    (malloc : Malloc) (r : Request)
    → IsRequest r
    → malloc buffer_site (length (frame r)) ≡ true
    → serialize_message malloc (some (to_message r))
      ≡ done (some (length (frame r), written (frame r)))
unfolding serialize_message to_message
serialize_message-frame malloc r v granted =
    let args = length (arguments_bytes r.arguments) in
    let lb = length-body r in
    let lf = length-frame r in
    let sized : checked_size (message_size (length r.command) (some args))
        ≡ done (length (body r)) =
      ground (arith, lb, lf) in
    let totalled : checked_size (length (body r) + sizeof_int) ≡ done (length (frame r)) =
      ground (arith, lb, lf) in
    let filled =
      write_message_lem r (length (body r)) (length (frame r)) v (omega (arith, lb, lf)) in
    rw
      (
        arg_size_lem r.arguments v.arguments_valid (omega (arith, lb, lf)),
        sized,
        totalled,
        granted,
        filled,
      )
      (unfold frame in refl)
