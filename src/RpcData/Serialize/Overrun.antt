-- ===== src/RpcData/Serialize/Overrun.antt =====
-- What `serialize_message` does with an argument whose type does not exist.
use remote_procedure_control.Prelude.{
  ℕ, suc, ◌+◌, ◌≡◌, ◌≤◌, refl, true, List, [], ◌∷◌, ◌++◌, map, arith, none, some, length,
  length-append, All,
}
use remote_procedure_control.Prelude.Int.{ℤ, pos}
use remote_procedure_control.Machine.{
  done, undefined, Bytes, int_max, checked_size, read_bytes-append,
}
use remote_procedure_control.Machine.Cells.{fresh, blit_row, blit_over}
use remote_procedure_control.Machine.Words.{int_bytes, length-int_bytes}
use remote_procedure_control.RpcData.{Message, RpcArg, Malloc, buffer_site, sizeof_int}
use remote_procedure_control.RpcData.ArgSize.{arg_size}
use remote_procedure_control.RpcData.ArgSize.Exact.{arg_size_unknown}
use remote_procedure_control.RpcData.Serialize.{write_message, message_size, serialize_message}
use remote_procedure_control.RpcData.Protocol.{Argument, IsArgument, arguments_bytes, to_arg}

-- A message with valid arguments, then one of a type that does not exist, then any others.
abbrev pub bad_message : Bytes → ℕ → List Argument → RpcArg → List RpcArg → Message
bad_message command return_type as' bad more = record {
  command_length = length command;
  command = command;
  return_type = return_type;
  argc = pos (length as' + suc (length more));
  argv = some (map to_arg as' ++ (bad ∷ more));
}

write_over :
    (command : Bytes) (return_type size : ℕ) (as' : List Argument) (bad : RpcArg)
    (more : List RpcArg)
    → write_message
        (bad_message command return_type as' bad more)
        size
        (fresh (12 + length command))
      ≡ undefined
unfolding write_message
write_over command return_type size as' bad more =
    let cl = length command in
    let argc : ℤ = pos (length as' + suc (length more)) in
    let out1 = int_bytes (pos size) in
    let out2 = out1 ++ int_bytes (pos cl) in
    let out3 = out2 ++ command in
    let out4 = out3 ++ (return_type ∷ []) in
    let l1 = length-int_bytes (pos size) in
    let l2 = length-append out1 (int_bytes (pos cl)) in
    let l2' = length-int_bytes (pos cl) in
    let l3 = length-append out2 command in
    let l4 = length-append out3 (return_type ∷ []) in
    let l5 = length-int_bytes argc in
    rw (
      blit_row (int_bytes (pos size)) [] 0 (12 + cl) (8 + cl) refl (omega (arith, l1)),
      blit_row (int_bytes (pos cl)) out1 4 (8 + cl) (4 + cl) (omega (arith, l1))
          (omega (arith, l2')),
      read_bytes-append cl command (0 ∷ []) refl,
      blit_row command out2 8 (4 + cl) 4 (omega (arith, l1, l2, l2')) (omega arith),
      blit_row (return_type ∷ []) out3 (8 + cl) 4 3 (omega (arith, l1, l2, l2', l3)) (omega arith),
      blit_over (int_bytes argc) out4 (8 + cl + 1) 3 (omega (arith, l1, l2, l2', l3, l4))
          (omega (arith, l5)),
    )

-- Behind valid arguments that fit, an argument of a type that does not exist is not refused: if the
-- block is granted, the size is one byte short and the number of arguments is written over the end
-- of the block, which is undefined behaviour.
pub serialize_message_overrun :
    (malloc : Malloc) (command : Bytes) (return_type : ℕ) (as' : List Argument) (bad : RpcArg)
    (more : List RpcArg)
    → 12 + length command ≤ int_max
    → All IsArgument as'
    → length (arguments_bytes as') ≤ int_max
    → 3 ≤ bad.typ
    → malloc buffer_site (12 + length command) ≡ true
    → serialize_message malloc (some (bad_message command return_type as' bad more)) ≡ undefined
unfolding serialize_message arg_size
serialize_message_overrun malloc command return_type as' bad more hc h hs t granted =
    let cl = length command in
    let sized : checked_size (message_size cl none) ≡ done (8 + cl) = ground arith in
    let totalled : checked_size (8 + cl + sizeof_int) ≡ done (12 + cl) = ground arith in
    rw (
      arg_size_unknown as' bad more (length as' + suc (length more)) 0 h t refl (omega arith),
      sized,
      totalled,
      granted,
      write_over command return_type (8 + cl) as' bad more,
    )
