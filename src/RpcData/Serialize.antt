-- ===== src/RpcData/Serialize.antt =====
-- `serialize_message` of src/u_rpc_data.c, on a block of memory.
pub mod Arguments
pub mod Frame
pub mod Overrun
use remote_procedure_control.Prelude.{
  ℕ, zero, suc, ◌+◌, ◌-◌, ◌*◌, ◌%◌, ◌≡◌, refl, List, [], ◌∷◌, ◌++◌, ◌==◌, if◌then◌else◌, Option,
  none, some,
}
use remote_procedure_control.Prelude.Int.{ℤ, pos, pos_part}
use remote_procedure_control.Machine.{
  Exec, done, undefined, ◌>>=◌, c_string, strlen, checked_size, read_bytes,
}
use remote_procedure_control.Machine.Cells.{Cells, fresh, blit}
use remote_procedure_control.Machine.Words.{int_bytes}
use remote_procedure_control.RpcData.{
  rpc_ty_void, rpc_ty_int, rpc_ty_str, RpcArg, Message, Malloc, buffer_site, sizeof_int, deref_int,
  deref_str,
}
use remote_procedure_control.RpcData.Integer.{serialize_integer}
use remote_procedure_control.RpcData.ArgSize.{arg_size}

-- The data of one argument, behind its type byte. `none` is `goto fail`.
-- The length of a string is copied as one `char`, its lowest byte.
pub write_pointee : RpcArg → ℕ → Cells → Exec (Option (ℕ × Cells))
write_pointee arg cpt cells =
    if arg.typ == rpc_ty_void
    then done (some (cpt, cells))
    else if arg.typ == rpc_ty_int
    then (do
      i ← deref_int arg.pointee
      (n, cells) ← serialize_integer i cpt cells
      done (some (cpt + n, cells)))
    else if arg.typ == rpc_ty_str
    then (do
      s ← deref_str arg.pointee
      cells ← blit cpt ((strlen s % 256) ∷ []) cells
      cells ← blit (cpt + 1) (c_string s) cells
      done (some (cpt + 1 + strlen s, cells)))
    else done none

-- One round of the argument loop: the counter and the block behind it.
pub write_arg : RpcArg → ℕ → Cells → Exec (Option (ℕ × Cells))
write_arg arg cpt cells = blit cpt (arg.typ ∷ []) cells >>= write_pointee arg (cpt + 1)

pub write_args : ℕ → List RpcArg → ℕ → Cells → Exec (Option Cells)
write_args zero args cpt cells = done (some cells)
write_args (suc rounds) [] cpt cells = undefined
write_args (suc rounds) (arg ∷ args) cpt cells =
    write_arg arg cpt cells
    >>= elim [ none ↦ done none | some (cpt', cells') ↦ write_args rounds args cpt' cells' ]

-- A null `argv` is read only if the loop makes a round.
pub write_argv : ℕ → Option (List RpcArg) → ℕ → Cells → Exec (Option Cells)
write_argv rounds none cpt cells = write_args rounds [] cpt cells
write_argv rounds (some args) cpt cells = write_args rounds args cpt cells

-- `size`, with -1 for the arguments if one has no type.
abbrev pub message_size : ℕ → Option ℕ → ℕ
message_size command_length none = 2 * sizeof_int + command_length + 1 - 1
message_size command_length (some n) = 2 * sizeof_int + command_length + 1 + n

-- The writes of the frame, in order.
pub write_message : Message → ℕ → Cells → Exec (Option Cells)
write_message msg size cells = do
  cells ← blit 0 (int_bytes (pos size)) cells
  cells ← blit sizeof_int (int_bytes (pos msg.command_length)) cells
  (command, _) ← read_bytes msg.command_length (msg.command ++ (0 ∷ []))
  cells ← blit (2 * sizeof_int) command cells
  cells ← blit (2 * sizeof_int + msg.command_length) (msg.return_type ∷ []) cells
  cells ← blit (2 * sizeof_int + msg.command_length + 1) (int_bytes msg.argc) cells
  write_argv (pos_part msg.argc) msg.argv (3 * sizeof_int + msg.command_length + 1) cells

-- The size and the content of the block. `none` is a null pointer.
pub serialize_message : Malloc → Option Message → Exec (Option (ℕ × Cells))
serialize_message malloc none = done none
serialize_message malloc (some msg) = do
  args ← arg_size msg.argc msg.argv
  size ← checked_size (message_size msg.command_length args)
  total ← checked_size (size + sizeof_int)
  if malloc buffer_site total
      then (write_message msg size (fresh total)
          >>= elim [ none ↦ done none | some cells ↦ done (some (total, cells)) ])
      else done none
