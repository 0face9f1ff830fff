-- ===== src/RpcData/Answer.antt =====
-- `serialize_answer` and `deserialize_answer` of src/u_rpc_data.c.
pub mod Layout
pub mod RoundTrip
use remote_procedure_control.Prelude.{
  ℕ, zero, suc, ◌+◌, ◌-◌, ◌*◌, ◌%◌, ◌≡◌, refl, Bool, true, false, List, [], ◌∷◌, ◌++◌, ltb, ◌==◌,
  if◌then◌else◌, Option, none, some,
}
use remote_procedure_control.Prelude.Int.{ℤ, pos, negsuc, ◌-ℤ◌}
use remote_procedure_control.Machine.{
  Exec, done, undefined, ◌>>=◌, Bytes, c_string, checked_size, read_bytes, signed_char,
}
use remote_procedure_control.Machine.Cells.{Cells, fresh, blit}
use remote_procedure_control.Machine.Words.{int_bytes}
use remote_procedure_control.RpcData.{
  rpc_ty_void, rpc_ty_int, rpc_ty_str, rpc_ret_ok, Pointee, null, int, str, RpcArg, Malloc,
  buffer_site, command_site, sizeof_int, deref_int, deref_str,
}
use remote_procedure_control.RpcData.Integer.{serialize_integer, deserialize_integer}
use remote_procedure_control.RpcData.ArgSize.{arg_size}

-- `data_size - 2` bytes of the string: what `arg_size` counted for it, less the type and the length.
write_str : Bytes → ℕ → Cells → Exec Cells
write_str s data_size cells = do
  (bytes, _) ← read_bytes (data_size - 2) (c_string s ++ (0 ∷ []))
  cells ← blit (sizeof_int + 3) bytes cells
  blit (sizeof_int + 2) (((data_size - 2) % 256) ∷ []) cells

-- "Data completion": nothing is written for a type that is neither `int` nor `str`.
write_data : RpcArg → ℕ → Cells → Exec Cells
write_data ret data_size cells =
    if ret.typ == rpc_ty_int
    then (do
      i ← deref_int ret.pointee
      (_, cells) ← serialize_integer i (sizeof_int + 2) cells
      done cells)
    else if ret.typ == rpc_ty_str
    then (deref_str ret.pointee >>= λ s. write_str s data_size cells)
    else done cells

-- The status and the length of the message, written last.
write_header : ℕ → ℕ → Cells → Exec Cells
write_header status message_length cells =
    blit sizeof_int (status ∷ []) cells >>= blit 0 (int_bytes (pos message_length))

-- The branch on the status. `none` is the answer OK without a value, which is refused.
write_answer : ℕ → Option RpcArg → ℕ → Cells → Exec (Option Cells)
write_answer status ret data_size cells =
    if status == rpc_ret_ok
    then elim ret [
      | none ↦ done none
      | some arg ↦ do
        cells ← write_data arg data_size cells
        cells ← blit (sizeof_int + 1) (arg.typ ∷ []) cells
        cells ← write_header status (1 + data_size) cells
        done (some cells)
    ]
    else (write_header status (1 + data_size) cells >>= λ cells. done (some cells))

-- The size and the content of the block; `none` is a null pointer.
pub serialize_answer : Malloc → ℕ → Option RpcArg → Exec (Option (ℕ × Cells))
serialize_answer malloc status ret =
    arg_size (pos 1) (elim ret [ none ↦ none | some arg ↦ some (arg ∷ []) ]) >>= elim [
      | none ↦ done none
      | some data_size ↦ do
        msg_size ← checked_size (sizeof_int + (1 + data_size))
        if malloc buffer_site msg_size
            then (write_answer status ret data_size (fresh msg_size)
                >>= elim [ none ↦ done none | some cells ↦ done (some (msg_size, cells)) ])
            else done none
    ]

-- The value behind the type byte, of a message of `size` bytes. The `malloc` for an `int` is not
-- checked. A string takes all that the message holds behind its length byte, which is not read.
read_value : Malloc → ℕ → Bytes → ℕ → Exec (ℤ × Option RpcArg)
read_value malloc typ src size =
    if typ == rpc_ty_int
    then (if malloc command_site sizeof_int
        then (do
          (i, _, _) ← deserialize_integer src
          done (pos 0, some (record { typ = typ; pointee = int i })))
        else undefined)
    else if typ == rpc_ty_str
    then (if malloc command_site (size - 2)
        then if ltb size 3 then undefined else (do
          (_, src) ← read_bytes 1 src
          (s, _) ← read_bytes (size - 3) src
          done (pos 0, some (record { typ = typ; pointee = str s })))
        else done (negsuc 0, none))
    else done (pos 0, some (record { typ = typ; pointee = null }))

-- `if (size < 2) return -1`, and the type.
read_typed : Malloc → ℕ → Bytes → Exec (ℤ × Option RpcArg)
read_typed malloc size [] = if ltb size 2 then done (negsuc 0, none) else undefined
read_typed malloc size (typ ∷ src) =
    if ltb size 2 then done (negsuc 0, none) else read_value malloc typ src size

read_status : Malloc → ℕ → Bytes → Exec (ℤ × Option RpcArg)
read_status malloc size [] = undefined
read_status malloc size (status ∷ src) =
    if status == rpc_ret_ok then read_typed malloc size src else done (signed_char status, none)

-- The status that is returned, and what is stored in `ret` (nothing unless the status is OK).
-- `has_ret` is `ret != NULL`.
pub deserialize_answer : Malloc → Bool → ℤ → Option Bytes → Exec (ℤ × Option RpcArg)
deserialize_answer malloc has_ret size none = done (negsuc 0, none)
deserialize_answer malloc false size (some src) = done (negsuc 0, none)
deserialize_answer malloc true (negsuc n) (some src) = done (negsuc 0, none)
deserialize_answer malloc true (pos zero) (some src) = done (negsuc 0, none)
deserialize_answer malloc true (pos (suc n)) (some src) = read_status malloc (suc n) src
