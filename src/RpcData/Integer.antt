-- ===== src/RpcData/Integer.antt =====
-- `serialize_integer` and `deserialize_integer` of src/u_rpc_data.c.
pub mod Decimal
pub mod Rounds
pub mod Writing
pub mod RoundTrip
use remote_procedure_control.Prelude.{
  ℕ, zero, suc, ◌+◌, ◌-◌, ◌*◌, ◌/◌, ◌%◌, ◌≡◌, refl, Bool, true, false, List, [], ◌∷◌, arith, ltb,
  ◌==◌, if◌then◌else◌, Option, none, some,
}
use remote_procedure_control.Prelude.Int.{ℤ, pos, negsuc, ◌+ℤ◌, ◌-ℤ◌, ◌*ℤ◌, neg_ℤ}
use remote_procedure_control.Machine.{Exec, done, undefined, ◌>>=◌, Bytes, checked, signed_char}
use remote_procedure_control.Machine.Cells.{Cells, poke}

-- `while (tmp != 0) { ++size; tmp /= 10; }` on a `tmp` that is not negative. An `int` has ten
-- digits at most, so ten rounds are enough.
unfoldable pub count_digits : ℕ → ℕ → ℕ → ℕ
count_digits zero tmp size = size
count_digits (suc fuel) tmp size =
    let next = count_digits fuel (tmp / 10) (suc size) in if tmp == 0 then size else next

-- `while (tmp != 0) { buf[size] = '0' + (tmp % 10); tmp /= 10; --size; }`, from the last digit.
pub write_digits : ℕ → ℕ → ℕ → ℕ → Cells → Exec Cells
write_digits zero buf tmp size cells = done cells
write_digits (suc fuel) buf tmp size cells = elim (tmp == 0) [
  | true ↦ done cells
  | false ↦
      poke (buf + size) (b'0' + tmp % 10) cells >>= write_digits fuel buf (tmp / 10) (size - 1)
]

-- Writes at `buf` in the block; returns the block and the number of bytes written.
-- `i = -i` has no value at the least `int`.
serialize_magnitude : Bool → ℕ → ℕ → Cells → Exec (ℕ × Cells)
serialize_magnitude neg i buf cells =
    if i == 0
    then (do cells₁ ← poke buf 1 cells; cells₂ ← poke (buf + 1) b'0' cells₁; done (2, cells₂))
    else (do
      let digits = count_digits 10 i 0
      cells₁ ← if neg then poke (buf + 1) b'-' cells else done cells
      let isize = if neg then suc digits else digits
      cells₂ ← write_digits 10 buf i isize cells₁
      cells₃ ← poke buf isize cells₂
      done (isize + 1, cells₃))

pub serialize_integer : ℤ → ℕ → Cells → Exec (ℕ × Cells)
serialize_integer (pos n) buf cells = serialize_magnitude false n buf cells
serialize_integer (negsuc n) buf cells = do
  i ← checked (pos (suc n))
  serialize_magnitude true (suc n) buf cells

-- `while (cpt < size) { res *= 10; res += msg[cpt] - '0'; ++cpt; }` with the rounds left.
scan_digits : ℕ → Bytes → ℤ → Exec (ℤ × Bytes)
scan_digits zero msg res = done (res, msg)
scan_digits (suc rounds) [] res = undefined
scan_digits (suc rounds) (c ∷ msg) res = do
  scaled ← checked (res *ℤ pos 10)
  res' ← checked (scaled +ℤ (signed_char c -ℤ pos b'0'))
  scan_digits rounds msg res'

-- `size` is `(int)msg[0] + 1`: a first byte from 128 on is negative, and no digit is read.
abbrev digits_of : ℕ → ℕ
digits_of first = if ltb first 128 then first else 0

-- Returns the number, how many bytes were read, and the bytes that follow.
pub deserialize_integer : Bytes → Exec (ℤ × ℕ × Bytes)
deserialize_integer [] = undefined
deserialize_integer (first ∷ []) = undefined
deserialize_integer (first ∷ c ∷ msg) =
    if c == b'-'
    then (do
      (res, rest) ← scan_digits (digits_of first - 1) msg (pos 0)
      res' ← checked (neg_ℤ res)
      done (res', 2 + (digits_of first - 1), rest))
    else (do
      (res, rest) ← scan_digits (digits_of first) (c ∷ msg) (pos 0)
      done (res, 1 + digits_of first, rest))
