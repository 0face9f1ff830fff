-- ===== src/RpcData/Integer/Writing.antt =====
-- `serialize_integer` writes the wire form of an integer.
use remote_procedure_control.Prelude.{
  ℕ, zero, suc, ◌+◌, ◌-◌, ◌/◌, ◌%◌, ◌≤◌, ◌≡◌, refl, ap, sym, ◌∙◌, true, false, [], ◌∷◌, ◌++◌, arith,
  ◌==◌, Option, none, some, length, length-append, length-replicate, append_assoc, map-append,
  length-map, replicate, replicate-snoc, Bool-cases, inl, inr, ◌≢◌,
}
use native.Mathlib.Nat.{zero-add}
use native.Mathlib.Numerals.{add-one}
use remote_procedure_control.Prelude.Int.{ℤ, pos, negsuc}
use remote_procedure_control.Machine.{done, Bytes, IsInt, checked}
use remote_procedure_control.Machine.Cells.{Cells, poke, poke_at, written, fresh, replicate-add}
use remote_procedure_control.RpcData.Integer.{write_digits, serialize_magnitude, serialize_integer}
use remote_procedure_control.RpcData.Integer.Decimal.{
  digits_onto, decimal, decimal_ℤ, digits_count, count_digits-add, integer_bytes, length-digits,
  bytes_positive, bytes_negative, int_min,
}

-- One write of the loop, at the last cell of a row that holds nothing yet.
poke_last :
    (d off b : ℕ) (pre post : Cells)
    → length pre + d ≡ off
    → poke off b (pre ++ (replicate (suc d) none ++ post))
      ≡ done (pre ++ (replicate d none ++ (some b ∷ post)))
poke_last d off b pre post h =
    ap (λ cells. poke off b cells)
      (ap (λ cells. pre ++ cells) (replicate-snoc d none post)
        ∙ sym (append_assoc pre (replicate d none) (none ∷ post)))
    ∙ poke_at (pre ++ replicate d none) off b none post (
        omega (arith, length-append pre (replicate d none), length-replicate {A = Option ℕ} d none))
    ∙ ap done (append_assoc pre (replicate d none) (some b ∷ post))

-- The loop fills the cells from the last digit to the first.
write_digits_lem :
    (fuel n d buf size : ℕ) (pre : Cells) (acc : Bytes) (post : Cells)
    → d ≡ digits_count fuel n
    → length pre + d ≡ suc (buf + size)
    → suc buf ≤ length pre
    → write_digits fuel buf n size (pre ++ (replicate d none ++ (written acc ++ post)))
      ≡ done (pre ++ (written (digits_onto fuel n acc) ++ post))
unfolding write_digits digits_onto digits_count
write_digits_lem zero n d buf size pre acc post e h k = rw e refl
write_digits_lem (suc fuel) n zero buf size pre acc post e h k = elim (Bool-cases (n == 0)) [
  | inl t ↦ rw (t, write_digits) refl
  | inr t ↦ absurd (ground arith)
]
write_digits_lem (suc fuel) n (suc d) buf size pre acc post e h k = elim (Bool-cases (n == 0)) [
  | inl t ↦ absurd (ground arith)
  | inr t ↦
      rw
        (
          t,
          write_digits,
          poke_last d (buf + size) (b'0' + n % 10) pre (written acc ++ post) (omega arith),
        )
        (write_digits_lem fuel (n / 10) d buf (size - 1) pre ((b'0' + n % 10) ∷ acc) post
          (ground arith) (omega arith) k)
]

-- The same behind the length byte and the sign, `mid`.
write_digits_mid :
    (n buf size : ℕ) (pre mid post : Cells)
    → length pre ≡ buf
    → suc size ≡ length mid + digits_count 10 n
    → 1 ≤ length mid
    → write_digits 10 buf n size (pre ++ (mid ++ (replicate (digits_count 10 n) none ++ post)))
      ≡ done (pre ++ (mid ++ (written (digits_onto 10 n []) ++ post)))
write_digits_mid n buf size pre mid post h e k =
    let joined = length-append pre mid in
    ap (write_digits 10 buf n size) (sym (append_assoc pre mid _))
    ∙ write_digits_lem 10 n (digits_count 10 n) buf size (pre ++ mid) [] post refl
        (omega (arith, joined)) (omega (arith, joined))
    ∙ ap done (append_assoc pre mid _)

poke_second :
    (pre : Cells) (off b : ℕ) (x y : Option ℕ) (post : Cells)
    → length pre ≡ off
    → poke (off + 1) b (pre ++ (x ∷ y ∷ post)) ≡ done (pre ++ (x ∷ some b ∷ post))
poke_second pre off b x y post h =
    ap (poke (off + 1) b) (sym (append_assoc pre (x ∷ []) (y ∷ post)))
    ∙ poke_at (pre ++ (x ∷ [])) (off + 1) b y post (omega (arith, length-append pre (x ∷ [])))
    ∙ ap done (append_assoc pre (x ∷ []) (some b ∷ post))

magnitude_positive :
    (n buf : ℕ) (pre post : Cells)
    → n ≢ 0
    → length pre ≡ buf
    → serialize_magnitude false n buf (pre ++ (replicate (suc (digits_count 10 n)) none ++ post))
      ≡ done (
        suc (digits_count 10 n),
        pre ++ (some (digits_count 10 n) ∷ (written (digits_onto 10 n []) ++ post)),
      )
unfolding serialize_magnitude
magnitude_positive n buf pre post h e = elim (Bool-cases (n == 0)) [
  | inl t ↦ absurd (ground arith)
  | inr t ↦ rw (
    t,
    count_digits-add 10 n 0,
    zero-add,
    write_digits_mid n buf (digits_count 10 n) pre (none ∷ []) post e (omega arith) (omega arith),
    poke_at pre buf (digits_count 10 n) none (written (digits_onto 10 n []) ++ post) e,
    add-one,
  )
]

magnitude_negative :
    (n buf : ℕ) (pre post : Cells)
    → n ≢ 0
    → length pre ≡ buf
    → serialize_magnitude true n buf
        (pre ++ (replicate (suc (suc (digits_count 10 n))) none ++ post))
      ≡ done (
        suc (suc (digits_count 10 n)),
        pre
            ++ (some (suc (digits_count 10 n))
                ∷ some b'-'
                ∷ (written (digits_onto 10 n []) ++ post)),
      )
unfolding serialize_magnitude
magnitude_negative n buf pre post h e = elim (Bool-cases (n == 0)) [
  | inl t ↦ absurd (ground arith)
  | inr t ↦ rw (
    t,
    count_digits-add 10 n 0,
    zero-add,
    poke_second pre buf b'-' none none (replicate (digits_count 10 n) none ++ post) e,
    write_digits_mid n buf (suc (digits_count 10 n)) pre (none ∷ some b'-' ∷ []) post e
        (omega arith) (omega arith),
    poke_at pre buf (suc (digits_count 10 n)) none
        (some b'-' ∷ (written (digits_onto 10 n []) ++ post)) e,
    add-one,
  )
]

magnitude_zero :
    (buf : ℕ) (pre post : Cells)
    → length pre ≡ buf
    → serialize_magnitude false 0 buf (pre ++ (none ∷ none ∷ post))
      ≡ done (2, pre ++ (some 1 ∷ some b'0' ∷ post))
unfolding serialize_magnitude
magnitude_zero buf pre post e =
    rw (poke_at pre buf 1 none (none ∷ post) e, poke_second pre buf b'0' (some 1) none post e)

-- For every `int` but the least, into a block with room behind `buf`, `serialize_integer` writes
-- the wire form there and nothing else, and returns how many bytes that is.
pub serialize_integer_lem :
    (i : ℤ) (buf : ℕ) (pre post : Cells)
    → IsInt i
    → i ≢ int_min
    → length pre ≡ buf
    → serialize_integer i buf (pre ++ (replicate (length (integer_bytes i)) none ++ post))
      ≡ done (length (integer_bytes i), pre ++ (written (integer_bytes i) ++ post))
unfolding serialize_integer
serialize_integer_lem (pos zero) buf pre post hi hm e =
    unfold integer_bytes decimal_ℤ decimal in magnitude_zero buf pre post e
serialize_integer_lem (pos (suc n)) buf pre post hi hm e =
    rw (bytes_positive n, length-digits (suc n))
      (magnitude_positive (suc n) buf pre post (ground arith) e)
serialize_integer_lem (negsuc n) buf pre post hi hm e =
    let fits : checked (pos (suc n)) ≡ done (pos (suc n)) = ground arith in
    rw (bytes_negative n, length-digits (suc n), fits)
      (magnitude_negative (suc n) buf pre post (ground arith) e)

-- The row form of the same.
pub serialize_integer_row :
    (i : ℤ) (out : Bytes) (cpt n k : ℕ)
    → IsInt i
    → i ≢ int_min
    → cpt ≡ length out
    → n ≡ length (integer_bytes i) + k
    → serialize_integer i cpt (written out ++ fresh n)
      ≡ done (length (integer_bytes i), written (out ++ integer_bytes i) ++ fresh k)
serialize_integer_row i out cpt n k hi hm h e =
    let bs = integer_bytes i in
    ap (λ cells. serialize_integer i cpt (written out ++ cells))
      (ap fresh e ∙ replicate-add (length bs) k)
    ∙ serialize_integer_lem i cpt (written out) (fresh k) hi hm (omega (arith, length-map out some))
    ∙ ap (λ cells. done (length bs, cells))
        (sym (append_assoc (written out) (written bs) (fresh k))
          ∙ ap (λ cells. cells ++ fresh k) (sym (map-append some out bs)))
