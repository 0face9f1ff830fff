-- ===== src/Specials/Writes.antt =====
-- Texts that are written one behind the other into a block.
use remote_procedure_control.Prelude.{
  ℕ, zero, suc, ◌+◌, ◌≡◌, ◌≤◌, refl, ap, sym, ◌∙◌, arith, [], ◌∷◌, ◌++◌, some, length,
  length-append, length-map, append_assoc, append-nil, map-append,
}
use remote_procedure_control.Machine.{Exec, done, ◌>>=◌, Bytes, read_bytes-append}
use remote_procedure_control.Machine.Cells.{Cells, written, poke_at, blit}
use remote_procedure_control.Specials.{Place, ◌>=>◌, put, put_array}

-- The text so far, at the counter, and room for `n` bytes more, whatever they hold.
pub record At (out : Bytes) (n : ℕ) (s : Place) : Type 0 where
  pub rest : Cells
  pub place : s ≡ (length out, written out ++ rest)
  pub room : length rest ≡ n

-- The step ends with that text, and that room.
abbrev pub Reaches : Exec Place → Bytes → ℕ → Type 0
Reaches m out n = (s : Place) × (m ≡ done s) × At out n s

-- The step appends the text, where there is room for it and one byte more.
abbrev pub Writes : (Place → Exec Place) → Bytes → Type 0
Writes f bs =
    (out : Bytes) (n : ℕ) (s : Place)
    → 1 ≤ n
    → At out (length bs + n) s
    → Reaches (f s) (out ++ bs) n

pub Writes-then :
    (f g : Place → Exec Place) (a b : Bytes) → Writes f a → Writes g b → Writes (f >=> g) (a ++ b)
Writes-then f g a b hf hg out n s pos_n at_s =
    let sum = length-append a b in
    let (s1, e1, at1) = hf out (length b + n) s (omega arith) (
      rw (let same : length a + (length b + n) ≡ length (a ++ b) + n = omega (arith, sum) in same)
        at_s) in
    let (s2, e2, at2) = hg (out ++ a) n s1 pos_n at1 in
    (s2, ap (λ m. m >>= g) e1 ∙ e2, rw (← append_assoc out a b) at2)

pub Writes-done : Writes (λ s. done s) []
Writes-done out n s pos_n at_s =
    let kept : At out n s = record {
      rest = at_s.rest;
      place = at_s.place;
      room = at_s.room ∙ omega arith;
    } in
    (s, refl, rw (append-nil out) kept)

split :
    (n k : ℕ) (cells : Cells)
    → length cells ≡ n + k
    → (front : Cells) × (back : Cells) × (cells ≡ front ++ back)
      × (length front ≡ n)
      × (length back ≡ k)
split zero k cells h = ([], cells, refl, refl, omega arith)
split (suc n) k [] h = absurd (omega arith)
split (suc n) k (c ∷ cells) h =
    let (front, back, e, lf, lb) = split n k cells (omega arith) in
    (c ∷ front, back, ap (λ l. c ∷ l) e, omega arith, lb)

-- Writing over cells that hold anything.
blit_over_any :
    (bs : Bytes) (pre front back : Cells) (cpt : ℕ)
    → cpt ≡ length pre
    → length front ≡ length bs
    → blit cpt bs (pre ++ (front ++ back)) ≡ done (pre ++ (written bs ++ back))
unfolding blit
blit_over_any [] pre [] back cpt h e = refl
blit_over_any [] pre (c ∷ front) back cpt h e = absurd (omega arith)
blit_over_any (b ∷ bs) pre [] back cpt h e = absurd (omega arith)
blit_over_any (b ∷ bs) pre (c ∷ front) back cpt h e =
    rw (poke_at pre cpt b c (front ++ back) (omega arith)) (
      ap (blit (suc cpt) bs) (sym (append_assoc pre (some b ∷ []) (front ++ back)))
      ∙ blit_over_any bs (pre ++ (some b ∷ [])) front back (suc cpt)
          (omega (arith, length-append pre (some b ∷ []))) (omega arith)
      ∙ ap done (append_assoc pre (some b ∷ []) (written bs ++ back)))

-- Writing behind a text.
pub blit_behind :
    (bs out : Bytes) (n : ℕ) (rest : Cells)
    → length rest ≡ length bs + n
    → (back : Cells) × (blit (length out) bs (written out ++ rest)
        ≡ done (written (out ++ bs) ++ back))
      × (length back ≡ n)
blit_behind bs out n rest h =
    let (front, back, e, lf, lb) = split (length bs) n rest h in
    (
      back,
      ap (λ cells. blit (length out) bs (written out ++ cells)) e
          ∙ blit_over_any bs (written out) front back (length out)
              (omega (arith, length-map out some)) lf
          ∙ ap done (
              sym (append_assoc (written out) (written bs) back)
              ∙ ap (λ cells. cells ++ back) (sym (map-append some out bs))),
      lb,
    )

pub put-Writes : (bs : Bytes) → Writes (put bs) bs
unfolding put
put-Writes bs out n s pos_n at_s =
    let (back, e, l) = blit_behind bs out n at_s.rest at_s.room in
    (
      (length out + length bs, written (out ++ bs) ++ back),
      ap (put bs) at_s.place ∙ ap (λ m. m >>= λ cells. done (length out + length bs, cells)) e,
      record {
        rest = back;
        place = ap (λ k. (k, written (out ++ bs) ++ back)) (sym (length-append out bs));
        room = l;
      },
    )

pub put_array-Writes : (k : ℕ) (bs : Bytes) → k ≡ length bs → Writes (put_array k bs) bs
unfolding put_array
put_array-Writes k bs h out n s pos_n at_s =
    rw (read_bytes-append k bs (0 ∷ []) h) (put-Writes bs out n s pos_n at_s)
