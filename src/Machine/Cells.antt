-- ===== src/Machine/Cells.antt =====
-- A block from `malloc`: cells that hold nothing until they are written. A write outside the block
-- is undefined behaviour.
use remote_procedure_control.Prelude.{
  ℕ, zero, suc, ◌+◌, ◌<◌, ◌≡◌, refl, ap, ◌∙◌, sym, List, [], ◌∷◌, ◌++◌, map, arith, Option, none,
  some, length, replicate, append_assoc, append-nil, map-append, length-append, length-map,
}
use remote_procedure_control.Machine.{Exec, done, undefined, ◌>>=◌, Bytes}

abbrev pub Cells : Type 0
Cells = List (Option ℕ)

-- A new block of `n` bytes.
abbrev pub fresh : ℕ → Cells
fresh n = replicate n none

-- The cells of bytes that have been written.
abbrev pub written : Bytes → Cells
written = map some

-- `block[off] = b`
unfoldable pub poke : ℕ → ℕ → Cells → Exec Cells
poke off b [] = undefined
poke zero b (c ∷ cs) = done (some b ∷ cs)
poke (suc off) b (c ∷ cs) = do cs' ← poke off b cs; done (c ∷ cs')

-- `memcpy(block + off, bytes, length of bytes)`
unfoldable pub blit : ℕ → Bytes → Cells → Exec Cells
blit off [] cells = done cells
blit off (b ∷ bs) cells = do cells' ← poke off b cells; blit (suc off) bs cells'

pub poke_at :
    (pre : Cells) (off b : ℕ) (c : Option ℕ) (post : Cells)
    → length pre ≡ off
    → poke off b (pre ++ (c ∷ post)) ≡ done (pre ++ (some b ∷ post))
unfolding poke
poke_at [] zero b c post h = refl
poke_at [] (suc off) b c post h = absurd (omega arith)
poke_at (x ∷ pre) zero b c post h = absurd (omega arith)
poke_at (x ∷ pre) (suc off) b c post h = rw (poke_at pre off b c post (omega arith))

-- Writing in a row, from the first cell that holds nothing yet.
pub blit_at :
    (bs : Bytes) (pre : Cells) (off n k : ℕ) (post : Cells)
    → length pre ≡ off
    → n ≡ length bs + k
    → blit off bs (pre ++ (replicate n none ++ post))
      ≡ done (pre ++ (written bs ++ (replicate k none ++ post)))
unfolding blit
blit_at [] pre off n k post h e = rw (let e' : n ≡ k = omega arith in e') refl
blit_at (b ∷ bs) pre off zero k post h e = absurd (omega arith)
blit_at (b ∷ bs) pre off (suc n) k post h e =
    let more = replicate n none ++ post in
    rw (poke_at pre off b none more h) (
      ap (blit (suc off) bs) (sym (append_assoc pre (some b ∷ []) more))
      ∙ blit_at bs (pre ++ (some b ∷ [])) (suc off) n k post
          (omega (arith, length-append pre (some b ∷ []))) (omega arith)
      ∙ ap done (append_assoc pre (some b ∷ []) _))

-- The row form: a block whose first bytes are written, and the next ones are to come.
pub blit_row :
    (bs out : Bytes) (cpt n k : ℕ)
    → cpt ≡ length out
    → n ≡ length bs + k
    → blit cpt bs (written out ++ fresh n) ≡ done (written (out ++ bs) ++ fresh k)
blit_row bs out cpt n k h e =
    ap (λ cells. blit cpt bs (written out ++ cells)) (sym (append-nil (fresh n)))
    ∙ blit_at bs (written out) cpt n k [] (omega (arith, length-map out some)) e
    ∙ ap (λ cells. done (written out ++ (written bs ++ cells))) (append-nil (fresh k))
    ∙ ap done (
        sym (append_assoc (written out) (written bs) (fresh k))
        ∙ ap (λ cells. cells ++ fresh k) (sym (map-append some out bs)))

pub replicate-add : (m k : ℕ) → fresh (m + k) ≡ fresh m ++ fresh k
replicate-add zero k = ap fresh (let e : 0 + k ≡ k = omega arith in e)
replicate-add (suc m) k =
    ap fresh (let e : suc m + k ≡ suc (m + k) = omega arith in e)
    ∙ ap (λ cells. none ∷ cells) (replicate-add m k)

poke_end : (pre : Cells) (off b : ℕ) → length pre ≡ off → poke off b (pre ++ []) ≡ undefined
unfolding poke
poke_end [] off b h = refl
poke_end (c ∷ pre) zero b h = absurd (omega arith)
poke_end (c ∷ pre) (suc off) b h = rw (poke_end pre off b (omega arith))

-- A row that is longer than what is left of the block runs over its end.
pub blit_over :
    (bs out : Bytes) (cpt n : ℕ)
    → cpt ≡ length out
    → n < length bs
    → blit cpt bs (written out ++ fresh n) ≡ undefined
unfolding blit
blit_over [] out cpt n h k = absurd (omega arith)
blit_over (b ∷ bs) out cpt zero h k =
    rw (poke_end (written out) cpt b (omega (arith, length-map out some)))
blit_over (b ∷ bs) out cpt (suc n) h k =
    rw (poke_at (written out) cpt b none (fresh n) (omega (arith, length-map out some))) (
      ap (blit (suc cpt) bs) (
        sym (append_assoc (written out) (some b ∷ []) (fresh n))
        ∙ ap (λ cells. cells ++ fresh n) (sym (map-append some out (b ∷ []))))
      ∙ blit_over bs (out ++ (b ∷ [])) (suc cpt) n (omega (arith, length-append out (b ∷ [])))
          (omega arith))
