-- ===== src/Specials/Moves.antt =====
-- How far the writes of `generate_documentation` of src/s_specials.c move the counter, whatever the
-- texts and the block are.
use remote_procedure_control.Prelude.{
  ℕ, zero, suc, ◌+◌, ◌≡◌, ◌⊎◌, inl, inr, refl, ap, ◌∙◌, arith, List, [], ◌∷◌, ◌++◌, length, ◌==◌,
  if◌then◌else◌,
}
use remote_procedure_control.Prelude.Int.{ℤ, pos, negsuc}
use remote_procedure_control.Machine.{
  Exec, done, undefined, ◌>>=◌, Bytes, read_bytes, >>=-eq-done, done-injective,
}
use remote_procedure_control.Machine.Cells.{Cells, poke, blit}
use remote_procedure_control.RpcData.Integer.Decimal.{decimal_ℤ}
use remote_procedure_control.Specials.{
  hd_param_types, Place, ◌>=>◌, put, put_char, put_array, put_number, put_type, put_types,
  put_params, int_size, type_size, get_type, types_size, params_size,
}

-- The outcome is undefined, or the counter has moved by `n` in the same block.
abbrev pub Moved : Exec Place → Place → ℕ → Type 0
Moved m s n =
    (m ≡ undefined) ⊎ ((s' : Place) × (m ≡ done s') × (s'.0 ≡ s.0 + n) × (length s'.1 ≡ length s.1))

abbrev pub Moves : (Place → Exec Place) → ℕ → Type 0
Moves f n = (s : Place) → Moved (f s) s n

pub Moves-then :
    (f g : Place → Exec Place) (a b : ℕ) → Moves f a → Moves g b → Moves (f >=> g) (a + b)
Moves-then f g a b hf hg s = first (hf s)
  where
    second :
        (s1 : Place)
        → f s ≡ done s1
        → s1.0 ≡ s.0 + a
        → length s1.1 ≡ length s.1
        → Moved (g s1) s1 b
        → Moved ((f >=> g) s) s (a + b)
    second s1 e c l (inl u) = inl (rw e u)
    second s1 e c l (inr (s2, e2, c2, l2)) = inr (s2, rw e e2, omega arith, l2 ∙ l)

    first : Moved (f s) s a → Moved ((f >=> g) s) s (a + b)
    first (inl u) = inl (rw u refl)
    first (inr (s1, e, c, l)) = second s1 e c l (hg s1)

pub Moves-eq : (f : Place → Exec Place) (a b : ℕ) → Moves f a → a ≡ b → Moves f b
Moves-eq f a b h e = rw (← e) h

pub Moves-done : Moves (λ s. done s) 0
Moves-done s = inr (s, refl, omega arith, refl)

-- A write keeps the size of the block.
abbrev Keeps : Exec Cells → ℕ → Type 0
Keeps m n = (m ≡ undefined) ⊎ ((cells : Cells) × (m ≡ done cells) × (length cells ≡ n))

poke-Keeps : (off b : ℕ) (cells : Cells) → Keeps (poke off b cells) (length cells)
unfolding poke
poke-Keeps zero b [] = inl refl
poke-Keeps (suc off) b [] = inl refl
poke-Keeps zero b (c ∷ cells) = inr (_, refl, refl)
poke-Keeps (suc off) b (c ∷ cells) = further (poke-Keeps off b cells)
  where
    further :
        Keeps (poke off b cells) (length cells)
        → Keeps (poke off b cells >>= λ rest. done (c ∷ rest)) (suc (length cells))
    further (inl u) = inl (rw u refl)
    further (inr (rest, e, l)) = inr (c ∷ rest, rw e refl, ap suc l)

blit-Keeps : (bs : Bytes) (off : ℕ) (cells : Cells) → Keeps (blit off bs cells) (length cells)
unfolding blit
blit-Keeps [] off cells = inr (cells, refl, refl)
blit-Keeps (b ∷ bs) off cells =
    further (λ rest. blit-Keeps bs (suc off) rest) (poke-Keeps off b cells)
  where
    more :
        (rest : Cells)
        → length rest ≡ length cells
        → Keeps (blit (suc off) bs rest) (length rest)
        → Keeps (blit (suc off) bs rest) (length cells)
    more rest l (inl u) = inl u
    more rest l (inr (end, e, k)) = inr (end, e, k ∙ l)

    further :
        ((rest : Cells) → Keeps (blit (suc off) bs rest) (length rest))
        → Keeps (poke off b cells) (length cells)
        → Keeps (poke off b cells >>= blit (suc off) bs) (length cells)
    further ih (inl u) = inl (rw u refl)
    further ih (inr (rest, e, l)) = rw e (more rest l (ih rest))

-- A write of bytes that are counted, all of them or not.
blit-Moves :
    (bs : Bytes) (n : ℕ) → Moves (λ s. blit s.0 bs s.1 >>= λ cells. done (s.0 + n, cells)) n
blit-Moves bs n s = moved (blit-Keeps bs s.0 s.1)
  where
    moved :
        Keeps (blit s.0 bs s.1) (length s.1)
        → Moved (blit s.0 bs s.1 >>= λ cells. done (s.0 + n, cells)) s n
    moved (inl u) = inl (rw u refl)
    moved (inr (cells, e, l)) = inr ((s.0 + n, cells), rw e refl, refl, l)

pub put-Moves : (bs : Bytes) → Moves (put bs) (length bs)
unfolding put
put-Moves bs (cpt, cells) = blit-Moves bs (length bs) (cpt, cells)

pub put_number-Moves : (i : ℤ) → Moves (put_number i) (int_size i)
unfolding put_number
put_number-Moves i (cpt, cells) = blit-Moves (decimal_ℤ i ++ (0 ∷ [])) (int_size i) (cpt, cells)

read_bytes-length :
    (n : ℕ) (src : Bytes)
    → (read_bytes n src ≡ undefined)
      ⊎ ((bs : Bytes) × (rest : Bytes) × (read_bytes n src ≡ done (bs, rest)) × (length bs ≡ n))
unfolding read_bytes
read_bytes-length zero src = inr ([], src, refl, refl)
read_bytes-length (suc n) [] = inl refl
read_bytes-length (suc n) (b ∷ src) = further (read_bytes-length n src)
  where
    further :
        (read_bytes n src ≡ undefined)
          ⊎ ((bs : Bytes) × (rest : Bytes) × (read_bytes n src ≡ done (bs, rest)) × (length bs ≡ n))
        → (read_bytes (suc n) (b ∷ src) ≡ undefined)
          ⊎ ((bs : Bytes) × (rest : Bytes) × (read_bytes (suc n) (b ∷ src) ≡ done (bs, rest))
              × (length bs ≡ suc n))
    further (inl u) = inl (rw u refl)
    further (inr (bs, rest, e, l)) = inr (b ∷ bs, rest, rw e refl, ap suc l)

pub put_array-Moves : (n : ℕ) (array : Bytes) → Moves (put_array n array) n
unfolding put_array
put_array-Moves n array s = read (read_bytes-length n (array ++ (0 ∷ [])))
  where
    read :
        (read_bytes n (array ++ (0 ∷ [])) ≡ undefined)
          ⊎ ((bs : Bytes) × (rest : Bytes) × (read_bytes n (array ++ (0 ∷ [])) ≡ done (bs, rest))
              × (length bs ≡ n))
        → Moved (read_bytes n (array ++ (0 ∷ [])) >>= λ (bytes, _). put bytes s) s n
    read (inl u) = inl (rw u refl)
    read (inr (bs, rest, e, l)) =
        let moved : Moved (put bs s) s n = rw l at (put-Moves bs s) in rw e moved

pub put_type-Moves : (typ : ℕ) → Moves (put_type typ) (type_size typ)
unfolding put_type
put_type-Moves typ = put_array-Moves (type_size typ) (get_type typ)

put_types-Moves :
    (rounds : ℕ) (argv : List ℕ) (size : ℕ)
    → types_size rounds argv ≡ done size
    → Moves (put_types rounds argv) size
unfolding put_types types_size
put_types-Moves zero argv size h =
    let none_left : 0 ≡ size = done-injective _ _ h in rw (← none_left) Moves-done
put_types-Moves (suc rounds) [] size h = absurd (cc)
put_types-Moves (suc rounds) (typ ∷ argv) size h =
    let (more, e, k) = >>=-eq-done (types_size rounds argv) _ h in
    let sum : type_size typ + (1 + more) ≡ size = omega (arith, done-injective _ _ k) in
    let sign = if rounds == 0 then 10 else b',' in
    rw (← sum) (
      Moves-then (put_type typ) (put_char sign >=> put_types rounds argv) (type_size typ) (1 + more)
        (put_type-Moves typ)
        (Moves-then (put_char sign) (put_types rounds argv) 1 more (put-Moves (sign ∷ []))
          (put_types-Moves rounds argv more e)))

pub put_params-Moves :
    (argc : ℤ) (argv : List ℕ) (size : ℕ)
    → params_size argc argv ≡ done size
    → Moves (put_params argc argv) size
unfolding put_params params_size
put_params-Moves (pos zero) argv size h =
    let none_left : 0 ≡ size = done-injective _ _ h in rw (← none_left) Moves-done
put_params-Moves (negsuc k) argv size h =
    let none_left : 0 ≡ size = done-injective _ _ h in rw (← none_left) Moves-done
put_params-Moves (pos (suc n)) argv size h =
    let (types, k, l) = >>=-eq-done (types_size (suc n) argv) _ h in
    let sum : length hd_param_types + (types + 1) ≡ size = omega (arith, done-injective _ _ l) in
    rw (← sum) (
      Moves-then (put hd_param_types) (put_types (suc n) argv >=> put_char 10)
        (length hd_param_types) (types + 1) (put-Moves hd_param_types)
        (Moves-then (put_types (suc n) argv) (put_char 10) types 1
          (put_types-Moves (suc n) argv types k) (put-Moves (10 ∷ []))))
