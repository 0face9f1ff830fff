-- ===== src/Specials/Exact.antt =====
-- The parts of `generate_documentation`: the types and the number of parameters.
use remote_procedure_control.Prelude.{
  ℕ, zero, suc, ◌+◌, ◌-◌, ◌≡◌, ◌≤◌, refl, ap, sym, ◌∙◌, arith, ◌==◌, List, [], ◌∷◌, ◌++◌, some,
  length, length-append, append_assoc, map-append, length-map, false, ◌≤◌,
}
use remote_procedure_control.Prelude.Int.{pos}
use remote_procedure_control.Machine.{done, Bytes}
use remote_procedure_control.Machine.Cells.{Cells, written}
use remote_procedure_control.RpcData.Integer.{count_digits}
use remote_procedure_control.RpcData.Integer.Decimal.{
  decimal, decimal-suc, digits_count, decimal_ℤ, length-digits, count_digits-add,
}
use remote_procedure_control.Specials.{
  hd_param_types, Place, ◌>=>◌, put, put_char, put_number, put_type, put_types, put_params,
  int_size, type_size, get_type,
}
use remote_procedure_control.Specials.Text.{types_text, params_text, number_text}
use remote_procedure_control.Specials.Writes.{
  At, Writes, Writes-then, Writes-done, blit_behind, put-Writes, put_array-Writes,
}

pub type_size_lem : (typ : ℕ) → type_size typ ≡ length (get_type typ)
unfolding type_size get_type
type_size_lem typ = ground arith

pub put_type-Writes : (typ : ℕ) → Writes (put_type typ) (get_type typ)
unfolding put_type
put_type-Writes typ = put_array-Writes (type_size typ) (get_type typ) (type_size_lem typ)

put_types-Writes : (types : List ℕ) → Writes (put_types (length types) types) (types_text types)
unfolding put_types types_text
put_types-Writes [] = Writes-done
put_types-Writes (t ∷ []) =
    Writes-then (put_type t) (put_char 10 >=> (λ s. done s)) (get_type t) ((10 ∷ []) ++ [])
      (put_type-Writes t)
      (Writes-then (put_char 10) (λ s. done s) (10 ∷ []) [] (put-Writes (10 ∷ [])) Writes-done)
put_types-Writes (t ∷ u ∷ types) =
    let comma : (suc (length types) == 0) ≡ false = ground arith in
    rw comma (
      Writes-then (put_type t) (put_char b',' >=> put_types (suc (length types)) (u ∷ types))
        (get_type t) ((b',' ∷ []) ++ types_text (u ∷ types)) (put_type-Writes t)
        (Writes-then (put_char b',') (put_types (suc (length types)) (u ∷ types)) (b',' ∷ [])
          (types_text (u ∷ types)) (put-Writes (b',' ∷ [])) (put_types-Writes (u ∷ types))))

pub put_params-Writes :
    (types : List ℕ) → Writes (put_params (pos (length types)) types) (params_text types)
unfolding put_params params_text
put_params-Writes [] = Writes-done
put_params-Writes (t ∷ types) =
    Writes-then (put hd_param_types) (put_types (suc (length types)) (t ∷ types) >=> put_char 10)
      hd_param_types (types_text (t ∷ types) ++ (10 ∷ [])) (put-Writes hd_param_types)
      (Writes-then (put_types (suc (length types)) (t ∷ types)) (put_char 10)
        (types_text (t ∷ types)) (10 ∷ []) (put_types-Writes (t ∷ types)) (put-Writes (10 ∷ [])))

pub int_size_lem : (n : ℕ) → int_size (pos n) ≡ length (number_text n)
unfolding int_size number_text
int_size_lem zero = unfold digits_count in count_digits-add 10 0 0
int_size_lem (suc n) =
    let same : suc n + 0 ≡ suc n = omega arith in
    ap (λ k. count_digits 10 k 0) same
    ∙ omega (arith, count_digits-add 10 (suc n) 0, length-digits (suc n), ap length (decimal-suc n))

-- The last part of a text that is written can be taken for room.
regroup :
    (out a b : Bytes) (back : Cells)
    → written (out ++ (a ++ b)) ++ back ≡ written (out ++ a) ++ (written b ++ back)
regroup out a b back =
    ap (λ bytes. written bytes ++ back) (sym (append_assoc out a b))
    ∙ ap (λ cells. cells ++ back) (map-append some (out ++ a) b)
    ∙ append_assoc (written (out ++ a)) (written b) back

-- The digits, less the zero that is not counted, and the zero byte behind them.
uncounted : ℕ → Bytes
uncounted zero = b'0' ∷ 0 ∷ []
uncounted (suc n) = 0 ∷ []

printed : (n : ℕ) → decimal_ℤ (pos n) ++ (0 ∷ []) ≡ number_text n ++ uncounted n
unfolding decimal_ℤ number_text uncounted
printed zero = unfold decimal in refl
printed (suc n) = refl

length-uncounted : (n : ℕ) → (1 ≤ length (uncounted n)) × (length (uncounted n) ≤ 2)
unfolding uncounted
length-uncounted zero = omega arith
length-uncounted (suc n) = omega arith

pub put_number-Writes :
    (n : ℕ) → Writes (put_number (pos n) >=> put_char 10) (number_text n ++ (10 ∷ []))
unfolding put_number
put_number-Writes n out m s pos_m at_s =
    let bytes = number_text n ++ uncounted n in
    let over = length-uncounted n in
    let k = 1 + m - length (uncounted n) in
    let sum = length-append (number_text n) (10 ∷ []) in
    let sum' = length-append (number_text n) (uncounted n) in
    let (back, e, l) =
      blit_behind bytes out k at_s.rest (at_s.room ∙ omega (arith, sum, sum', over)) in
    let out' = out ++ number_text n in
    let s' : Place = (length out', written out' ++ (written (uncounted n) ++ back)) in
    let counted : length out + int_size (pos n) ≡ length out' =
      omega (arith, int_size_lem n, length-append out (number_text n)) in
    let at' : At out' (1 + m) s' = record {
      rest = written (uncounted n) ++ back;
      place = refl;
      room = omega (
        arith,
        length-append (written (uncounted n)) back,
        length-map (uncounted n) some,
        l,
        over,
      );
    } in
    let (s'', e'', at'') = put-Writes (10 ∷ []) out' m s' pos_m at' in
    (
      s'',
      rw (at_s.place, printed n, e, counted, regroup out (number_text n) (uncounted n) back) e'',
      rw (← append_assoc out (number_text n) (10 ∷ [])) at'',
    )
