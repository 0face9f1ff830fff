-- ===== src/Client/Options/Checks.antt =====
-- Which words `check_command` of src/c_client.c accepts.
use remote_procedure_control.Prelude.{
  ℕ, suc, ◌+◌, ap, ◌≡◌, ◌<◌, ◌≤◌, ◌↔◌, refl, arith, inl, inr, Bool-cases, Bool, true, false, not,
  leb, ◌==◌, if◌then◌else◌, List, [], ◌∷◌, length, drop,
}
use remote_procedure_control.Machine.{Bytes, str_eq, c_string}
use remote_procedure_control.RpcData.{rpc_ty_void}
use remote_procedure_control.Client.Options.{
  minus_str, is_type_command, returned_type, Check, accepts, rejects, check_words, check_command,
}

-- The words behind the place of the type of the result, and the number of arguments that they stand
-- for: a type and a value for each argument, and at the end there may be a type of no value alone.
pub data Options : List Bytes → ℕ → Type 0 where
  no_option : Options [] 0
  no_value :
      (typ : Bytes)
      → is_type_command typ ≡ true
      → returned_type typ ≡ rpc_ty_void
      → Options (typ ∷ []) 1
  option :
      (typ value : Bytes) {words : List Bytes} {n : ℕ}
      → is_type_command typ ≡ true
      → Options words n
      → Options (typ ∷ value ∷ words) (suc n)

pub str_option : is_type_command minus_str ≡ true
unfolding is_type_command str_eq c_string
str_option = refl

Accepted : Check → ℕ → List Bytes → Type 0
Accepted (accepts n) nb words = (k : ℕ) × (n ≡ nb + k) × Options words k
Accepted (rejects position) nb words = Unit {0}

check_words_sound : (words : List Bytes) (cpt nb : ℕ) → Accepted (check_words cpt words nb) nb words
unfolding check_words Accepted
check_words_sound [] cpt nb = (0, omega arith, no_option)
check_words_sound (typ ∷ []) cpt nb =
    last (is_type_command typ) (returned_type typ == rpc_ty_void) refl refl
  where
    last :
        (b v : Bool)
        → is_type_command typ ≡ b
        → (returned_type typ == rpc_ty_void) ≡ v
        → Accepted
            (if not b then rejects cpt else if not v then rejects (cpt + 1) else accepts (nb + 1))
            nb
            (typ ∷ [])
    last false v e f = tt
    last true false e f = tt
    last true true e f = (1, refl, no_value typ e (ground arith))
check_words_sound (typ ∷ value ∷ words) cpt nb =
    next (is_type_command typ) (check_words (cpt + 2) words (nb + 1)) refl
      (check_words_sound words (cpt + 2) (nb + 1))
  where
    next :
        (b : Bool) (rest : Check)
        → is_type_command typ ≡ b
        → Accepted rest (nb + 1) words
        → Accepted (if not b then rejects cpt else rest) nb (typ ∷ value ∷ words)
    next false rest e h = tt
    next true (rejects position) e h = tt
    next true (accepts n) e (k, f, o) = (suc k, omega arith, option typ value e o)

check_words_complete :
    {words : List Bytes} {n : ℕ} (cpt nb : ℕ)
    → Options words n
    → check_words cpt words nb ≡ accepts (nb + n)
unfolding check_words
check_words_complete cpt nb no_option = ap accepts (omega arith)
check_words_complete cpt nb (no_value typ t v) = rw (t, v) refl
check_words_complete cpt nb (option typ value {words} {n} t o) =
    rw (t, check_words_complete (cpt + 2) (nb + 1) o)
      (ap accepts (let e : nb + 1 + n ≡ nb + suc n = omega arith in e))

pub Options-le : {words : List Bytes} {n : ℕ} → Options words n → n ≤ length words
Options-le no_option = omega arith
Options-le (no_value typ t v) = omega arith
Options-le (option typ value t o) = omega (arith, Options-le o)

-- `check_command` accepts n arguments exactly when at least two words follow the name of the command,
-- whatever they are, and the words behind those two are options for n arguments: n pairs of a type
-- and a word, where the word may be missing from the last pair if its type is `void`. Every other
-- `-void` is paired with the next word as well.
pub check_command_iff :
    (argv : List Bytes) (cpt n : ℕ)
    → (check_command argv cpt ≡ accepts n)
      ↔ ((cpt + 2 < length argv) × Options (drop (cpt + 3) argv) n)
unfolding check_command Accepted
check_command_iff argv cpt n = (forth, back)
  where
    words : List Bytes
    words = drop (cpt + 3) argv

    sound : (c : Check) → Accepted c 0 words → c ≡ accepts n → Options words n
    sound (rejects position) h e = cc
    sound (accepts m) (k, f, o) e =
        let injective : m ≡ n = cc in let same : k ≡ n = omega arith in rw same at o

    forth : check_command argv cpt ≡ accepts n → (cpt + 2 < length argv) × Options words n
    forth e = elim (Bool-cases (leb (length argv) (cpt + 2))) [
      | inl few ↦ absurd (let bad : rejects (length argv) ≡ accepts n = rw few at e in cc)
      | inr many ↦
          let checked : check_words (cpt + 3) words 0 ≡ accepts n = rw many at e in
          (
            ground arith,
            sound (check_words (cpt + 3) words 0) (check_words_sound words (cpt + 3) 0) checked,
          )
    ]

    back : (cpt + 2 < length argv) × Options words n → check_command argv cpt ≡ accepts n
    back (h, o) =
        let few : leb (length argv) (cpt + 2) ≡ false = ground arith in
        rw (few, check_words_complete (cpt + 3) 0 o) (ap accepts (omega arith))
