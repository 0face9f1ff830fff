-- ===== src/Client/Parsing/Overruns.antt =====
-- The copies in `parse_command` of src/c_client.c.
use remote_procedure_control.Prelude.{
  ℕ, zero, suc, ◌+◌, ◌*◌, ◌≡◌, ◌≢◌, ◌≤◌, refl, arith, inl, inr, Bool-cases, true, false, leb, ◌==◌,
  List, [], ◌∷◌, ◌++◌, length, length-append, drop, get_elem?, Option, none, some,
}
use remote_procedure_control.Machine.{Exec, done, undefined, Bytes, c_string, strlen, int_max}
use remote_procedure_control.Machine.Cells.{blit_over}
use remote_procedure_control.RpcData.{Malloc, argv_site, command_site, sizeof_rpc_arg}
use remote_procedure_control.RpcData.Deserialize.Accepts.{IsGranting}
use remote_procedure_control.Client.Options.{Check, accepts, rejects, check_command}
use remote_procedure_control.Client.Parsing.{
  exits, strcpy, word, parse_checked, parse_behind, parse_command,
}
use remote_procedure_control.Client.Options.Checks.{check_command_iff, Options-le}

-- A copy of a string into as many bytes as it has characters runs over the end.
strcpy_overrun : (s : Bytes) → strcpy (strlen s) s ≡ undefined
unfolding strcpy strlen
strcpy_overrun s = rw (
    blit_over (c_string s ++ (0 ∷ [])) [] 0 (length (c_string s)) refl
      (omega (arith, length-append (c_string s) (0 ∷ []))))

length-drop : {A : Type 0} (n : ℕ) (xs : List A) → length (drop n xs) ≤ length xs
length-drop zero xs = omega arith
length-drop (suc n) [] = omega arith
length-drop (suc n) (x ∷ xs) = omega (arith, length-drop n xs)

word-ends : (argv : List Bytes) (i : ℕ) → word argv i ≢ Exec.diverges
unfolding word
word-ends argv i = ends (get_elem? argv i)
  where
    ends : (o : Option Bytes) → elim o [ none ↦ undefined | some w ↦ done w ] ≢ Exec.diverges
    ends none e = cc
    ends (some w) e = cc

-- Once the name is to be copied, nothing but undefined behaviour is left.
parse_checked_lem :
    (malloc : Malloc) (argv : List Bytes) (cpt nb : ℕ)
    → IsGranting malloc
    → parse_checked malloc argv cpt nb ≡ undefined
unfolding parse_checked
parse_checked_lem malloc argv cpt nb granting = named (word argv cpt) refl
  where
    named :
        (name : Exec Bytes) → word argv cpt ≡ name → parse_checked malloc argv cpt nb ≡ undefined
    named undefined e = rw e refl
    named Exec.diverges e = absurd (word-ends argv cpt e)
    named (done name) e = elim (Bool-cases (leb (strlen name) int_max)) [
      | inl few ↦
          let short : strlen name ≤ int_max = ground arith in
          rw (e, few, granting command_site (strlen name) (omega arith), strcpy_overrun name) refl
      | inr many ↦ rw (e, many) refl
    ]

-- Accepted words come to undefined behaviour, and the others to an end of this kind.
abbrev pub overruns : {A : Type 0} → A → Check → Exec A
overruns a (accepts n) = undefined
overruns a (rejects position) = done a

pub parse_command_lem :
    (malloc : Malloc) (argv : List Bytes) (cpt : ℕ)
    → IsGranting malloc
    → length argv ≤ int_max
    → parse_command malloc argv cpt ≡ overruns exits (check_command argv cpt)
unfolding parse_command parse_behind
parse_command_lem malloc argv cpt granting few = checks (check_command argv cpt) refl
  where
    checks :
        (c : Check) → check_command argv cpt ≡ c → parse_behind malloc argv cpt c ≡ overruns exits c
    checks (rejects position) e = refl
    checks (accepts zero) e = rw (parse_checked_lem malloc argv cpt 0 granting) refl
    checks (accepts (suc n)) e =
        let (enough, options) = (check_command_iff argv cpt (suc n)).0 e in
        let all : suc n ≤ int_max = omega (arith, Options-le options, length-drop (cpt + 3) argv) in
        let block : malloc argv_site (suc n * sizeof_rpc_arg) ≡ true =
          granting argv_site (suc n * sizeof_rpc_arg) (omega arith) in
        let some_words : (suc n == 0) ≡ false = ground arith in
        rw (some_words, block, parse_checked_lem malloc argv cpt (suc n) granting) refl
