-- ===== src/System/Distinct.antt =====
-- Lists of different numbers, such as the children of src/s_server.c have.
use remote_procedure_control.Prelude.{ℕ, ◌≢◌, sym, List, [], ◌∷◌, ◌++◌, All}

abbrev pub Distinct : List ℕ → Type 0
Distinct [] = Unit {0}
Distinct (n ∷ ns) = All (λ m. n ≢ m) ns × Distinct ns

pub All-imp : {P Q : ℕ → Type 0} → ((n : ℕ) → P n → Q n) → (ns : List ℕ) → All P ns → All Q ns
All-imp f [] h = tt
All-imp f (n ∷ ns) (h, hs) = (f n h, All-imp f ns hs)

-- A number in the middle of a list of distinct ones.
pub All-without :
    (P : ℕ → Type 0) (ns : List ℕ) (n : ℕ) (ms : List ℕ) → All P (ns ++ (n ∷ ms)) → All P (ns ++ ms)
All-without P [] n ms (h, hs) = hs
All-without P (k ∷ ns) n ms (h, hs) = (h, All-without P ns n ms hs)

pub All-middle : (P : ℕ → Type 0) (ns : List ℕ) (n : ℕ) (ms : List ℕ) → All P (ns ++ (n ∷ ms)) → P n
All-middle P [] n ms (h, hs) = h
All-middle P (k ∷ ns) n ms (h, hs) = All-middle P ns n ms hs

pub Distinct-without :
    (ns : List ℕ) (n : ℕ) (ms : List ℕ) → Distinct (ns ++ (n ∷ ms)) → Distinct (ns ++ ms)
Distinct-without [] n ms (h, hs) = hs
Distinct-without (k ∷ ns) n ms (h, hs) = (All-without _ ns n ms h, Distinct-without ns n ms hs)

pub Distinct-middle :
    (ns : List ℕ) (n : ℕ) (ms : List ℕ) → Distinct (ns ++ (n ∷ ms)) → All (λ m. n ≢ m) (ns ++ ms)
Distinct-middle [] n ms (h, hs) = h
Distinct-middle (k ∷ ns) n ms (h, hs) =
    ((λ e. All-middle (λ m. k ≢ m) ns n ms h (sym e)), Distinct-middle ns n ms hs)
