-- ===== src/Server/Typed.antt =====
-- The calls of the registered functions are well typed, whatever bytes the child process receives.
use remote_procedure_control.Prelude.{
  ℕ, suc, ◌≡◌, refl, ap, ◌∙◌, true, List, [], ◌∷◌, arith, if◌then◌else◌, Option, none, some, length,
  All, Bool-cases, inl, inr,
}
use remote_procedure_control.Prelude.Int.{ℤ, pos, negsuc, pos_part, eqb_ℤ}
use remote_procedure_control.Machine.{Exec, done, undefined, ◌>>=◌, >>=-eq-done, Bytes}
use remote_procedure_control.Machine.Words.{read_int}
use remote_procedure_control.RpcData.{Message, Pointee, RpcArg}
use remote_procedure_control.RpcData.Deserialize.{deserialize_message}
use remote_procedure_control.RpcData.Deserialize.Typed.{
  HasType, IsTyped, IsArgv, GivesMessage, deserialize_message-GivesMessage,
}
use remote_procedure_control.Mapper.{Function}
use remote_procedure_control.Server.Verification.{eqb_ℤ_iff}
use remote_procedure_control.Server.{
  Platform, goes, ends, Process, returns, dropped, read_received, allocate_received, read_msg,
  same_types, verify_types, verification, pointees, call_arguments,
}

abbrev GivesArgv : Process Message → Type 0
GivesArgv (done (goes m)) = IsArgv m.argc m.argv
GivesArgv _ = Unit {0}

received-GivesArgv :
    (m : Exec (ℤ × Option Message))
    → GivesMessage m
    → GivesArgv (
        m >>= λ (code, msg).
        if eqb_ℤ code (negsuc 0)
        then done (ends dropped)
        else (elim msg [ none ↦ undefined | some m ↦ returns m ]))
received-GivesArgv (done (code, none)) g = ground arith
received-GivesArgv (done (code, some msg)) g = ground arith
received-GivesArgv undefined g = tt
received-GivesArgv Exec.diverges g = tt

read_received-GivesArgv :
    (p : Platform) (size : ℤ) (body : Option Bytes) → GivesArgv (read_received p size body)
unfolding read_received
read_received-GivesArgv p size none = tt
read_received-GivesArgv p size (some received) =
    received-GivesArgv (deserialize_message p.reading true size (some received))
      (deserialize_message-GivesMessage p.reading size received)

allocate_received-GivesArgv :
    (p : Platform) (size : ℤ) (body : Option Bytes) → GivesArgv (allocate_received p size body)
unfolding allocate_received
allocate_received-GivesArgv p (negsuc n) body = tt
allocate_received-GivesArgv p (pos n) body = ground (arith, read_received-GivesArgv p (pos n) body)

read_msg-GivesArgv :
    (p : Platform) (size_bytes body : Option Bytes) → GivesArgv (read_msg p size_bytes body)
unfolding read_msg
read_msg-GivesArgv p none body = tt
read_msg-GivesArgv p (some size_bytes) body = sized (read_int size_bytes)
  where
    sized : (m : Exec (ℤ × Bytes)) → GivesArgv (m >>= λ (size, _). allocate_received p size body)
    sized (done (size, rest)) = allocate_received-GivesArgv p size body
    sized undefined = tt
    sized Exec.diverges = tt

-- The data that a function is called with, against the types that it declares.
abbrev pub Matches : List ℕ → List Pointee → Type 0
Matches [] [] = Unit {0}
Matches (t ∷ types) (p ∷ ps) = HasType t p × Matches types ps
Matches _ _ = ⊥

same_types_cons :
    (t : ℕ) (types : List ℕ) (a : RpcArg) (args : List RpcArg)
    → same_types (suc (length types)) (t ∷ types) (a ∷ args) ≡ done true
    → (a.typ ≡ t) × (same_types (length types) types args ≡ done true)
unfolding same_types
same_types_cons t types a args s = ground arith

same_types-Matches :
    (types : List ℕ) (args : List RpcArg)
    → length args ≡ length types
    → All IsTyped args
    → same_types (length types) types args ≡ done true
    → (ps : List Pointee) × (pointees (length types) args ≡ done ps) × Matches types ps
unfolding same_types pointees
same_types-Matches [] [] e h s = ([], refl, tt)
same_types-Matches [] (a ∷ args) e h s = absurd (omega arith)
same_types-Matches (t ∷ types) [] e h s = absurd (omega arith)
same_types-Matches (t ∷ types) (a ∷ args) e (h, hs) s =
    let (same, rest) = same_types_cons t types a args s in
    let (ps, given, matches) = same_types-Matches types args (omega arith) hs rest in
    (a.pointee ∷ ps, rw given, (rw same at h, matches))

-- What the verification has found when it sends no error.
record Verified {F : Type 0} (f : Function F) (m : Message) : Type 0 where
  pub counted : f.argc ≡ m.argc
  pub same : verify_types (pos_part f.argc) f.argv m.argv ≡ done true
  pub returned : f.return_type ≡ m.return_type

verification-none :
    {F : Type 0} (f : Function F) (m : Message) → verification f m ≡ done none → Verified f m
unfolding verification
verification-none f m h = elim (Bool-cases (eqb_ℤ f.argc m.argc)) [
  | inl number ↦
      let (same, e, g) =
        >>=-eq-done (verify_types (pos_part f.argc) f.argv m.argv) _ (rw number at h) in
      let yes_same : same ≡ true = ground arith in
      record {
        counted = (eqb_ℤ_iff f.argc m.argc).0 number;
        same = e ∙ ap done yes_same;
        returned = ground arith;
      }
  | inr number ↦ absurd (ground arith)
]

Verified-Matches :
    {F : Type 0} (f : Function F) (m : Message)
    → length f.argv ≡ pos_part f.argc
    → IsArgv m.argc m.argv
    → Verified f m
    → (ps : List Pointee) × (call_arguments m ≡ done ps) × Matches f.argv ps
unfolding verify_types call_arguments
Verified-Matches f m stored typed v = cases m.argv typed v.same
  where
    cases :
        (argv : Option (List RpcArg))
        → IsArgv m.argc argv
        → verify_types (pos_part f.argc) f.argv argv ≡ done true
        → (ps : List Pointee) × (pointees
              (pos_part m.argc)
              (elim argv [ none ↦ [] | some args ↦ args ])
            ≡ done ps)
          × Matches f.argv ps
    cases none h s =
        let e : pos_part m.argc ≡ length f.argv = ground (arith, v.counted) in
        rw e (same_types-Matches f.argv [] (ground arith) tt (rw (← stored) at s))
    cases (some args) h s =
        let e : pos_part m.argc ≡ length f.argv = ground (arith, v.counted) in
        rw e (same_types-Matches f.argv args (h.0 ∙ e) h.1 (rw (← stored) at s))

-- Whatever bytes the child process receives: if it reads a message, and the verification of the message
-- against a function that stores one type per argument declared sends no error, then the data that the
-- function is called with are as many as it declares, each of its declared type, and the return type is
-- the declared one.
pub verified_call :
    {F : Type 0} (p : Platform) (f : Function F) (size_bytes body : Option Bytes) (m : Message)
    → length f.argv ≡ pos_part f.argc
    → read_msg p size_bytes body ≡ returns m
    → verification f m ≡ done none
    → ((ps : List Pointee) × (call_arguments m ≡ done ps) × Matches f.argv ps)
      × (f.return_type ≡ m.return_type)
verified_call p f size_bytes body m stored read passed =
    let v = verification-none f m passed in
    let typed : IsArgv m.argc m.argv = rw read at (read_msg-GivesArgv p size_bytes body) in
    (Verified-Matches f m stored typed v, v.returned)
