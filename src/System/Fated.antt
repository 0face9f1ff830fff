-- ===== src/System/Fated.antt =====
-- A child that a signal ends, in the table and before the tracker of src/s_server.c.
use remote_procedure_control.Prelude.{
  ℕ, ◌≡◌, ◌≢◌, ◌⊎◌, inl, inr, refl, sym, ap, ◌∙◌, arith, List, [], ◌∷◌, Option, none, some, ◌==◌,
  Bool-cases, ==_iff,
}
use remote_procedure_control.Machine.{done}
use remote_procedure_control.Server.{Platform}
use remote_procedure_control.Server.Tracker.{Alive, Waited, Sweep, goes_on, round}
use remote_procedure_control.Server.Loop
use remote_procedure_control.Server.Loop.{
  tracker_thread, TrackerPc, sweeping, State, Server, running, Event,
}
use remote_procedure_control.Server.Loop.Invariant.{signaled-stops}
use remote_procedure_control.System.{
  Received, Status, exits, by_signal, Phase, serving, ended, Child, Table, update, report, reaped,
  phase_report, phase_left, IsOwn,
}
use remote_procedure_control.System.Known.{no_child-breaks}

abbrev pub Listed : Alive → List Alive → Type 0
Listed a [] = ⊥
Listed a (p ∷ alive) = (a ≡ p) ⊎ Listed a alive

-- The child of this process has received what `P` says. It serves, or a signal has ended it.
abbrev pub IsFated : (Received → Type 0) → Table → Alive → Type 0
IsFated P table a =
    (r : Received) × P r
    × ((table a.son ≡ some (record { received = r; phase = serving }))
        ⊎ (table a.son ≡ some (record { received = r; phase = ended by_signal })))

-- The tracker sweeps and has still to come to this process.
abbrev pub IsBefore : Alive → TrackerPc → Type 0
IsBefore a (sweeping error s) = Listed a s.ahead
IsBefore a _ = ⊥

-- The steps of the main thread leave the tracker in its sweep.
pub own-IsBefore :
    (pf : Platform) {e : Event} {s t : State} (a : Alive)
    → Loop.Step pf e s (running t)
    → IsOwn e
    → IsBefore a s.tracker
    → IsBefore a t.tracker
own-IsBefore pf a (Loop.Step.accept_fails h) own b = b
own-IsBefore pf a (Loop.Step.accepts client h) own b = b
own-IsBefore pf a (Loop.Step.fork_fails client h) own b = b
own-IsBefore pf a (Loop.Step.forks client son h) own b = b
own-IsBefore pf a (Loop.Step.main_locks son client h o) own b = b
own-IsBefore pf a (Loop.Step.main_lock_fails son client h) own b = b
own-IsBefore pf a (Loop.Step.tracks granted son client h k) own b = b
own-IsBefore pf a (Loop.Step.main_unlocks h) own b = b
own-IsBefore pf a (Loop.Step.main_unlock_fails h) own b = b
own-IsBefore pf a (Loop.Step.ends_tracker n h k) own b = absurd (rw h at b)
own-IsBefore pf a (Loop.Step.goes_to_sleep n h k) own b = absurd (rw h at b)
own-IsBefore pf a (Loop.Step.wakes n h) own b = absurd (rw h at b)
own-IsBefore pf a (Loop.Step.tracker_locks n h o) own b = absurd (rw h at b)
own-IsBefore pf a (Loop.Step.tracker_lock_fails n h) own b = absurd (rw h at b)
own-IsBefore pf a (Loop.Step.waits n w p behind ahead h r) own b = absurd own
own-IsBefore pf a (Loop.Step.sweep_ends n behind h) own b = absurd (rw h at b)
own-IsBefore pf a (Loop.Step.tracker_unlocks n h) own b = absurd (rw h at b)
own-IsBefore pf a (Loop.Step.tracker_unlock_fails n h) own b = absurd (rw h at b)

pub fork-IsBefore :
    (pf : Platform) {son : ℕ} {s t : State} (a : Alive)
    → Loop.Step pf (Event.forked son) s (running t)
    → IsBefore a s.tracker
    → IsBefore a t.tracker
fork-IsBefore pf a (Loop.Step.forks client son h) b = b

-- A change of another process.
pub IsFated-update :
    (P : Received → Type 0) (table : Table) (son : ℕ) (c : Option Child) (a : Alive)
    → a.son ≢ son
    → IsFated P table a
    → IsFated P (update table son c) a
IsFated-update P table son c a other (r, p, inl h) = (r, p, inl (ground (arith, other, h)))
IsFated-update P table son c a other (r, p, inr h) = (r, p, inr (ground (arith, other, h)))

-- An entry that is stored again.
update_same :
    (table : Table) (son : ℕ) {c : Option Child} (n : ℕ)
    → table son ≡ c
    → update table son c n ≡ table n
update_same table son n h = elim (Bool-cases (n == son)) [
  | inl same ↦ rw same (sym h ∙ ap table (sym ((==_iff n son).0 same)))
  | inr other ↦ rw other refl
]

-- Such a child is in the table, and has not exited.
pub IsFated-fresh :
    (P : Received → Type 0) (table : Table) (a : Alive) (son : ℕ)
    → table son ≡ none
    → IsFated P table a
    → a.son ≢ son
IsFated-fresh P table a son free (r, p, inl h) same = let k = rw same at h in cc
IsFated-fresh P table a son free (r, p, inr h) same = let k = rw same at h in cc

entry :
    (table : Table) (son : ℕ) (c d : Child)
    → table son ≡ some c
    → table son ≡ some d
    → (c.received ≡ d.received) × (c.phase ≡ d.phase)
entry table son c d h k =
    let e : c ≡ d = cc in (ap (λ (x : Child). x.received) e, ap (λ (x : Child). x.phase) e)

IsFated-ne_exited :
    (P : Received → Type 0) (table : Table) (a : Alive) (son : ℕ) (c : Child)
    → table son ≡ some c
    → c.phase ≡ ended exits
    → IsFated P table a
    → a.son ≢ son
IsFated-ne_exited P table a son c there gone (r, p, inl h) same =
    let (e, phase) = entry table son c _ there (rw same at h) in cc
IsFated-ne_exited P table a son c there gone (r, p, inr h) same =
    let (e, phase) = entry table son c _ there (rw same at h) in cc

-- The child ends by a signal.
pub IsFated-ends :
    (P : Received → Type 0) (table : Table) (a : Alive) (son : ℕ) (r : Received) (status : Status)
    → table son ≡ some (record { received = r; phase = serving })
    → (P r → status ≡ by_signal)
    → IsFated P table a
    → IsFated P (update table son (some (record { received = r; phase = ended status }))) a
IsFated-ends P table a son r status there ends (r', p, h) = elim (Bool-cases (a.son == son)) [
  | inl same ↦ by_case ((==_iff a.son son).0 same) h
  | inr other ↦
      IsFated-update P table son (some (record { received = r; phase = ended status })) a
        (λ e. let k = (==_iff a.son son).1 e in cc) (r', p, h)
]
  where
    by_case :
        a.son ≡ son
        → (table a.son ≡ some (record { received = r'; phase = serving }))
          ⊎ (table a.son ≡ some (record { received = r'; phase = ended by_signal }))
        → IsFated P (update table son (some (record { received = r; phase = ended status }))) a
    by_case same (inl h) =
        let (received, phase) = entry table son _ _ there (rw same at h) in
        let end = ends (rw received p) in
        (r', p, inr (rw (same, end, received, (==_iff son son).1 refl) refl))
    by_case same (inr h) =
        absurd (let (received, phase) = entry table son _ _ there (rw same at h) in cc)

behind_it :
    (a p : Alive) (ahead : List Alive) → a.son ≢ p.son → Listed a (p ∷ ahead) → Listed a ahead
behind_it a p ahead other (inl same) = absurd (other (ap (λ (q : Alive). q.son) same))
behind_it a p ahead other (inr l) = l

-- The sweep has still to come to such a process.
abbrev pub IsDoomed : (Received → Type 0) → Alive → Table → TrackerPc → Type 0
IsDoomed P a table t = IsFated P table a × IsBefore a t

-- A report does not bring the sweep past it.
pub round-IsFated :
    (pf : Platform) (P : Received → Type 0) (table : Table) (a p : Alive)
    (behind ahead : List Alive) {sweep : Sweep} {w : Waited} (c : Option Child)
    → table p.son ≡ c
    → report c ≡ w
    → round pf w p (record { behind = behind; ahead = ahead }) ≡ done (goes_on sweep)
    → IsFated P table a
    → Listed a (p ∷ ahead)
    → IsFated P (update table p.son (reaped c)) a × Listed a sweep.ahead
unfolding report reaped
round-IsFated pf P table a p behind ahead {sweep} none there e k f l =
    absurd (no_child-breaks pf p (record { behind = behind; ahead = ahead }) sweep (rw (← e) at k))
round-IsFated pf P table a p behind ahead {sweep} (some c) there e k f l =
    by_phase c.phase refl (rw (← e) at k)
  where
    again : IsFated P table a → IsFated P (update table p.son (some c)) a
    again (r, q, inl h) = (r, q, inl (update_same table p.son a.son there ∙ h))
    again (r, q, inr h) = (r, q, inr (update_same table p.son a.son there ∙ h))

    by_phase :
        (b : Phase)
        → c.phase ≡ b
        → round pf (phase_report b) p (record { behind = behind; ahead = ahead })
          ≡ done (goes_on sweep)
        → IsFated P (update table p.son (phase_left b c)) a × Listed a sweep.ahead
    by_phase serving same k =
        let next : record { behind = behind; ahead = p ∷ ahead } ≡ sweep = unfold round in (cc) in
        (again f, rw (← next) l)
    by_phase (ended exits) gone k =
        let next : record { behind = behind; ahead = ahead } ≡ sweep = unfold round in (cc) in
        let other = IsFated-ne_exited P table a p.son c there gone f in
        (IsFated-update P table p.son none a other f, rw (← next) (behind_it a p ahead other l))
    by_phase (ended by_signal) same k =
        absurd (signaled-stops pf p (record { behind = behind; ahead = ahead }) sweep k)
