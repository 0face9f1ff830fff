-- ===== src/System/Known.antt =====
-- The children that the server of src/s_server.c knows of, under its steps.
use remote_procedure_control.Prelude.{
  ℕ, ◌≡◌, ◌≢◌, refl, sym, ap, ◌∙◌, arith, List, [], ◌∷◌, ◌++◌, map, map-append, append_assoc,
  Option, none, some, All,
}
use remote_procedure_control.Machine.{done}
use remote_procedure_control.Server.{Platform}
use remote_procedure_control.Server.Tracker.{Alive, Waited, no_child, Sweep, goes_on, round}
use remote_procedure_control.Server.Loop
use remote_procedure_control.Server.Loop.{
  SocketCalls, serv_sock, loop_server, MainPc, accepting, forking, locking, tracking, unlocking,
  TrackerPc, sweeping, State, Server, running, Event,
}
use remote_procedure_control.Server.Loop.Invariant.{keep_track_lem, signaled-stops}
use remote_procedure_control.System.{
  Table, update, Child, Phase, serving, ended, exits, by_signal, phase_report, phase_left, report,
  reaped, IsOwn,
}
use remote_procedure_control.System.Distinct.{
  Distinct, All-imp, All-without, Distinct-without, Distinct-middle,
}

abbrev pub IsKnown : Table → ℕ → Type 0
IsKnown table son = table son ≢ none

-- The child that the main thread has forked and not yet added to the list.
abbrev pub claimed : MainPc → List ℕ
claimed (locking son client) = son ∷ []
claimed (tracking son client) = son ∷ []
claimed _ = []

abbrev pub sons : List Alive → List ℕ
sons = map (λ (a : Alive). a.son)

-- The children that the server knows of.
abbrev pub pids : MainPc → List Alive → List ℕ
pids m alive = claimed m ++ sons alive

pub record IsKept (table : Table) (ns : List ℕ) : Type 0 where
  pub distinct : Distinct ns
  pub known : All (IsKnown table) ns

update-IsKnown :
    (table : Table) (son : ℕ) (c : Child) (n : ℕ)
    → IsKnown table n
    → IsKnown (update table son (some c)) n
update-IsKnown table son c n h = ground (arith, h)

update-IsKnown_other :
    (table : Table) (son : ℕ) (c : Option Child) (n : ℕ)
    → son ≢ n
    → IsKnown table n
    → IsKnown (update table son c) n
update-IsKnown_other table son c n d h = ground (arith, d, h)

-- Children that come to a new phase are still known.
pub IsKept-update :
    {table : Table} (ns : List ℕ) (son : ℕ) (c : Child)
    → IsKept table ns
    → IsKept (update table son (some c)) ns
IsKept-update {table} ns son c i = record {
  distinct = i.distinct;
  known = All-imp (update-IsKnown table son c) ns i.known;
}

-- A child that leaves the list may leave the table.
pub IsKept-without :
    {table : Table} (ns : List ℕ) (son : ℕ) (ms : List ℕ)
    → IsKept table (ns ++ (son ∷ ms))
    → IsKept (update table son none) (ns ++ ms)
IsKept-without {table} ns son ms i = record {
  distinct = Distinct-without ns son ms i.distinct;
  known =
      others (ns ++ ms) (Distinct-middle ns son ms i.distinct)
        (All-without (IsKnown table) ns son ms i.known);
}
  where
    others :
        (ks : List ℕ)
        → All (λ m. son ≢ m) ks
        → All (IsKnown table) ks
        → All (IsKnown (update table son none)) ks
    others [] d k = tt
    others (n ∷ ks) (d, ds) (k, ks') = (update-IsKnown_other table son none n d k, others ks ds ks')

IsKept-fork :
    {table : Table} (ns : List ℕ) (son : ℕ) (c : Child)
    → table son ≡ none
    → IsKept table ns
    → IsKept (update table son (some c)) (son ∷ ns)
IsKept-fork {table} ns son c free i =
    let old = IsKept-update ns son c i in
    record {
      distinct = (All-imp (λ n k e. k (ap table (sym e) ∙ free)) ns i.known, i.distinct);
      known = (ground arith, old.known);
    }

-- What the steps of the server alone do to the children it knows of: it keeps them, or gives the first
-- one up.
pub own-IsKept :
    (pf : Platform) {e : Event} {s t : State} {table : Table}
    → Loop.Step pf e s (running t)
    → IsOwn e
    → IsKept table (pids s.main s.alive)
    → IsKept table (pids t.main t.alive)
own-IsKept pf (Loop.Step.accept_fails h) own i = i
own-IsKept pf (Loop.Step.accepts client h) own i = rw h at i
own-IsKept pf (Loop.Step.fork_fails client h) own i = rw h at i
own-IsKept pf (Loop.Step.forks client son h) own i = absurd own
own-IsKept pf (Loop.Step.main_locks son client h o) own i = rw h at i
own-IsKept pf (Loop.Step.main_lock_fails {s} son client h) own i =
    let j : IsKept _ (son ∷ sons s.alive) = rw h at i in
    record { distinct = j.distinct.1; known = j.known.1 }
own-IsKept pf (Loop.Step.tracks {s} granted son client {alive} h k) own i =
    rw (← keep_track_lem granted son client s.alive k) (rw h at i)
own-IsKept pf (Loop.Step.main_unlocks h) own i = rw h at i
own-IsKept pf (Loop.Step.main_unlock_fails h) own i = rw h at i
own-IsKept pf (Loop.Step.ends_tracker n h b) own i = i
own-IsKept pf (Loop.Step.goes_to_sleep n h b) own i = i
own-IsKept pf (Loop.Step.wakes n h) own i = i
own-IsKept pf (Loop.Step.tracker_locks n h o) own i = i
own-IsKept pf (Loop.Step.tracker_lock_fails n h) own i = i
own-IsKept pf (Loop.Step.waits n w p behind ahead h r) own i = absurd own
own-IsKept pf (Loop.Step.sweep_ends n behind h) own i = i
own-IsKept pf (Loop.Step.tracker_unlocks n h) own i = i
own-IsKept pf (Loop.Step.tracker_unlock_fails n h) own i = i

-- The fork makes a child that the server does not know of yet.
pub fork-IsKept :
    (pf : Platform) {son : ℕ} {s t : State} {table : Table} (c : Child)
    → Loop.Step pf (Event.forked son) s (running t)
    → table son ≡ none
    → IsKept table (pids s.main s.alive)
    → IsKept (update table son (some c)) (pids t.main t.alive)
fork-IsKept pf c (Loop.Step.forks {s} client son h) free i =
    IsKept-fork (sons s.alive) son c free (rw h at i)

-- What a step at a child in the list comes to.
pub waited-running :
    (pf : Platform) {w : Waited} {s t : State} (error : ℕ) (behind : List Alive) (p : Alive)
    (ahead : List Alive)
    → Loop.Step pf (Event.waited w) s (running t)
    → s.tracker ≡ sweeping error (record { behind = behind; ahead = p ∷ ahead })
    → (sweep : Sweep) × (round pf w p (record { behind = behind; ahead = ahead })
        ≡ done (goes_on sweep))
      × (t ≡ record s { tracker = sweeping error sweep; alive = sweep.behind ++ sweep.ahead })
waited-running pf error behind p ahead (Loop.Step.waits {s} n w q before after {sweep} h r) at_p =
    let same : sweeping n (record { behind = before; ahead = q ∷ after })
        ≡ sweeping error (record { behind = behind; ahead = p ∷ ahead }) =
      sym h ∙ at_p in
    let errors : n ≡ error = cc in
    let places : q ≡ p = cc in
    let befores : before ≡ behind = cc in
    let afters : after ≡ ahead = cc in (sweep, rw (← places, ← befores, ← afters) r, rw errors refl)

-- The list with one child in the middle.
pub pids_split :
    (m : MainPc) (behind : List Alive) (p : Alive) (ahead : List Alive)
    → pids m (behind ++ (p ∷ ahead)) ≡ pids m behind ++ (p.son ∷ sons ahead)
pids_split m behind p ahead =
    ap (λ l. claimed m ++ l) (map-append (λ (a : Alive). a.son) behind (p ∷ ahead))
    ∙ sym (append_assoc (claimed m) (sons behind) (p.son ∷ sons ahead))

pids_joined :
    (m : MainPc) (behind ahead : List Alive)
    → pids m (behind ++ ahead) ≡ pids m behind ++ sons ahead
pids_joined m behind ahead =
    ap (λ l. claimed m ++ l) (map-append (λ (a : Alive). a.son) behind ahead)
    ∙ sym (append_assoc (claimed m) (sons behind) (sons ahead))

pub no_child-breaks :
    (pf : Platform) (p : Alive) (s sweep : Sweep) → round pf no_child p s ≢ done (goes_on sweep)
unfolding round
no_child-breaks pf p s sweep r = cc

-- A report keeps the child in both the list and the table, or takes it out of both.
pub round-IsKept :
    (pf : Platform) {table : Table} (m : MainPc) (p : Alive) (behind ahead : List Alive)
    {sweep : Sweep} {w : Waited} (c : Option Child)
    → report c ≡ w
    → round pf w p (record { behind = behind; ahead = ahead }) ≡ done (goes_on sweep)
    → IsKept table (pids m (behind ++ (p ∷ ahead)))
    → IsKept (update table p.son (reaped c)) (pids m (sweep.behind ++ sweep.ahead))
unfolding report reaped
round-IsKept pf m p behind ahead {sweep} none e r i =
    absurd (no_child-breaks pf p (record { behind = behind; ahead = ahead }) sweep (rw (← e) at r))
round-IsKept pf {table} m p behind ahead {sweep} (some c) e r i = by_phase c.phase (rw (← e) at r)
  where
    split : IsKept table (pids m behind ++ (p.son ∷ sons ahead))
    split = rw (← pids_split m behind p ahead) i

    by_phase :
        (b : Phase)
        → round pf (phase_report b) p (record { behind = behind; ahead = ahead })
          ≡ done (goes_on sweep)
        → IsKept (update table p.son (phase_left b c)) (pids m (sweep.behind ++ sweep.ahead))
    by_phase serving k =
        let same : record { behind = behind; ahead = p ∷ ahead } ≡ sweep = unfold round in (cc) in
        rw (← same) (IsKept-update _ p.son c i)
    by_phase (ended exits) k =
        let same : record { behind = behind; ahead = ahead } ≡ sweep = unfold round in (cc) in
        rw (← same, pids_joined m behind ahead)
          (IsKept-without (pids m behind) p.son (sons ahead) split)
    by_phase (ended by_signal) k =
        absurd (signaled-stops pf p (record { behind = behind; ahead = ahead }) sweep k)

-- Without the child that the main thread has still to add.
pub IsKept-alive :
    {table : Table} (m : MainPc) (alive : List Alive)
    → IsKept table (pids m alive)
    → IsKept table (sons alive)
IsKept-alive accepting alive i = i
IsKept-alive (forking client) alive i = i
IsKept-alive (locking son client) alive i = record { distinct = i.distinct.1; known = i.known.1 }
IsKept-alive (tracking son client) alive i = record { distinct = i.distinct.1; known = i.known.1 }
IsKept-alive unlocking alive i = i

phase_report-ne-no_child : (b : Phase) → phase_report b ≢ no_child
phase_report-ne-no_child serving e = cc
phase_report-ne-no_child (ended exits) e = cc
phase_report-ne-no_child (ended by_signal) e = cc

pub report-ne-no_child : (c : Option Child) → c ≢ none → report c ≢ no_child
unfolding report
report-ne-no_child none k e = absurd (k refl)
report-ne-no_child (some c) k e = phase_report-ne-no_child c.phase e
