-- ===== src/Server/Loop/Progress.antt =====
-- The threads of src/s_server.c: how they come to register a further client.
use remote_procedure_control.Prelude.{
  ℕ, ◌≡◌, refl, ◌∙◌, true, false, List, [], ◌∷◌, Option, none, some, All,
}
use remote_procedure_control.Server.{Platform}
use remote_procedure_control.Server.Tracker.{Alive, keep_track_of_client, exited, round}
use remote_procedure_control.Server.Loop.{
  Thread, main_thread, tracker_thread, MainPc, accepting, forking, locking, tracking, unlocking,
  TrackerPc, checking, sleeping, acquiring, sweeping, releasing, gone, State, running, Event, Step,
  Reach,
}
use remote_procedure_control.Server.Loop.Held.{IsReleasing, IsHeld, main_goes, Held, Reach-Held}
use remote_procedure_control.Server.Loop.Starvation.{Steps, no_step, step}
use remote_procedure_control.Server.Loop.Invariant.{InMain, InTracker}

-- No call fails in the step, the process is not killed, and a child that is waited for has exited.
abbrev pub IsSuccess : Event → Type 0
IsSuccess Event.accept_failed = ⊥
IsSuccess Event.fork_failed = ⊥
IsSuccess (Event.main_locked false) = ⊥
IsSuccess (Event.main_unlocked false) = ⊥
IsSuccess (Event.tracker_locked false) = ⊥
IsSuccess (Event.tracker_unlocked false) = ⊥
IsSuccess (Event.tracked false) = ⊥
IsSuccess Event.killed = ⊥
IsSuccess (Event.waited exited) = Unit {0}
IsSuccess (Event.waited w) = ⊥
IsSuccess _ = Unit {0}

-- Nobody holds the lock, the main thread is in `accept`, and the list begins with the child given.
pub record IsRegistered (son client : ℕ) (t : State) : Type 0 where
  pub idle : t.main ≡ accepting
  pub free : t.owner ≡ none
  pub others : List Alive
  pub listed : t.alive ≡ record { son = son; client_fd = client } ∷ others

-- There are such steps after which the child of this client is in the list.
abbrev pub CanRegister : Platform → ℕ → ℕ → State → Type 0
CanRegister pf son client s =
    (es : List Event) × (t : State) × Steps pf s es t × All IsSuccess es × IsRegistered son client t

module _ (pf : Platform) where
  -- There are such steps to a state of which `P` holds.
  abbrev Leads : (State → Type 0) → State → Type 0
  Leads P s = (es : List Event) × (t : State) × Steps pf s es t × All IsSuccess es × P t

  lead :
      {P : State → Type 0} {e : Event} {s t : State}
      → IsSuccess e
      → Step pf e s (running t)
      → Leads P t
      → Leads P s
  lead {e = e} k first (es, u, steps, ks, q) = (e ∷ es, u, step first steps, (k, ks), q)

  follows :
      {P Q : State → Type 0} {s : State} → Leads P s → ((t : State) → P t → Leads Q t) → Leads Q s
  follows {P} {Q} (es, t, steps, ks, p) f = joins steps ks (f t p)
    where
      joins :
          {s t : State} {es : List Event}
          → Steps pf s es t
          → All IsSuccess es
          → Leads Q t
          → Leads Q s
      joins no_step ks l = l
      joins (step first rest) (k, ks) l = lead k first (joins rest ks l)

  -- The tracker has given the lock back, with the main thread where it was.
  IsFree : MainPc → State → Type 0
  IsFree m t = (t.owner ≡ none) × (t.main ≡ m)

  releases : (s : State) (error : ℕ) → s.tracker ≡ releasing error → Leads (IsFree s.main) s
  unfolding IsFree
  releases s error h = lead tt (Step.tracker_unlocks error h) ([], _, no_step, tt, (refl, refl))

  sweeps :
      (s : State) (error : ℕ) (behind ahead : List Alive)
      → s.tracker ≡ sweeping error (record { behind = behind; ahead = ahead })
      → Leads (IsFree s.main) s
  unfolding round
  sweeps s error behind [] h = lead tt (Step.sweep_ends error behind h) (releases _ error refl)
  sweeps s error behind (p ∷ ahead) h =
      lead tt
        (Step.waits error exited p behind ahead {sweep = record { behind = behind; ahead = ahead }}
          h refl)
        (sweeps _ error behind ahead refl)

  tracker_frees :
      (s : State) (t : TrackerPc) → s.tracker ≡ t → InTracker t → Leads (IsFree s.main) s
  tracker_frees s (checking error) h x = absurd x
  tracker_frees s (sleeping error) h x = absurd x
  tracker_frees s (acquiring error) h x = absurd x
  tracker_frees s (sweeping error sweep) h x = sweeps s error sweep.behind sweep.ahead h
  tracker_frees s (releasing error) h x = releases s error h
  tracker_frees s gone h x = absurd x

  -- The main thread gets the lock, whoever holds it.
  frees : (s : State) → IsHeld s → (InMain s.main → ⊥) → Leads (IsFree s.main) s
  unfolding IsFree
  frees s i out = by_owner s.owner refl
    where
      by_owner : (o : Option Thread) → s.owner ≡ o → Leads (IsFree s.main) s
      by_owner none e = ([], s, no_step, tt, (e, refl))
      by_owner (some main_thread) e = absurd (out (i.main_works e))
      by_owner (some tracker_thread) e = tracker_frees s s.tracker refl (i.tracker_works e)

  unlocks :
      (s : State) (son client : ℕ) (others : List Alive)
      → s.main ≡ unlocking
      → s.alive ≡ record { son = son; client_fd = client } ∷ others
      → CanRegister pf son client s
  unlocks s son client others h l =
      lead tt (Step.main_unlocks h)
        ([], _, no_step, tt, record { idle = refl; free = refl; others = others; listed = l })

  adds : (s : State) (son client : ℕ) → s.main ≡ tracking son client → CanRegister pf son client s
  unfolding keep_track_of_client
  adds s son client h =
      lead tt (Step.tracks true son client h refl) (unlocks _ son client s.alive refl refl)

  registers :
      (s : State) (son client : ℕ)
      → IsHeld s
      → s.main ≡ locking son client
      → CanRegister pf son client s
  unfolding IsFree
  registers s son client i h =
      follows (frees s i (λ x. rw h at x))
        (λ t f. lead tt (Step.main_locks son client (f.1 ∙ h) f.0) (adds _ son client refl))

  -- The main thread is in `accept`, and whoever holds the lock is at work.
  IsIdle : State → Type 0
  IsIdle t = (t.main ≡ accepting) × IsHeld t

  idles : (son client : ℕ) (t : State) → IsRegistered son client t → IsIdle t
  unfolding IsIdle
  idles son client t r = (
    r.idle,
    record {
      main_works = λ o. absurd (let k = r.free in cc);
      tracker_works = λ o. absurd (let k = r.free in cc);
    },
  )

  comes_back : (s : State) → IsHeld s → (m : MainPc) → s.main ≡ m → Leads IsIdle s
  unfolding IsIdle
  comes_back s i accepting h = ([], s, no_step, tt, (h, i))
  comes_back s i (forking client) h = lead tt (Step.forks client 0 h) (
      follows (registers _ 0 client (main_goes i (locking 0 client) (λ x. rw h at x)) refl)
        (λ t r. ([], t, no_step, tt, idles 0 client t r)))
  comes_back s i (locking son client) h =
      follows (registers s son client i h) (λ t r. ([], t, no_step, tt, idles son client t r))
  comes_back s i (tracking son client) h =
      follows (adds s son client h) (λ t r. ([], t, no_step, tt, idles son client t r))
  comes_back s i unlocking h = lead tt (Step.main_unlocks h) (
    [],
    _,
    no_step,
    tt,
    (refl, record { main_works = λ o. absurd (cc); tracker_works = λ o. absurd (cc) }),
  )

  serves : (s : State) (son client : ℕ) → IsIdle s → CanRegister pf son client s
  unfolding IsIdle
  serves s son client (h, i) =
      let j = main_goes i (forking client) (λ x. rw h at x) in
      lead tt (Step.accepts client h) (
        lead tt (Step.forks client son refl)
          (registers _ son client (main_goes j (locking son client) (λ x. x)) refl))

-- The server does not block. From every state that it reaches without an unlocking that failed, and
-- for every further client and child, there are steps after which that child is the first of the
-- list, nobody holds the mutex and the main thread is in `accept` again. In these steps no call
-- fails, the process is not killed, and `waitpid` reports that the children which the tracker comes
-- to have exited.
pub Reach-registers :
    {pf : Platform} {es : List Event} {s : State} (son client : ℕ)
    → Reach pf es (running s)
    → All IsReleasing es
    → CanRegister pf son client s
unfolding Held
Reach-registers {pf} {es} {s} son client r k =
    follows pf (comes_back pf s (Reach-Held r k) s.main refl)
      (λ t idle. serves pf t son client idle)
