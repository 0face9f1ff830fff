-- ===== src/Server/Loop/Invariant.antt =====
-- The invariant of the threads of src/s_server.c, and the lemmas on it.
use remote_procedure_control.Prelude.{
  ℕ, suc, ◌+◌, ◌≡◌, ◌≢◌, ◌≤◌, refl, sym, arith, Bool, true, false, List, [], ◌∷◌, ◌++◌, some,
  length, length-append, append_assoc,
}
use remote_procedure_control.Machine.{Exec, done, undefined, ◌>>=◌}
use remote_procedure_control.RpcData.{rpc_ret_no_answer}
use remote_procedure_control.Server.{Platform, Ending, send_error}
use remote_procedure_control.Server.Tracker.{
  Alive, keep_track_of_client, Waited, still_running, exited, signaled, neither, no_child, failing,
  Sweep, goes_on, stopped, round,
}
use remote_procedure_control.Server.Loop.{
  main_thread, tracker_thread, MainPc, accepting, forking, locking, tracking, unlocking, TrackerPc,
  checking, sleeping, acquiring, sweeping, releasing, gone, State, Server, running, Event,
}

-- The main thread works on the list.
abbrev pub InMain : MainPc → Type 0
InMain accepting = ⊥
InMain (forking client) = ⊥
InMain (locking son client) = ⊥
InMain (tracking son client) = Unit {0}
InMain unlocking = Unit {0}

-- The tracker thread works on the list.
abbrev pub InTracker : TrackerPc → Type 0
InTracker (checking error) = ⊥
InTracker (sleeping error) = ⊥
InTracker (acquiring error) = ⊥
InTracker (sweeping error s) = Unit {0}
InTracker (releasing error) = Unit {0}
InTracker gone = ⊥

-- What is left to the tracker is the list itself.
abbrev pub IsWhole : TrackerPc → List Alive → Type 0
IsWhole (sweeping error s) alive = alive ≡ s.behind ++ s.ahead
IsWhole _ alive = Unit {0}

abbrev pub IsBounded : TrackerPc → Type 0
IsBounded (checking error) = error ≤ 3
IsBounded (sleeping error) = error ≤ 2
IsBounded (acquiring error) = error ≤ 2
IsBounded (sweeping error s) = error ≤ 2
IsBounded (releasing error) = error ≤ 2
IsBounded gone = Unit {0}

-- The children that were added to the list, and those that were taken out.
abbrev pub added : List Event → ℕ
added [] = 0
added (Event.tracked granted ∷ es) = suc (added es)
added (_ ∷ es) = added es

abbrev pub removed : List Event → ℕ
removed [] = 0
removed (Event.waited exited ∷ es) = suc (removed es)
removed (_ ∷ es) = removed es

pub record IsSafe (es : List Event) (s : State) : Type 0 where
  pub main_owns : InMain s.main → s.owner ≡ some main_thread
  pub tracker_owns : InTracker s.tracker → s.owner ≡ some tracker_thread
  pub whole : IsWhole s.tracker s.alive
  pub bounded : IsBounded s.tracker
  pub counted : length s.alive + removed es ≡ added es

unfoldable pub Safe : List Event → Server → Type 0
Safe es (running s) = IsSafe es s
Safe es _ = Unit {0}

-- A tracker that is not at work on the list has no part of it left.
pub out-IsWhole : (t : TrackerPc) (alive : List Alive) → (InTracker t → ⊥) → IsWhole t alive
out-IsWhole (checking error) alive out = tt
out-IsWhole (sleeping error) alive out = tt
out-IsWhole (acquiring error) alive out = tt
out-IsWhole (sweeping error s) alive out = absurd (out tt)
out-IsWhole (releasing error) alive out = tt
out-IsWhole gone alive out = tt

module _ {es es' : List Event} {s : State} (same_added : added es' ≡ added es)
    (same_removed : removed es' ≡ removed es) (i : IsSafe es s) where
  -- The main thread goes on outside its work on the list.
  pub main_out : (m : MainPc) → (InMain m → ⊥) → IsSafe es' (record s { main = m })
  main_out m out = record {
    main_owns = λ x. absurd (out x);
    tracker_owns = i.tracker_owns;
    whole = i.whole;
    bounded = i.bounded;
    counted = rw (same_added, same_removed) i.counted;
  }

  -- So does the tracker thread.
  pub tracker_out :
      (t : TrackerPc) → (InTracker t → ⊥) → IsBounded t → IsSafe es' (record s { tracker = t })
  tracker_out t out bound = record {
    main_owns = i.main_owns;
    tracker_owns = λ x. absurd (out x);
    whole = out-IsWhole t s.alive out;
    bounded = bound;
    counted = rw (same_added, same_removed) i.counted;
  }

-- While one thread has the lock, the other is not at work on the list.
pub main_has :
    {es : List Event} {s : State}
    → IsSafe es s
    → s.owner ≡ some main_thread
    → InTracker s.tracker
    → ⊥
main_has i o x = let p = i.tracker_owns x in cc

pub tracker_has :
    {es : List Event} {s : State} → IsSafe es s → s.owner ≡ some tracker_thread → InMain s.main → ⊥
tracker_has i o x = let p = i.main_owns x in cc

pub keep_track_lem :
    (granted : Bool) (son client : ℕ) (old : List Alive) {alive : List Alive}
    → keep_track_of_client granted son client old ≡ done alive
    → record { son = son; client_fd = client } ∷ old ≡ alive
unfolding keep_track_of_client
keep_track_lem true son client old k = cc
keep_track_lem false son client old k = cc

pub keep_track_length :
    (granted : Bool) (son client : ℕ) (old alive : List Alive)
    → keep_track_of_client granted son client old ≡ done alive
    → length alive ≡ suc (length old)
keep_track_length granted son client old alive k =
    rw (sym (keep_track_lem granted son client old k)) refl

-- The sweep does not get past a child that a signal has ended.
pub signaled-stops :
    (pf : Platform) (p : Alive) (s sweep : Sweep) → round pf signaled p s ≢ done (goes_on sweep)
unfolding round
signaled-stops pf p s sweep r = ends (send_error pf rpc_ret_no_answer) r
  where
    ends : (m : Exec Ending) → (m >>= λ e. done (stopped e)) ≢ done (goes_on sweep)
    ends (done e) k = cc
    ends undefined k = cc
    ends Exec.diverges k = cc

-- A child that has exited is taken out, and no other.
pub round-length :
    (pf : Platform) (w : Waited) (p : Alive) (behind ahead : List Alive) (sweep : Sweep)
    (es : List Event)
    → round pf w p (record { behind = behind; ahead = ahead }) ≡ done (goes_on sweep)
    → length (sweep.behind ++ sweep.ahead) + removed (Event.waited w ∷ es)
      ≡ length (behind ++ (p ∷ ahead)) + removed es
unfolding round
round-length pf still_running p behind ahead sweep es r =
    let e : record { behind = behind; ahead = p ∷ ahead } ≡ sweep = cc in rw (sym e) refl
round-length pf exited p behind ahead sweep es r =
    let e : record { behind = behind; ahead = ahead } ≡ sweep = cc in
    rw (sym e) (omega (arith, length-append behind ahead, length-append behind (p ∷ ahead)))
round-length pf neither p behind ahead sweep es r =
    let e : record { behind = behind ++ (p ∷ []); ahead = ahead } ≡ sweep = cc in
    rw (sym e, append_assoc behind (p ∷ []) ahead) refl
round-length pf signaled p behind ahead sweep es r =
    absurd (signaled-stops pf p (record { behind = behind; ahead = ahead }) sweep r)
round-length pf no_child p behind ahead sweep es r = cc
round-length pf failing p behind ahead sweep es r = cc
