-- ===== src/System/Survival.antt =====
-- What the server of src/s_server.c survives.
use remote_procedure_control.Prelude.{
  ℕ, ◌≡◌, ◌≢◌, ◌⊎◌, inl, inr, refl, Bool, true, false, List, [], ◌∷◌, Option, none, some, All, ◌==◌,
  Bool-cases,
}
use remote_procedure_control.Machine.{Exec, done}
use remote_procedure_control.RpcData.{Pointee}
use remote_procedure_control.Mapper.{Memory}
use remote_procedure_control.Server.{Platform, Calls}
use remote_procedure_control.System.Processes.{Reach-at}
use remote_procedure_control.System.{
  Received, Status, exits, by_signal, Phase, serving, ended, Child, Table, update, report, reaped,
  phase_report, phase_left, System, Happening, moved, child_forked, killed_from_outside, course,
  signals, Step, Reach, start, later,
}
use remote_procedure_control.System.Running.{
  IsUp, IsQuiet, own-IsUp, fork-IsUp, IsHarmless, wait-IsUp,
}

module _ {F : Type 0} (calls : Calls F) (memory : Memory F)
    (kills : F → List Pointee → Exec Bool) where
  -- The client lets its child end by itself, and does not shut the server down.
  abbrev pub IsOrderly : Received → Type 0
  IsOrderly r =
      (course calls memory kills r ≡ done exits) × (signals calls memory kills r ≢ done true)

  -- Clients are orderly, memory is there, and nobody else kills the server.
  abbrev pub IsPeaceful : Happening → Type 0
  IsPeaceful (moved e) = IsQuiet e
  IsPeaceful (child_forked son r) = IsOrderly r
  IsPeaceful killed_from_outside = ⊥
  IsPeaceful _ = Unit {0}

  abbrev pub IsServed : Option Child → Type 0
  IsServed none = Unit {0}
  IsServed (some c) = IsOrderly c.received × (c.phase ≢ ended by_signal)

  pub record IsPeace (hs : List Happening) (x : System) : Type 0 where
    calm : x.pending ≡ false
    pub served : (son : ℕ) → IsServed (x.processes son)
    up : IsUp x.server ⊎ ((hs ≡ []) × ((son : ℕ) → x.processes son ≡ none))

  IsServed-update :
      (table : Table) (son : ℕ) (c : Option Child) (n : ℕ)
      → IsServed c
      → IsServed (table n)
      → IsServed (update table son c n)
  IsServed-update table son c n h k = elim (Bool-cases (n == son)) [
    | inl same ↦ rw same h
    | inr other ↦ rw other k
  ]

  phase_left-IsServed : (b : Phase) (c : Child) → IsServed (some c) → IsServed (phase_left b c)
  phase_left-IsServed serving c h = h
  phase_left-IsServed (ended status) c h = tt

  reaped-IsServed : (c : Option Child) → IsServed c → IsServed (reaped c)
  unfolding reaped
  reaped-IsServed none h = tt
  reaped-IsServed (some c) h = phase_left-IsServed c.phase c h

  phase_report-IsHarmless : (b : Phase) → b ≢ ended by_signal → IsHarmless (phase_report b)
  phase_report-IsHarmless serving h = tt
  phase_report-IsHarmless (ended exits) h = tt
  phase_report-IsHarmless (ended by_signal) h = absurd (h refl)

  report-IsHarmless : (c : Option Child) → c ≢ none → IsServed c → IsHarmless (report c)
  unfolding report
  report-IsHarmless none k h = absurd (k refl)
  report-IsHarmless (some c) k h = phase_report-IsHarmless c.phase h.1

  ended-IsPeace :
      {h : Happening} {hs : List Happening} {x : System}
      → IsPeace hs x
      → (son : ℕ) (r : Received) (status : Status)
      → x.processes son ≡ some (record { received = r; phase = serving })
      → IsOrderly r
      → status ≢ by_signal
      → IsPeace (h ∷ hs) (record x {
        processes = update x.processes son (some (record { received = r; phase = ended status }));
      })
  ended-IsPeace {hs = hs} {x = x} i son r status there orderly well = record {
    calm = i.calm;
    served = λ n.
        IsServed-update x.processes son (some (record { received = r; phase = ended status })) n
          (orderly, (λ e. well (cc))) (i.served n);
    up = inl (still i.up);
  }
    where
      still : IsUp x.server ⊎ ((hs ≡ []) × ((n : ℕ) → x.processes n ≡ none)) → IsUp x.server
      still (inl up) = up
      still (inr (first, empty)) = absurd (let k = empty son in cc)

  module _ {pf : Platform} where
    pub Reach-IsPeace :
        {hs : List Happening} {x : System}
        → Reach calls memory kills pf hs x
        → All IsPeaceful hs
        → IsPeace hs x
    Reach-IsPeace (start sockets h) q = record {
      calm = refl;
      served = λ son. tt;
      up = inr (refl, λ son. refl);
    }
    Reach-IsPeace (later r (Step.moves {x} {s} up own st)) (q, qs) =
        let i = Reach-IsPeace r qs in
        record { calm = i.calm; served = i.served; up = inl (own-IsUp pf st own q) }
    Reach-IsPeace (later r (Step.forks {x} {s} son got up free st)) (q, qs) =
        let i = Reach-IsPeace r qs in
        record {
          calm = i.calm;
          served = λ n.
              IsServed-update x.processes son (some (record { received = got; phase = serving })) n
                (q, (λ e. cc)) (i.served n);
          up = inl (fork-IsUp pf st);
        }
    Reach-IsPeace (later r (Step.waits {x} {s} w error p behind ahead up at_p reported st))
          (q, qs) =
        let i = Reach-IsPeace r qs in
        let harmless =
          report-IsHarmless (x.processes p.son) (Reach-at p behind ahead r up at_p)
            (i.served p.son) in
        record {
          calm = i.calm;
          served = λ n.
              IsServed-update x.processes p.son _ n
                (reaped-IsServed (x.processes p.son) (i.served p.son)) (i.served n);
          up = inl (wait-IsUp pf st (rw reported at harmless));
        }
    Reach-IsPeace (later r (Step.child_ends {x} son got status there c)) (q, qs) =
        let i = Reach-IsPeace r qs in
        let (orderly, here) = rw there at (i.served son) in
        ended-IsPeace i son got status there orderly (λ e. let k = orderly.0 in cc)
    Reach-IsPeace (later r (Step.child_breaks son got status there c)) (q, qs) =
        let i = Reach-IsPeace r qs in
        let (orderly, here) = rw there at (i.served son) in absurd (let k = orderly.0 in cc)
    Reach-IsPeace (later r (Step.child_signals son got there k)) (q, qs) =
        let i = Reach-IsPeace r qs in
        let (orderly, here) = rw there at (i.served son) in absurd (orderly.1 k)
    Reach-IsPeace (later r (Step.delivers up pending)) (q, qs) =
        let i = Reach-IsPeace r qs in absurd (let k = i.calm in cc)
    Reach-IsPeace (later r (Step.is_killed up)) (q, qs) = absurd q

    -- The server survives orderly clients. Suppose that memory is granted for every entry of the
    -- tracker, that nobody kills the server from outside, and that each child forked so far has a
    -- client with which it exits by itself and does not send the server its signal. Then after
    -- any steps of the server's threads and of its children, in whatever order they come and
    -- whatever other calls fail, the server runs.
    pub Reach-survives :
        {h : Happening} {hs : List Happening} {x : System}
        → Reach calls memory kills pf (h ∷ hs) x
        → All IsPeaceful (h ∷ hs)
        → IsUp x.server
    Reach-survives {h} {hs} {x} r q = runs (Reach-IsPeace r q).up
      where
        runs :
            IsUp x.server ⊎ ((h ∷ hs ≡ []) × ((son : ℕ) → x.processes son ≡ none)) → IsUp x.server
        runs (inl up) = up
        runs (inr (first, empty)) = cc
