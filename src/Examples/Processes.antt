-- ===== src/Examples/Processes.antt =====
-- The theorems on the tracker thread at three processes.
use remote_procedure_control.Prelude.{ℕ, ◌≡◌, refl, true, false, List, [], ◌∷◌, ◌++◌}
use remote_procedure_control.Machine.{done}
use remote_procedure_control.Machine.Cells.{written}
use remote_procedure_control.RpcData.Answer.Layout.{error_frame}
use remote_procedure_control.Server.{answered}
use remote_procedure_control.Server.Tracker.{Alive, signaled, goes_on, stopped, run}
use remote_procedure_control.Server.Tracker.Sweeps.{Course, reports, sweep_lem, sweep_signaled}
use remote_procedure_control.Examples.Service.{working, working-IsWorking}

abbrev process : ℕ → Alive
process n = record { son = n; client_fd = n }

-- The first child exits after two looks, the second is stopped.
abbrev courses : List Course
courses = record { waits = 2; gone = true } ∷ record { waits = 0; gone = false } ∷ []

sweep_lem_test :
    run working (reports courses) [] (process 11 ∷ process 12 ∷ [])
    ≡ done (goes_on (record { behind = process 12 ∷ []; ahead = [] }))
sweep_lem_test = sweep_lem working courses (process 11 ∷ process 12 ∷ []) refl

sweep_signaled_test :
    run working
      (reports courses ++ (signaled ∷ []))
      []
      ((process 11 ∷ process 12 ∷ []) ++ (process 13 ∷ []))
    ≡ done (stopped (answered (written (error_frame 3))))
sweep_signaled_test =
    sweep_signaled working courses [] (process 11 ∷ process 12 ∷ []) (process 13) []
      working-IsWorking refl
