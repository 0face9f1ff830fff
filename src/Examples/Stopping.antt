-- ===== src/Examples/Stopping.antt =====
-- The theorems on the shutdown of the server and on the example program, at concrete words.
use remote_procedure_control.Prelude.{◌≡◌, ◌↔◌, refl, arith, true, false, [], ◌∷◌, none, some}
use remote_procedure_control.Machine.{done, undefined, str_eq, c_string}
use remote_procedure_control.Server.Timer.{never, before_answer}
use remote_procedure_control.Client.CommandLine
use remote_procedure_control.Client.CommandLine.{Flag, Shown, succeeds, flag}
use remote_procedure_control.Client.Options.{minus_s}
use remote_procedure_control.Defaults.{division, default_calls, kills}
use remote_procedure_control.Defaults.Password.{admin}
use remote_procedure_control.Service.{default_memory, registrations_lem}
use remote_procedure_control.System.{System, update, serving, course, signals, exits}
use remote_procedure_control.System.Crash.{CanExit}
use remote_procedure_control.System.Division.{division-exits}
use remote_procedure_control.Server.Loop.{running}
use remote_procedure_control.Prelude.Int.{pos}
use remote_procedure_control.Defaults.Registered.{operator_request}
use remote_procedure_control.Examples.Threads.{process, at_process}
use remote_procedure_control.System.Requests.{received_of}
use remote_procedure_control.System.Shutdown.{shutdown_request, shutdown_lem}
use remote_procedure_control.CallClient.{client_path, request}
use remote_procedure_control.CallClient.Request.{request-overruns}
use remote_procedure_control.Examples.{granted, granted-IsGranting, hello, plus_name}
use remote_procedure_control.Examples.Service.{working, working-IsWorking}
use remote_procedure_control.Examples.Defaults.{network, network-IsOpen}

-- A wrong password, and a timer that rings.
shutdown_lem_example :
    (CommandLine.main granted (λ n. network) (client_path ∷ minus_s ∷ hello ∷ [])
      ≡ done (succeeds Shown.nothing))
    × (course
          (default_calls true none)
          default_memory
          kills
          (received_of working (shutdown_request hello) true before_answer false)
        ≡ done exits)
    × ((signals
            (default_calls true none)
            default_memory
            kills
            (received_of working (shutdown_request hello) true before_answer false)
          ≡ done true)
        ↔ (hello ≡ admin))
shutdown_lem_example =
    shutdown_lem true none default_memory hello registrations_lem (omega arith) working
      working-IsWorking granted (λ n. network) client_path minus_s true before_answer network-IsOpen
      granted-IsGranting granted-IsGranting (unfold flag str_eq c_string in refl)

request-overruns_example :
    CommandLine.main granted (λ n. network) (request hello plus_name) ≡ undefined
request-overruns_example =
    request-overruns granted (λ n. network) hello plus_name granted-IsGranting

-- The tracker has come to the child that divides 7 by zero.
abbrev divides : System
divides = record {
  server = running at_process;
  processes =
      update (λ son. none) 11
        (some (record {
          received =
              received_of working (operator_request division (pos 7) (pos 0)) true never false;
          phase = serving;
        }));
  pending = false;
}

division-exits_example : CanExit (default_calls true none) default_memory kills working divides
division-exits_example =
    division-exits true none default_memory (pos 7) working working true false 0 process [] []
      registrations_lem working-IsWorking working-IsWorking (omega arith, λ e. cc) refl refl refl
