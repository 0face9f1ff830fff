-- ===== src/System/Shutdown.antt =====
-- `client --shutdown` of src/c_client.c and the function `shutdown` of src/s_defaults.c, at the server
-- of src/s_server.c.
use remote_procedure_control.Prelude.{
  ℕ, ◌≡◌, ◌↔◌, refl, ap, ◌∙◌, arith, Bool, true, false, [], ◌∷◌, Option, none, some, length,
  length-append,
}
use remote_procedure_control.Prelude.Int.{pos_part}
use remote_procedure_control.Machine.{Exec, done, Bytes}
use remote_procedure_control.Machine.Cells.{written}
use remote_procedure_control.RpcData.{str, Malloc}
use remote_procedure_control.RpcData.Protocol.{
  void, text, Request, IsRequest, IsArgument, argument_bytes, arguments_bytes,
}
use remote_procedure_control.RpcData.Serialize.Frame.{length-body, length-frame}
use remote_procedure_control.RpcData.Deserialize.Accepts.{IsGranting}
use remote_procedure_control.RpcData.Answer.Layout.{answer_frame}
use remote_procedure_control.Mapper.{Function, FunctionMapper, Memory, empty_memory, get_function}
use remote_procedure_control.Server.{Platform, answered}
use remote_procedure_control.Server.Called.Found.{called_lem}
use remote_procedure_control.Server.Verification.{Fits}
use remote_procedure_control.Server.Errors.{IsWorking, handled}
use remote_procedure_control.Server.Answers.{datas, Gives, execute_client_value}
use remote_procedure_control.Server.Timer.{Alarm}
use remote_procedure_control.Server.Loop.{State, Server, running}
use remote_procedure_control.Client.{Network}
use remote_procedure_control.Client.Call.{external_call_lem}
use remote_procedure_control.Client.CommandLine.{Flag, Shown, succeeds, flag, call_shutdown}
use remote_procedure_control.Client.CommandLine
use remote_procedure_control.Client.CommandLine.Stopping.{main-shutdown}
use remote_procedure_control.Client.Options.{shutdown_name}
use remote_procedure_control.Client.Conversation.{IsOpen, transmition_value}
use remote_procedure_control.Defaults.{Default, shutdown, default_calls, call_void_default, kills}
use remote_procedure_control.Defaults.Password.{admin, kills_iff, call_shutdown_lem}
use remote_procedure_control.Defaults.Registration.{default_name, add_default_functions}
use remote_procedure_control.Defaults.Registered.{signature, registered_function}
use remote_procedure_control.System.{
  parent_signaled, signal_delivered, exits, serving, System, course, signals, Steps, no_step, step,
  Step,
}
use remote_procedure_control.System.Requests.{received_of, answered_course}

-- The request of `call_shutdown`.
abbrev pub shutdown_request : Bytes → Request
shutdown_request password = record {
  command = shutdown_name;
  return_type = 0;
  arguments = text password ∷ [];
}

shutdown_request-IsRequest :
    (password : Bytes) → IsArgument (text password) → IsRequest (shutdown_request password)
shutdown_request-IsRequest password h =
    let r = shutdown_request password in
    record {
      command_text = omega arith;
      return_exists = omega arith;
      arguments_valid = (h, tt);
      fits = omega (
        arith,
        length-frame r,
        length-body r,
        length-append (argument_bytes (text password)) (arguments_bytes []),
      );
    }

module _ (granted : Bool) (doc : Option Bytes) (memory : Memory Default) (password : Bytes)
    (added : add_default_functions (λ _. true) empty_memory ≡ done memory)
    (h : IsArgument (text password)) (p : Platform) (w : IsWorking p) where
  abbrev asked : Request
  asked = shutdown_request password

  abbrev kills_at : Bool → Alarm → Bool → Exec Bool
  kills_at timer_set alarm hung_up =
      signals (default_calls granted doc) memory kills (received_of p asked timer_set alarm hung_up)

  found :
      (f : FunctionMapper Default) × (get_function (some memory) shutdown_name ≡ some f)
      × (f.fun ≡ signature shutdown)
  unfolding default_name
  found = registered_function memory shutdown added

  stored : length found.0.fun.argv ≡ pos_part found.0.fun.argc
  stored = rw found.2 refl

  fits : Fits found.0.fun asked
  fits = rw found.2 (record { counted = refl; typed = refl; returned = refl })

  gives : Gives (default_calls granted doc) found.0.fun.fun_ptr 0 (datas asked.arguments) void
  gives = (
    refl,
    ap (λ (g : Function Default). call_void_default g.fun_ptr (datas asked.arguments)) found.2
        ∙ call_shutdown_lem password h.0,
  )

  answered_lem :
      handled p (default_calls granted doc) memory asked
      ≡ done (answered (written (answer_frame void)))
  answered_lem =
      execute_client_value p (default_calls granted doc) memory asked found.0 void w
        (shutdown_request-IsRequest password h) found.1 stored fits (omega arith) tt gives

  kills_lem :
      (timer_set : Bool) (alarm : Alarm) (hung_up : Bool)
      → kills_at timer_set alarm hung_up ≡ kills shutdown (str password ∷ [])
  unfolding signals
  kills_lem timer_set alarm hung_up =
      rw
        (called_lem memory p asked w found.0 (shutdown_request-IsRequest password h) found.1 stored
          fits (omega arith))
        (ap (λ (g : Function Default). kills g.fun_ptr (datas asked.arguments)) found.2)

  -- `client --shutdown` with any password that the format can carry, at a server with the default
  -- functions: on a network that works, the client succeeds whatever the password is; the child
  -- exits if the client does not hang up, whether its timer rings or not; and it calls the function
  -- that sends the server its signal exactly if the password is `admin`.
  pub shutdown_lem :
      (malloc : Malloc) (networks : ℕ → Network) (prog cmd : Bytes) (timer_set : Bool)
      (alarm : Alarm)
      → IsOpen (networks 1) p (default_calls granted doc) memory
      → IsGranting (networks 1).calling
      → IsGranting (networks 1).creating
      → flag cmd ≡ Flag.shutdown
      → (CommandLine.main malloc networks (prog ∷ cmd ∷ password ∷ [])
          ≡ done (succeeds Shown.nothing))
        × (course
              (default_calls granted doc)
              memory
              kills
              (received_of p asked timer_set alarm false)
            ≡ done exits)
        × ((kills_at timer_set alarm false ≡ done true) ↔ (password ≡ admin))
  unfolding call_shutdown
  shutdown_lem malloc networks prog cmd timer_set alarm o calling creating flagged =
      let q = shutdown_request-IsRequest password h in
      let net = networks 1 in
      (
        main-shutdown malloc networks prog cmd password flagged (
            external_call_lem net asked none calling creating q (tt, tt)
            ∙ transmition_value net p (default_calls granted doc) memory asked o q none found.0 void
                found.1 stored fits (omega arith) tt gives tt),
        answered_course (default_calls granted doc) memory kills p asked w timer_set alarm false
            (written (answer_frame void)) answered_lem,
        rw (kills_lem timer_set alarm false) (kills_iff password h.0),
      )

-- The right password stops the server: where a child serves the request, there are two steps, its
-- signal to the server and the delivery of it, after which the server has exited.
pub shutdown-exits :
    (granted : Bool) (doc : Option Bytes) (memory : Memory Default) (p pf : Platform)
    (timer_set : Bool) (alarm : Alarm) {x : System} {s : State} (son : ℕ)
    → add_default_functions (λ _. true) empty_memory ≡ done memory
    → IsWorking p
    → x.server ≡ running s
    → x.processes son
      ≡ some (record {
        received = received_of p (shutdown_request admin) timer_set alarm false;
        phase = serving;
      })
    → (y : System) × Steps
        (default_calls granted doc)
        memory
        kills
        pf
        x
        (parent_signaled son ∷ signal_delivered ∷ [])
        y
      × (y.server ≡ Server.exited)
shutdown-exits granted doc memory p pf timer_set alarm {x} son added w up there =
    let h : IsArgument (text admin) = omega arith in
    let sends =
      kills_lem granted doc memory admin added h p w timer_set alarm false
      ∙ (kills_iff admin h.0).1 refl in
    (
      record x { server = Server.exited; pending = true },
      step (Step.child_signals son _ there sends) (step (Step.delivers up refl) no_step),
      refl,
    )
