-- ===== src/Server/Called/Only.antt =====
-- A child process calls one function at most.
use remote_procedure_control.Prelude.{◌≡◌, refl, ap, List, leb, Option, some, Bool-cases, inl, inr}
use remote_procedure_control.Machine.{Exec, done, undefined, diverges, ◌>>=◌, Bytes}
use remote_procedure_control.RpcData.{Pointee, Message, rpc_ty_str}
use remote_procedure_control.Mapper.{Function, FunctionMapper, Memory}
use remote_procedure_control.Server.{
  Platform, Calls, Ending, goes, ends, Process, returns, ◌>>>◌, has_case, call_arguments, read_msg,
  search_function, verification_function, execute_typed, execute_function, send_answer, finish,
  answer_client, execute_client,
}
use remote_procedure_control.Server.Called.{until_call, made, called}

module _ {F : Type 0} where
  -- The same outcomes of a call.
  abbrev pub Agree : Calls F → Calls F → F → List Pointee → Type 0
  Agree calls calls' g args =
      (calls.call_void g args ≡ calls'.call_void g args)
      × (calls.call_int g args ≡ calls'.call_int g args)
      × (calls.call_str g args ≡ calls'.call_str g args)

  -- The same outcomes of the call that is made, if any.
  abbrev pub AgreeAt : Calls F → Calls F → Exec (Option (F × List Pointee)) → Type 0
  AgreeAt calls calls' (done (some (g, args))) = Agree calls calls' g args
  AgreeAt calls calls' _ = Unit {0}

  module _ (p : Platform) (calls calls' : Calls F) where
    typed_agree :
        (f : Function F) (msg : Message) (args : Exec (List Pointee))
        → call_arguments msg ≡ args
        → AgreeAt calls calls' ((args >>= λ a. returns (f.fun_ptr, a)) >>= λ s. done (made s))
        → execute_typed p calls f msg ≡ execute_typed p calls' f msg
    unfolding execute_typed made
    typed_agree f msg (done args) e (v, i, s) = rw (e, v, i, s) refl
    typed_agree f msg undefined e h = rw e refl
    typed_agree f msg diverges e h = rw e refl

    function_agree :
        (f : Function F) (msg : Message)
        → AgreeAt calls calls' (until_call f msg >>= λ s. done (made s))
        → execute_function p calls f msg ≡ execute_function p calls' f msg
    unfolding execute_function until_call made
    function_agree f msg h = elim (Bool-cases (leb msg.return_type rpc_ty_str)) [
      | inl known ↦ elim (Bool-cases (has_case msg.argc)) [
        | inl few ↦
            rw (known, few) (typed_agree f msg (call_arguments msg) refl (rw (known, few) at h))
        | inr many ↦ rw (known, many) refl
      ]
      | inr unknown ↦ rw unknown refl
    ]

    abbrev made_of : Process (F × List Pointee) → Exec (Option (F × List Pointee))
    made_of m = m >>= λ s. done (made s)

    abbrev answer : Calls F → Function F → Message → Process Ending
    answer c f msg = execute_function p c f msg >>> λ block. send_answer p block >>= λ e. returns e

    verified_agree :
        (f : Function F) (msg : Message) (v : Process (Unit {0}))
        → AgreeAt calls calls' (made_of (v >>> λ _. until_call f msg))
        → (v >>> λ _. answer calls f msg) ≡ (v >>> λ _. answer calls' f msg)
    verified_agree f msg (done (goes u)) h = rw (function_agree f msg h) refl
    verified_agree f msg (done (ends e)) h = refl
    verified_agree f msg undefined h = refl
    verified_agree f msg diverges h = refl

    searched_agree :
        (msg : Message) (m : Process (FunctionMapper F))
        → AgreeAt calls calls'
            (made_of (m >>> λ f. verification_function p f.fun msg >>> λ _. until_call f.fun msg))
        → (m >>> λ f. verification_function p f.fun msg >>> λ _. answer calls f.fun msg)
          ≡ (m >>> λ f. verification_function p f.fun msg >>> λ _. answer calls' f.fun msg)
    searched_agree msg (done (goes f)) h =
        verified_agree f.fun msg (verification_function p f.fun msg) h
    searched_agree msg (done (ends e)) h = refl
    searched_agree msg undefined h = refl
    searched_agree msg diverges h = refl

    read_agree :
        (memory : Memory F) (m : Process Message)
        → AgreeAt calls calls' (
            made_of (
              m >>> λ msg. search_function p memory msg >>> λ f.
              verification_function p f.fun msg >>> λ _. until_call f.fun msg))
        → (m >>> λ msg. search_function p memory msg >>> λ f.
            verification_function p f.fun msg >>> λ _. answer calls f.fun msg)
          ≡ (m >>> λ msg. search_function p memory msg >>> λ f.
              verification_function p f.fun msg >>> λ _. answer calls' f.fun msg)
    read_agree memory (done (goes msg)) h = searched_agree msg (search_function p memory msg) h
    read_agree memory (done (ends e)) h = refl
    read_agree memory undefined h = refl
    read_agree memory diverges h = refl

    -- Whatever bytes it receives, a child process calls no function but the one that it has found,
    -- and that one only with the data of the message: if two sets of functions have the same
    -- outcomes of that call, the child ends in the same way with both, and if no call is made, with
    -- all.
    pub only_call :
        (memory : Memory F) (size_bytes body : Option Bytes)
        → AgreeAt calls calls' (called p memory size_bytes body)
        → execute_client p calls memory size_bytes body
          ≡ execute_client p calls' memory size_bytes body
    unfolding execute_client answer_client called
    only_call memory size_bytes body h =
        ap (λ m. m >>= finish) (read_agree memory (read_msg p size_bytes body) h)
