-- ===== src/CallClient.antt =====
-- example/call_client.c: a program that runs the client for one call and passes its output on.
pub mod Request
use remote_procedure_control.Prelude.{
  ℕ, Bool, true, false, List, [], ◌∷◌, ◌++◌, ◌==◌, not, if◌then◌else◌, Option, none, some, length,
}
use remote_procedure_control.Machine.{Bytes}
use remote_procedure_control.Client.Options.{minus_c, minus_ret, minus_str}

-- "../bin/client", as it is called from the directory of the examples.
abbrev pub client_path : Bytes
client_path =
    b'.' ∷ b'.' ∷ b'/' ∷ b'b' ∷ b'i' ∷ b'n' ∷ b'/' ∷ b'c' ∷ b'l' ∷ b'i' ∷ b'e' ∷ b'n' ∷ b't' ∷ []

abbrev pub concat_name : Bytes
concat_name = b'c' ∷ b'o' ∷ b'n' ∷ b'c' ∷ b'a' ∷ b't' ∷ []

-- The words of the client.
abbrev pub request : Bytes → Bytes → List Bytes
request first second =
    client_path ∷ minus_c ∷ concat_name ∷ minus_ret ∷ minus_str ∷ minus_str ∷ first ∷ minus_str
    ∷ second ∷ []

-- `"%s "` of each word.
abbrev pub spaced : List Bytes → Bytes
spaced [] = []
spaced (w ∷ words) = w ++ (b' ' ∷ spaced words)

-- "Request: \n  "
abbrev pub before_request : Bytes
before_request =
    b'R' ∷ b'e' ∷ b'q' ∷ b'u' ∷ b'e' ∷ b's' ∷ b't' ∷ b':' ∷ b' ' ∷ 10 ∷ b' ' ∷ b' ' ∷ []

-- "\n\nAnswer : \n"
abbrev pub after_request : Bytes
after_request = 10 ∷ 10 ∷ b'A' ∷ b'n' ∷ b's' ∷ b'w' ∷ b'e' ∷ b'r' ∷ b' ' ∷ b':' ∷ b' ' ∷ 10 ∷ []

-- The outcomes of `pipe` and `fork`, and of each `read` from the pipe; `none` is -1.
pub record PipeCalls : Type 0 where
  pub pipes : Bool
  pub forks : Bool
  pub reads : List (Option Bytes)

-- How the parent ends: what it has printed, what it has written to the standard output, and its exit
-- status.
pub record Result : Type 0 where
  pub printed : Bytes
  pub passed_on : Bytes
  pub success : Bool

-- `while ((r = read(p[0], buf, 64)) > 0)`: what is written, and whether the last `read` did not fail.
-- The pipe is at its end behind the last one.
unfoldable pub read_loop : List (Option Bytes) → Bytes × Bool
read_loop [] = ([], true)
read_loop (none ∷ reads) = ([], false)
read_loop (some [] ∷ reads) = ([], true)
read_loop (some (b ∷ bs) ∷ reads) = let rest = read_loop reads in ((b ∷ bs) ++ rest.0, rest.1)

-- The parent. Without three words it prints how to use it, on the error output.
unfoldable pub main : PipeCalls → List Bytes → Result
main calls (prog ∷ first ∷ second ∷ []) =
    let text = before_request ++ (spaced (request first second) ++ after_request) in
    if calls.pipes
    then (if calls.forks
        then (let (passed_on, fine) = read_loop calls.reads in
            record { printed = text; passed_on = passed_on; success = fine })
        else record { printed = text; passed_on = []; success = false })
    else record { printed = text; passed_on = []; success = false }
main calls _ = record { printed = []; passed_on = []; success = false }
