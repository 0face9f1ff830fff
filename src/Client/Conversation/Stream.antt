-- ===== src/Client/Conversation/Stream.antt =====
-- The stream from a child process whose timer may ring, and what the client takes from it.
use remote_procedure_control.Prelude.{
  ◌≡◌, ◌<◌, refl, arith, Bool, List, [], ◌∷◌, ◌++◌, append-nil, append_assoc, ◌^◌, Option, some,
  length, take, take-append,
}
use remote_procedure_control.Prelude.Int.{ℤ, pos, negsuc}
use remote_procedure_control.Machine.{Exec, done, ◌>>=◌, Bytes}
use remote_procedure_control.Machine.Cells.{Cells, written}
use remote_procedure_control.Machine.Words.{int_bytes, read_int, read_int-int_bytes}
use remote_procedure_control.Mapper.{Memory}
use remote_procedure_control.Server.{Platform, Calls}
use remote_procedure_control.Server.Timer.{Alarm, gestion_client}
use remote_procedure_control.Client.Conversation.{
  contents, parts, contents-written, parts-int_bytes,
}

-- The blocks one behind the other.
unfoldable pub stream : List Cells → Exec Bytes
stream [] = done []
stream (cells ∷ more) = contents cells >>= λ bytes. stream more >>= λ rest. done (bytes ++ rest)

pub at_most : ℤ → Bytes → Bytes
at_most (pos n) bytes = take n bytes
at_most (negsuc n) bytes = bytes

-- The second `recv` takes at most as many bytes as the first one told.
unfoldable pub sized : Option Bytes → Option Bytes → Exec (Option Bytes × Option Bytes)
sized (some header) (some bytes) =
    read_int header >>= λ (size, _). done (some header, some (at_most size bytes))
sized header bytes = done (header, bytes)

module _ {F : Type 0} where
  -- The socket, with a child process at its other end that sets a timer.
  unfoldable pub timed :
      Platform → Calls F → Memory F → Bool → Alarm → Cells → Exec (Option Bytes × Option Bytes)
  timed p calls memory timer_set alarm cells = do
    bytes ← contents cells
    blocks ← gestion_client p calls memory timer_set alarm (parts bytes).0 (parts bytes).1
    answer ← stream blocks
    sized (parts answer).0 (parts answer).1

pub stream-written :
    (bytes : Bytes) (more : List Cells) (rest : Bytes)
    → stream more ≡ done rest
    → stream (written bytes ∷ more) ≡ done (bytes ++ rest)
unfolding stream
stream-written bytes more rest h = rw (contents-written bytes, h) refl

-- The client sees nothing of what comes behind the first frame.
pub first_frame :
    (answer rest : Bytes)
    → length answer < 2 ^ 31
    → sized
        (parts ((int_bytes (pos (length answer)) ++ answer) ++ rest)).0
        (parts ((int_bytes (pos (length answer)) ++ answer) ++ rest)).1
      ≡ done (some (int_bytes (pos (length answer))), some answer)
unfolding sized at_most
first_frame answer rest h =
    let n : ℤ = pos (length answer) in
    let header : read_int (int_bytes n) ≡ done (n, []) =
      rw append-nil at (read_int-int_bytes n [] (omega arith)) in
    rw
      (
        append_assoc (int_bytes n) answer rest,
        parts-int_bytes n (answer ++ rest),
        header,
        take-append answer rest,
      )
      refl
