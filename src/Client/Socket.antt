-- ===== src/Client/Socket.antt =====
-- `clt_sock` of src/c_client.c: the socket of a call.
use remote_procedure_control.Prelude.{
  ℕ, Bool, true, false, ◌≡◌, refl, if◌then◌else◌, [], ◌∷◌, Option, none, some, take,
}
use remote_procedure_control.Machine.{done, Bytes, c_string}
use remote_procedure_control.Machine.Cells.{Cells}
use remote_procedure_control.RpcData.{Message}
use remote_procedure_control.RpcData.Serialize.{serialize_message}
use remote_procedure_control.Client.{Network, failed, send_cmd, transmition}

-- `SOCK_PATH`
abbrev pub sock_path : Bytes
sock_path =
    b'/' ∷ b't' ∷ b'm' ∷ b'p' ∷ b'/' ∷ b'r' ∷ b'c' ∷ b'p' ∷ b'_' ∷ b's' ∷ b'o' ∷ b'c' ∷ b'k' ∷ b'e'
    ∷ b't' ∷ []

-- The name in the address: `strncpy` of all but one of its 108 bytes, which are zero before.
unfoldable pub sun_path : Bytes → Bytes
sun_path path = take 107 (c_string path)

-- `none` is -1. The socket that could not be connected stays open.
unfoldable pub clt_sock : Option ℕ → (ℕ → Bytes → Bool) → Bytes → Option ℕ
clt_sock socket connect path = elim socket [
  | none ↦ none
  | some clt ↦ if connect clt (sun_path path) then some clt else none
]

-- The network of a call, with the outcomes of `socket` and `connect`.
abbrev pub dialing : Option ℕ → (ℕ → Bytes → Bool) → Network → Network
dialing socket connect net = record net {
  connects = elim (clt_sock socket connect sock_path) [ none ↦ false | some clt ↦ true ];
}

-- The whole path is in the address.
pub sun_path_whole : sun_path sock_path ≡ sock_path
unfolding sun_path c_string
sun_path_whole = refl

-- A call without a connection fails, and stores nothing.
pub transmition_unconnected :
    (socket : Option ℕ) (connect : ℕ → Bytes → Bool) (net : Network) (ret : Option ℕ)
    (msg : Message) {serial : Option (ℕ × Cells)}
    → clt_sock socket connect sock_path ≡ none
    → serialize_message net.sending (some msg) ≡ done serial
    → transmition (dialing socket connect net) ret msg ≡ done failed
unfolding transmition send_cmd
transmition_unconnected socket connect net ret msg refused serialized =
    let unconnected : (dialing socket connect net).connects ≡ false = rw (refused, dialing) refl in
    rw (serialized, unconnected) refl
