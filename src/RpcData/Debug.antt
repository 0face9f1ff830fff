-- ===== src/RpcData/Debug.antt =====
-- The displays of src/u_rpc_data.c for the debugging build: the lines that they write on the error
-- output, between a first and a last line that are always there.
use remote_procedure_control.Prelude.{
  ℕ, zero, suc, ◌+◌, ◌≡◌, ◌≤◌, refl, arith, ◌==◌, if◌then◌else◌, List, [], ◌∷◌, ◌++◌, map, Option,
  none, some, length, append-nil, All,
}
use remote_procedure_control.Prelude.Int.{ℤ, pos, pos_part}
use remote_procedure_control.Machine.{
  Exec, done, undefined, ◌>>=◌, Bytes, c_string, c_string-IsText, int_max, signed_char,
}
use remote_procedure_control.Machine.Words.{int_bytes, read_int, read_int-int_bytes}
use remote_procedure_control.RpcData.{
  rpc_ty_void, rpc_ty_int, rpc_ty_str, RpcArg, Message, deref_int, deref_str,
}
use remote_procedure_control.RpcData.Protocol.{
  Argument, void, number, text, Request, IsArgument, IsRequest, header, body, frame,
  arguments_bytes, to_arg, to_argv, to_message,
}
use remote_procedure_control.RpcData.Serialize.Frame.{length-frame, length-body}

abbrev debug_void : Bytes
debug_void = b'<' ∷ b'<' ∷ b' ' ∷ b'V' ∷ b'O' ∷ b'I' ∷ b'D' ∷ b' ' ∷ b'>' ∷ b'>' ∷ []

abbrev debug_integer : Bytes
debug_integer =
    b'<' ∷ b'<' ∷ b' ' ∷ b'I' ∷ b'N' ∷ b'T' ∷ b'E' ∷ b'G' ∷ b'E' ∷ b'R' ∷ b' ' ∷ b'>' ∷ b'>' ∷ []

abbrev debug_string : Bytes
debug_string =
    b'<' ∷ b'<' ∷ b' ' ∷ b'S' ∷ b'T' ∷ b'R' ∷ b'I' ∷ b'N' ∷ b'G' ∷ b' ' ∷ b'>' ∷ b'>' ∷ []

abbrev debug_error : Bytes
debug_error =
    b'<' ∷ b'<' ∷ b' ' ∷ b'I' ∷ b'N' ∷ b'T' ∷ b'E' ∷ b'R' ∷ b'N' ∷ b'A' ∷ b'L' ∷ b' ' ∷ b'E' ∷ b'R'
    ∷ b'R' ∷ b'O' ∷ b'R' ∷ b' ' ∷ b'>' ∷ b'>' ∷ []

pub debug_type_to_string : ℕ → Bytes
debug_type_to_string typ =
    if typ == rpc_ty_void
    then debug_void
    else if typ == rpc_ty_int
    then debug_integer
    else if typ == rpc_ty_str
    then debug_string
    else debug_error

-- A line: its label and what it shows.
pub data Line : Type 0 where
  is_null : Line
  command_length : ℕ → Line
  command : Bytes → Line
  return_type : Bytes → Line
  argc : ℤ → Line
  argv_text : ℕ → Bytes → Line
  argv_number : ℕ → ℤ → Line
  size : ℤ → Line
  characters : List ℤ → Line

debug_value : ℕ → RpcArg → Exec Line
debug_value cpt arg =
    if arg.typ == rpc_ty_void
    then done (argv_text cpt debug_void)
    else if arg.typ == rpc_ty_int
    then (deref_int arg.pointee >>= λ i. done (argv_number cpt i))
    else if arg.typ == rpc_ty_str
    then (deref_str arg.pointee >>= λ s. done (argv_text cpt (c_string s)))
    else done (argv_text cpt debug_error)

-- `while (cpt < msg->argc)`, with the rounds that are left.
debug_arguments : ℕ → ℕ → List RpcArg → Exec (List Line)
debug_arguments zero cpt args = done []
debug_arguments (suc rounds) cpt [] = undefined
debug_arguments (suc rounds) cpt (arg ∷ args) = do
  line ← debug_value cpt arg
  more ← debug_arguments rounds (cpt + 1) args
  done (argv_text cpt (debug_type_to_string arg.typ) ∷ line ∷ more)

pub debug_display_message : Option Message → Exec (List Line)
debug_display_message none = done (is_null ∷ [])
debug_display_message (some msg) =
    debug_arguments (pos_part msg.argc) 0 (elim msg.argv [ none ↦ [] | some args ↦ args ])
    >>= λ more. done (
        command_length msg.command_length
        ∷ command (c_string msg.command)
        ∷ return_type (debug_type_to_string msg.return_type)
        ∷ argc msg.argc
        ∷ more)

-- The loop over the bytes, each shown as a `char`.
debug_characters : ℕ → Bytes → Exec (List ℤ)
debug_characters zero bytes = done []
debug_characters (suc rounds) [] = undefined
debug_characters (suc rounds) (b ∷ bytes) =
    debug_characters rounds bytes >>= λ more. done (signed_char b ∷ more)

-- `__debug_display_serialized_message`, and `__debug_display_serialized_answer`, which has the same
-- body.
pub debug_display_serialized : Option Bytes → Exec (List Line)
debug_display_serialized none = done (is_null ∷ [])
debug_display_serialized (some serialized) = do
  (message_length, msg) ← read_int serialized
  shown ← debug_characters (pos_part message_length) msg
  done (size message_length ∷ characters shown ∷ [])

debug_characters_lem :
    (bytes rest : Bytes)
    → debug_characters (length bytes) (bytes ++ rest) ≡ done (map signed_char bytes)
unfolding debug_characters
debug_characters_lem [] rest = refl
debug_characters_lem (b ∷ bytes) rest = rw (debug_characters_lem bytes rest) refl

-- On a length and as many bytes, whatever stands behind them.
debug_display_lem :
    (bytes rest : Bytes)
    → length bytes ≤ int_max
    → debug_display_serialized (some (int_bytes (pos (length bytes)) ++ (bytes ++ rest)))
      ≡ done (size (pos (length bytes)) ∷ characters (map signed_char bytes) ∷ [])
unfolding debug_display_serialized
debug_display_lem bytes rest h =
    rw
      (
        read_int-int_bytes (pos (length bytes)) (bytes ++ rest) (omega arith),
        debug_characters_lem bytes rest,
      )
      refl

-- The lines about a request's arguments.
abbrev pub argument_lines : ℕ → List Argument → List Line
argument_lines cpt [] = []
argument_lines cpt (void ∷ as') =
    argv_text cpt debug_void ∷ argv_text cpt debug_void ∷ argument_lines (cpt + 1) as'
argument_lines cpt (number i ∷ as') =
    argv_text cpt debug_integer ∷ argv_number cpt i ∷ argument_lines (cpt + 1) as'
argument_lines cpt (text s ∷ as') =
    argv_text cpt debug_string ∷ argv_text cpt s ∷ argument_lines (cpt + 1) as'

debug_arguments_lem :
    (cpt : ℕ) (as' : List Argument)
    → All IsArgument as'
    → debug_arguments (length as') cpt (map to_arg as') ≡ done (argument_lines cpt as')
unfolding debug_arguments debug_value debug_type_to_string deref_int deref_str
debug_arguments_lem cpt [] v = refl
debug_arguments_lem cpt (void ∷ as') v = rw (debug_arguments_lem (cpt + 1) as' v.1) refl
debug_arguments_lem cpt (number i ∷ as') v = rw (debug_arguments_lem (cpt + 1) as' v.1) refl
debug_arguments_lem cpt (text s ∷ as') v =
    rw (c_string-IsText s v.0.0, debug_arguments_lem (cpt + 1) as' v.1) refl

-- The display of a valid request's message shows the request: its command, its types, and each
-- argument.
pub debug_display-to_message :
    (r : Request)
    → IsRequest r
    → debug_display_message (some (to_message r))
      ≡ done (
          command_length (length r.command)
          ∷ command r.command
          ∷ return_type (debug_type_to_string r.return_type)
          ∷ argc (pos (length r.arguments))
          ∷ argument_lines 0 r.arguments)
unfolding debug_display_message to_message
debug_display-to_message r q =
    rw (c_string-IsText r.command q.command_text, shown r.arguments q.arguments_valid) refl
  where
    shown :
        (as' : List Argument)
        → All IsArgument as'
        → debug_arguments (length as') 0 (elim (to_argv as') [ none ↦ [] | some args ↦ args ])
          ≡ done (argument_lines 0 as')
    shown [] v = debug_arguments_lem 0 [] v
    shown (a ∷ as') v = debug_arguments_lem 0 (a ∷ as') v

-- The display of serialized bytes shows a valid request's frame whole. The server calls it with the
-- body alone, where it takes the length of the command for the size and shows the command only.
pub debug_display-frame :
    (r : Request)
    → IsRequest r
    → (debug_display_serialized (some (frame r))
        ≡ done (size (pos (length (body r))) ∷ characters (map signed_char (body r)) ∷ []))
      × (debug_display_serialized (some (body r))
          ≡ done (size (pos (length r.command)) ∷ characters (map signed_char r.command) ∷ []))
unfolding frame body header
debug_display-frame r q =
    let lf = length-frame r in
    let lb = length-body r in
    (
      rw append-nil at (debug_display_lem (body r) [] (omega (arith, lf, q.fits))),
      debug_display_lem r.command
          (r.return_type ∷ (int_bytes (pos (length r.arguments)) ++ arguments_bytes r.arguments))
          (omega (arith, lf, lb, q.fits)),
    )
