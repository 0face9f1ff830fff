-- ===== src/RpcData/Deserialize/Accepts.antt =====
-- `deserialize_message` accepts the body of every request and gives the request's message.
use remote_procedure_control.Prelude.{
  ℕ, ◌+◌, ◌*◌, ◌^◌, ltb, ◌≡◌, ◌≤◌, ◌<◌, refl, true, List, [], ◌∷◌, ◌++◌, map, arith, some, length,
  length-append, append_assoc, All,
}
use remote_procedure_control.Prelude.Int.{ℤ, pos, ◌-ℤ◌}
use remote_procedure_control.Machine.{
  done, ◌>>=◌, Bytes, int_max, read_bytes-append, checked, checked_size,
}
use remote_procedure_control.Machine.Words.{int_bytes, read_int-int_bytes}
use remote_procedure_control.RpcData.{
  sizeof_int, Malloc, Site, command_site, argv_site, arg_site, sizeof_rpc_arg,
}
use remote_procedure_control.RpcData.Integer.RoundTrip.{deserialize-integer_bytes}
use remote_procedure_control.RpcData.Serialize.Frame.{length-body, length-frame}
use remote_procedure_control.RpcData.Deserialize.{
  read_int_arg, read_str_arg, read_arg, read_args, read_argv, read_byte, finish_body, read_body,
  read_message, deserialize_message,
}
use remote_procedure_control.RpcData.Protocol.{
  Argument, void, number, text, Request, IsRequest, IsArgument, header, body, argument_bytes,
  arguments_bytes, to_message, to_arg, to_argv,
}

-- No call of `malloc` for less than a terabyte is refused. (No block of a message is that large.)
abbrev pub IsGranting : Malloc → Type 0
IsGranting malloc = (s : Site) (n : ℕ) → n < 2 ^ 40 → malloc s n ≡ true

argument_bytes-pos : (a : Argument) → 1 ≤ length (argument_bytes a)
argument_bytes-pos void = omega arith
argument_bytes-pos (number i) = omega arith
argument_bytes-pos (text s) = omega arith

pub length-le-bytes : (as' : List Argument) → length as' ≤ length (arguments_bytes as')
length-le-bytes [] = omega arith
length-le-bytes (a ∷ as') =
    rw (length-append (argument_bytes a) (arguments_bytes as'))
      (omega (arith, argument_bytes-pos a, length-le-bytes as'))

pub body-append :
    (r : Request) (rest : Bytes)
    → body r ++ rest
      ≡ header r.command r.return_type (length r.arguments) (arguments_bytes r.arguments ++ rest)
unfolding body
body-append r rest = simp append_assoc

-- On any message with a whole header, the result is that of the argument loop.
pub deserialize-header :
    (malloc : Malloc) (size : ℤ) (command : Bytes) (return_type argc : ℕ) (args : Bytes)
    → IsGranting malloc
    → length command < int_max
    → argc ≤ int_max
    → deserialize_message malloc true size (some (header command return_type argc args)) ≡ (
        read_argv malloc (pos argc) args
        >>= finish_body size (length command) command return_type (pos argc))
unfolding deserialize_message read_message read_body read_byte header
deserialize-header malloc size command return_type argc args granting hc ha =
    let tail = return_type ∷ (int_bytes (pos argc) ++ args) in
    let room : checked_size (length command + 1) ≡ done (length command + 1) = ground arith in
    rw (
      read_int-int_bytes (pos (length command)) (command ++ tail) (omega arith),
      room,
      granting command_site (length command + 1) (omega arith),
      read_bytes-append (length command) command tail refl,
      read_int-int_bytes (pos argc) args (omega arith),
    )

module _ (malloc : Malloc) (granting : IsGranting malloc) where
  pub read_arg_lem :
      (a : Argument) (rounds i : ℕ) (rest : Bytes)
      → IsArgument a
      → read_arg malloc rounds i (argument_bytes a ++ rest)
        ≡ done (some (to_arg a, length (argument_bytes a), rest))
  unfolding read_arg read_int_arg read_str_arg
  read_arg_lem void rounds i rest h = refl
  read_arg_lem (number n) rounds i rest h =
      rw (granting (arg_site i) 4 (omega arith), deserialize-integer_bytes n rest h.0 h.1)
        (ground arith)
  read_arg_lem (text s) rounds i rest h =
      let short : ltb (length s) 128 ≡ true = ground arith in
      rw
        (
          short,
          granting (arg_site i) (length s + 1) (omega arith),
          read_bytes-append (length s) s rest refl,
        )
        (ground arith)

  read_args_lem :
      (as' : List Argument) (i : ℕ) (rest : Bytes)
      → All IsArgument as'
      → read_args malloc (length as') i (arguments_bytes as' ++ rest)
        ≡ done (some (map to_arg as', length (arguments_bytes as'), rest))
  unfolding read_args
  read_args_lem [] i rest h = refl
  read_args_lem (a ∷ as') i rest (h, hs) = rw (
    append_assoc (argument_bytes a) (arguments_bytes as') rest,
    read_arg_lem a (length as') i (arguments_bytes as' ++ rest) h,
    read_args_lem as' (i + 1) rest hs,
    length-append (argument_bytes a) (arguments_bytes as'),
  )

  read_argv_lem :
      (as' : List Argument) (rest : Bytes)
      → All IsArgument as'
      → length as' ≤ int_max
      → read_argv malloc (pos (length as')) (arguments_bytes as' ++ rest)
        ≡ done (some (to_argv as', length (arguments_bytes as'), rest))
  unfolding read_argv
  read_argv_lem [] rest h k = refl
  read_argv_lem (a ∷ as') rest h k = rw (
    granting argv_site (length (a ∷ as') * sizeof_rpc_arg) (omega arith),
    read_args_lem (a ∷ as') 0 rest h,
  )

  -- With a granting allocator, on the body of a valid request with anything behind it
  -- `deserialize_message` returns 0 and the request's message.
  pub deserialize-body :
      (r : Request) (rest : Bytes)
      → IsRequest r
      → deserialize_message malloc true (pos (length (body r))) (some (body r ++ rest))
        ≡ done (pos 0, some (to_message r))
  unfolding to_message finish_body
  deserialize-body r rest v =
      let cl = length r.command in
      let lb = length-body r in
      let lf = length-frame r in
      let few : length r.arguments ≤ int_max =
        omega (arith, lb, lf, v.fits, length-le-bytes r.arguments) in
      let size : ℤ = pos (length (body r)) in
      let whole : checked_size (length (body r)) ≡ done (length (body r)) =
        ground (arith, lf, v.fits) in
      let same : 2 * sizeof_int + cl + 1 + length (arguments_bytes r.arguments) ≡ length (body r) =
        omega (arith, lb) in
      let none_left : checked (size -ℤ size) ≡ done (pos 0) = ground arith in
      rw (
        body-append r rest,
        deserialize-header malloc (pos (length (body r))) r.command r.return_type
            (length r.arguments) (arguments_bytes r.arguments ++ rest) granting
            (omega (arith, lb, lf, v.fits)) few,
        read_argv_lem r.arguments rest v.arguments_valid few,
        same,
        whole,
        none_left,
      )
