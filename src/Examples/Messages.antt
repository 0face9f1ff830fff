-- ===== src/Examples/Messages.antt =====
-- The theorems on messages, answers and integers at concrete values.
use remote_procedure_control.Prelude.{
  suc, ◌+◌, ◌*◌, ◌≡◌, ◌≤◌, refl, arith, true, false, [], ◌∷◌, ◌++◌, map, none, some, length,
  replicate,
}
use remote_procedure_control.Prelude.Int.{pos, negsuc, pos_part}
use remote_procedure_control.Machine.{signed_char, c_string, strlen, done, undefined, ◌>>=◌, Bytes}
use remote_procedure_control.Machine.Cells.{fresh, written}
use remote_procedure_control.Machine.Words.{int_bytes, read_int, read_int-int_bytes}
use remote_procedure_control.RpcData.{type_exists, Malloc, RpcArg, null, argv_site, sizeof_rpc_arg}
use remote_procedure_control.RpcData.Create.{fill_message, copy_argv, create_message, free_message}
use remote_procedure_control.RpcData.Create.Copies.{
  cut, cut_request, blocks, create_message_lem, free-create,
}
use remote_procedure_control.RpcData.Create.Failure.{create_message-eq-none}
use remote_procedure_control.RpcData.Integer.{
  count_digits, write_digits, serialize_integer, deserialize_integer,
}
use remote_procedure_control.RpcData.Integer.Decimal.{
  integer_bytes, decimal_ℤ, decimal, digits_onto,
}
use remote_procedure_control.RpcData.Integer.Writing.{serialize_integer_lem}
use remote_procedure_control.RpcData.Integer.RoundTrip.{deserialize-integer_bytes}
use remote_procedure_control.RpcData.ArgSize.{arg_size}
use remote_procedure_control.RpcData.ArgSize.Exact.{arg_size_lem}
use remote_procedure_control.RpcData.Protocol.{
  text, header, body, frame, argument_bytes, arguments_bytes, to_arg, to_argv, to_message,
}
use remote_procedure_control.RpcData.Serialize.{write_args, serialize_message}
use remote_procedure_control.RpcData.Serialize.Arguments.{write_args_lem}
use remote_procedure_control.RpcData.Serialize.Frame.{serialize_message-frame}
use remote_procedure_control.RpcData.Serialize.Overrun.{bad_message, serialize_message_overrun}
use remote_procedure_control.RpcData.Deserialize.{deserialize_message}
use remote_procedure_control.RpcData.Deserialize.Accepts.{deserialize-body}
use remote_procedure_control.RpcData.Deserialize.Faults.{
  deserialize_unknown_type, deserialize_long_text,
}
use remote_procedure_control.RpcData.Answer.{serialize_answer, deserialize_answer}
use remote_procedure_control.RpcData.Answer.Layout.{
  answer_body, answer_frame, error_frame, serialize_answer_frame, serialize_answer_error,
}
use remote_procedure_control.RpcData.Answer.RoundTrip.{deserialize-answer_body, deserialize-error}
use remote_procedure_control.RpcData.Deserialize.Typed.{IsArgv, deserialize_message-IsArgv}
use remote_procedure_control.RpcData.Integer.Rounds.{digit_loops-end}
use remote_procedure_control.RpcData.Debug.{
  Line, debug_display_serialized, debug_display-frame, debug_display_message, debug_type_to_string,
  argument_lines, debug_display-to_message,
}
use remote_procedure_control.Examples.{
  granted, granted-IsGranting, granted-IsRefusing, plus_name, hello, two_numbers, two_numbers-valid,
  mixed, mixed-valid, plus_request, plus_request-IsRequest,
}

read_int-int_bytes_test : read_int (int_bytes (negsuc 6) ++ (7 ∷ [])) ≡ done (negsuc 6, 7 ∷ [])
read_int-int_bytes_test = read_int-int_bytes (negsuc 6) (7 ∷ []) (omega arith)

serialize_integer_lem_test :
    serialize_integer
      (negsuc 1232)
      1
      ((none ∷ []) ++ (replicate (length (integer_bytes (negsuc 1232))) none ++ []))
    ≡ done (
      length (integer_bytes (negsuc 1232)),
      (none ∷ []) ++ (written (integer_bytes (negsuc 1232)) ++ []),
    )
serialize_integer_lem_test =
    serialize_integer_lem (negsuc 1232) 1 (none ∷ []) [] (omega arith) (λ h. ground arith) refl

deserialize-integer_bytes_example :
    deserialize_integer (integer_bytes (negsuc 1232) ++ (9 ∷ []))
    ≡ done (negsuc 1232, length (integer_bytes (negsuc 1232)), 9 ∷ [])
deserialize-integer_bytes_example =
    deserialize-integer_bytes (negsuc 1232) (9 ∷ []) (omega arith) (λ h. ground arith)

arg_size_lem_test :
    arg_size (pos (length two_numbers)) (to_argv two_numbers)
    ≡ done (some (length (arguments_bytes two_numbers)))
arg_size_lem_test =
    arg_size_lem two_numbers two_numbers-valid
      (unfold integer_bytes decimal_ℤ decimal digits_onto in omega arith)

write_args_lem_test :
    write_args
      (length mixed)
      (map to_arg mixed)
      2
      (written (8 ∷ 9 ∷ []) ++ fresh (length (arguments_bytes mixed) + 3))
    ≡ done (some (written ((8 ∷ 9 ∷ []) ++ arguments_bytes mixed) ++ fresh 3))
write_args_lem_test =
    write_args_lem mixed (8 ∷ 9 ∷ []) 2 (length (arguments_bytes mixed) + 3) 3 mixed-valid refl refl

serialize_message-frame_example :
    serialize_message granted (some (to_message plus_request))
    ≡ done (some (length (frame plus_request), written (frame plus_request)))
serialize_message-frame_example =
    serialize_message-frame granted plus_request plus_request-IsRequest
      (unfold frame body header int_bytes integer_bytes decimal_ℤ decimal digits_onto in refl)

deserialize-body_example :
    deserialize_message granted true
      (pos (length (body plus_request)))
      (some (body plus_request ++ (1 ∷ [])))
    ≡ done (pos 0, some (to_message plus_request))
deserialize-body_example =
    deserialize-body granted granted-IsGranting plus_request (1 ∷ []) plus_request-IsRequest

create_message_lem_test :
    create_message granted true (some plus_name) 1 (pos 3) (to_argv mixed)
    ≡ done (some (to_message (cut_request plus_name 1 mixed)))
create_message_lem_test =
    create_message_lem granted granted-IsGranting plus_name 1 mixed (omega arith)
      (unfold strlen c_string in omega arith)
      (unfold strlen c_string in (omega arith, (tt, (tt, tt)))) (omega arith)

free-create_example :
    (create_message granted true (some plus_name) 1 (pos 3) (to_argv mixed)
      >>= elim [ none ↦ undefined | some msg ↦ free_message msg ])
    ≡ done (blocks (map cut mixed))
free-create_example =
    free-create granted plus_name 1 mixed granted-IsGranting (omega arith)
      (unfold strlen c_string in omega arith)
      (unfold strlen c_string in (omega arith, (tt, (tt, tt)))) (omega arith)

-- An allocator that refuses the array.
abbrev no_array : Malloc
no_array argv_site n = false
no_array _ n = true

create_message-eq-none_test :
    (1 ≤ pos_part (pos 3)) × (no_array argv_site (sizeof_rpc_arg * pos_part (pos 3)) ≡ false)
create_message-eq-none_test =
    create_message-eq-none no_array plus_name 1 (pos 3) (to_argv mixed) (omega arith)
      (unfold create_message fill_message copy_argv strlen c_string type_exists in refl)

serialize_answer_frame_test :
    serialize_answer granted 0 (some (to_arg (text hello)))
    ≡ done (some (length (answer_frame (text hello)), written (answer_frame (text hello))))
serialize_answer_frame_test =
    serialize_answer_frame granted (text hello) (omega arith, omega arith)
      (unfold int_bytes in refl)

serialize_answer_error_test :
    serialize_answer granted 2 none ≡ done (some (5, written (error_frame 2)))
serialize_answer_error_test = serialize_answer_error granted 2 (omega arith) refl

deserialize-answer_body_example :
    deserialize_answer granted true
      (pos (length (answer_body (text hello))))
      (some (answer_body (text hello)))
    ≡ done (pos 0, some (to_arg (text hello)))
deserialize-answer_body_example =
    deserialize-answer_body granted (text hello) granted-IsGranting (omega arith, omega arith)

deserialize-error_test :
    deserialize_answer granted true (pos 1) (some (5 ∷ [])) ≡ done (pos 5, none)
deserialize-error_test = deserialize-error granted 5 (omega arith) (omega arith)

abbrev unknown_arg : RpcArg
unknown_arg = record { typ = 9; pointee = null }

serialize_message_overrun_example :
    serialize_message granted (some (bad_message plus_name 1 two_numbers unknown_arg []))
    ≡ undefined
serialize_message_overrun_example =
    serialize_message_overrun granted plus_name 1 two_numbers unknown_arg [] (omega arith)
      two_numbers-valid (unfold integer_bytes decimal_ℤ decimal digits_onto in omega arith)
      (omega arith) refl

deserialize_unknown_type_example :
    deserialize_message granted true (pos 30) (
      some
        (header plus_name 1 (length two_numbers + suc 0) (arguments_bytes two_numbers ++ (9 ∷ []))))
    ≡ undefined
deserialize_unknown_type_example =
    deserialize_unknown_type granted granted-IsGranting (pos 30) plus_name 1 two_numbers 9 0 []
      (omega arith) two_numbers-valid (omega arith) (omega arith)

abbrev long_line : Bytes
long_line = replicate 130 b'a'

deserialize_long_text_example :
    deserialize_message granted true (pos 300) (
      some (
        header plus_name 1
          (length two_numbers + 1)
          (arguments_bytes two_numbers ++ (argument_bytes (text long_line) ++ []))))
    ≡ done (negsuc 0, none)
deserialize_long_text_example =
    deserialize_long_text granted granted-IsGranting (pos 300) plus_name 1 two_numbers long_line []
      granted-IsRefusing (omega arith) two_numbers-valid (omega arith) (omega arith) (omega arith)

deserialize_message-IsArgv_example :
    IsArgv (to_message plus_request).argc (to_message plus_request).argv
deserialize_message-IsArgv_example =
    deserialize_message-IsArgv granted (pos (length (body plus_request))) (pos 0)
      (body plus_request ++ (1 ∷ [])) (to_message plus_request)
      (deserialize-body granted granted-IsGranting plus_request (1 ∷ []) plus_request-IsRequest)

digit_loops-end_example :
    (count_digits 12 1232 0 ≡ count_digits 10 1232 0)
    × (write_digits 12 1 1232 4 (fresh 7) ≡ write_digits 10 1 1232 4 (fresh 7))
digit_loops-end_example = digit_loops-end 12 1232 0 1 4 (fresh 7) (omega arith) (omega arith)

debug_display-frame_test :
    (debug_display_serialized (some (frame plus_request))
      ≡ done (
          Line.size (pos (length (body plus_request)))
          ∷ Line.characters (map signed_char (body plus_request))
          ∷ []))
    × (debug_display_serialized (some (body plus_request))
        ≡ done (Line.size (pos 4) ∷ Line.characters (map signed_char plus_name) ∷ []))
debug_display-frame_test = debug_display-frame plus_request plus_request-IsRequest

debug_display-to_message_test :
    debug_display_message (some (to_message plus_request))
    ≡ done (
        Line.command_length 4
        ∷ Line.command plus_name
        ∷ Line.return_type (debug_type_to_string 1)
        ∷ Line.argc (pos 2)
        ∷ argument_lines 0 two_numbers)
debug_display-to_message_test = debug_display-to_message plus_request plus_request-IsRequest
