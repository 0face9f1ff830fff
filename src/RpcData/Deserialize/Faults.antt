-- ===== src/RpcData/Deserialize/Faults.antt =====
-- What `deserialize_message` does with a type that does not exist and with a long string.
use remote_procedure_control.Prelude.{
  ℕ, zero, suc, ◌+◌, ◌*◌, ◌^◌, ◌≡◌, ◌≤◌, ◌<◌, refl, true, false, List, [], ◌∷◌, ◌++◌, arith, none,
  some, length, append_assoc, All,
}
use remote_procedure_control.Prelude.Int.{ℤ, pos, negsuc}
use remote_procedure_control.Machine.{done, undefined, ◌>>=◌, Bytes, int_max}
use remote_procedure_control.RpcData.{Malloc, Site, argv_site, arg_site, sizeof_rpc_arg}
use remote_procedure_control.RpcData.Deserialize.{
  str_alloc, fail_read, read_str_arg, read_arg, read_args, read_argv, finish_body,
  deserialize_message,
}
use remote_procedure_control.RpcData.Deserialize.Accepts.{
  IsGranting, read_arg_lem, deserialize-header,
}
use remote_procedure_control.RpcData.Protocol.{
  Argument, IsArgument, header, argument_bytes, arguments_bytes,
}

-- No `malloc` grants half of the address space.
abbrev pub IsRefusing : Malloc → Type 0
IsRefusing malloc = (s : Site) (n : ℕ) → 2 ^ 63 ≤ n → malloc s n ≡ false

module _ (malloc : Malloc) (granting : IsGranting malloc) where
  -- A round that goes wrong behind valid arguments settles the loop.
  read_args_undefined :
      (as' : List Argument) (more i rounds : ℕ) (src : Bytes)
      → All IsArgument as'
      → rounds ≡ length as' + suc more
      → ((j : ℕ) → read_arg malloc more j src ≡ undefined)
      → read_args malloc rounds i (arguments_bytes as' ++ src) ≡ undefined
  unfolding read_args
  read_args_undefined as' more i zero src h e bad = absurd (omega arith)
  read_args_undefined [] more i (suc rounds) src h e bad =
      rw (let e' : rounds ≡ more = omega arith in e', bad i)
  read_args_undefined (a ∷ as') more i (suc rounds) src (h, hs) e bad = rw (
    append_assoc (argument_bytes a) (arguments_bytes as') src,
    read_arg_lem malloc granting a rounds i (arguments_bytes as' ++ src) h,
    read_args_undefined as' more (i + 1) rounds src hs (omega arith) bad,
  )

  read_args_failed :
      (as' : List Argument) (i rounds : ℕ) (src : Bytes)
      → All IsArgument as'
      → rounds ≡ length as' + 1
      → ((j : ℕ) → read_arg malloc 0 j src ≡ done none)
      → read_args malloc rounds i (arguments_bytes as' ++ src) ≡ done none
  unfolding read_args
  read_args_failed as' i zero src h e bad = absurd (omega arith)
  read_args_failed [] i (suc rounds) src h e bad =
      rw (let e' : rounds ≡ 0 = omega arith in e', bad i)
  read_args_failed (a ∷ as') i (suc rounds) src (h, hs) e bad = rw (
    append_assoc (argument_bytes a) (arguments_bytes as') src,
    read_arg_lem malloc granting a rounds i (arguments_bytes as' ++ src) h,
    read_args_failed as' (i + 1) rounds src hs (omega arith) bad,
  )

  read_argv_positive :
      (argc : ℕ) (src : Bytes)
      → 1 ≤ argc
      → argc ≤ int_max
      → read_argv malloc (pos argc) src ≡ (
          read_args malloc argc 0 src
          >>= elim [ none ↦ done none | some (args, m, rest) ↦ done (some (some args, m, rest)) ])
  unfolding read_argv
  read_argv_positive zero src h k = absurd (omega arith)
  read_argv_positive (suc n) src h k =
      rw (granting argv_site (suc n * sizeof_rpc_arg) (omega arith))

  unknown_type : (t more j : ℕ) (src : Bytes) → 3 ≤ t → read_arg malloc more j (t ∷ src) ≡ undefined
  unfolding read_arg
  unknown_type t more j src h = ground arith

  -- With a granting allocator, a type byte that names no type, behind any valid arguments, is
  -- undefined behaviour: the code goes to `fail`, which reads pointers that were never set.
  pub deserialize_unknown_type :
      (size : ℤ) (command : Bytes) (return_type : ℕ) (as' : List Argument) (t more : ℕ)
      (src : Bytes)
      → length command < int_max
      → All IsArgument as'
      → length as' + suc more ≤ int_max
      → 3 ≤ t
      → deserialize_message malloc true size (
          some
            (header command return_type (length as' + suc more) (arguments_bytes as' ++ (t ∷ src))))
        ≡ undefined
  deserialize_unknown_type size command return_type as' t more src hc hs k h = rw (
    deserialize-header malloc size command return_type (length as' + suc more) _ granting hc k,
    read_argv_positive (length as' + suc more) (arguments_bytes as' ++ (t ∷ src)) (omega arith) k,
    read_args_undefined as' more 0 (length as' + suc more) (t ∷ src) hs refl
        (λ j. unknown_type t more j src h),
  )

  long_text :
      (n j : ℕ) (src : Bytes)
      → IsRefusing malloc
      → 128 ≤ n
      → n < 255
      → read_arg malloc 0 j (2 ∷ n ∷ src) ≡ done none
  unfolding read_arg read_str_arg fail_read
  long_text n j src refusing h k = rw (
      let huge : malloc (arg_site j) (str_alloc n) ≡ false =
        refusing (arg_site j) (str_alloc n) (ground arith) in
      huge)

  -- Where no allocation of half the address space succeeds and the smaller ones do, a string of 128
  -- to 254 bytes as the last argument is refused with -1, whatever its bytes: its length is read as
  -- a negative number.
  pub deserialize_long_text :
      (size : ℤ) (command : Bytes) (return_type : ℕ) (as' : List Argument) (s rest : Bytes)
      → IsRefusing malloc
      → length command < int_max
      → All IsArgument as'
      → length as' + 1 ≤ int_max
      → 128 ≤ length s
      → length s < 255
      → deserialize_message malloc true size (
          some (
            header command return_type
              (length as' + 1)
              (arguments_bytes as' ++ (argument_bytes (Argument.text s) ++ rest))))
        ≡ done (negsuc 0, none)
  unfolding finish_body
  deserialize_long_text size command return_type as' s rest refusing hc hs k h h' =
      let src = argument_bytes (Argument.text s) ++ rest in
      rw (
        deserialize-header malloc size command return_type (length as' + 1) _ granting hc k,
        read_argv_positive (length as' + 1) (arguments_bytes as' ++ src) (omega arith) k,
        read_args_failed as' 0 (length as' + 1) src hs refl
            (λ j. long_text (length s) j (s ++ rest) refusing h h'),
      )
