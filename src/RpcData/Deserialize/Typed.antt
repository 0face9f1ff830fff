-- ===== src/RpcData/Deserialize/Typed.antt =====
-- What `deserialize_message` returns is well typed, whatever the bytes are.
use remote_procedure_control.Prelude.{
  ℕ, zero, suc, ◌+◌, ◌≡◌, refl, ap, ◌∙◌, Bool, true, false, List, [], ◌∷◌, arith, Option, none,
  some, Bool-cases, ◌*◌, if◌then◌else◌, inl, inr, length, All,
}
use remote_procedure_control.Prelude.Int.{ℤ, pos, negsuc, pos_part}
use remote_procedure_control.Machine.{read_bytes, checked_size, Exec, done, undefined, ◌>>=◌, Bytes}
use remote_procedure_control.Machine.Words.{read_int}
use remote_procedure_control.RpcData.{
  Message, Malloc, Pointee, null, int, str, wild, RpcArg, argv_site, command_site, sizeof_rpc_arg,
}
use remote_procedure_control.RpcData.Integer.{deserialize_integer}
use remote_procedure_control.RpcData.Deserialize.{
  read_int_arg, read_str_arg, read_arg, read_args, read_argv, read_byte, finish_body, read_body,
  read_message, deserialize_message, fail_read,
}

-- A pointer to data of that type.
abbrev pub HasType : ℕ → Pointee → Type 0
HasType t null = t ≡ 0
HasType t (int i) = t ≡ 1
HasType t (str s) = t ≡ 2
HasType t wild = ⊥

abbrev pub IsTyped : RpcArg → Type 0
IsTyped a = HasType a.typ a.pointee

-- An array of as many arguments as are counted, each with data of its type.
abbrev pub IsArgv : ℤ → Option (List RpcArg) → Type 0
IsArgv argc none = pos_part argc ≡ 0
IsArgv argc (some args) = (length args ≡ pos_part argc) × All IsTyped args

-- What holds of the argument that a round returns, if it returns one.
abbrev Gives : Exec (Option (RpcArg × ℕ × Bytes)) → Type 0
Gives (done (some (arg, n, rest))) = IsTyped arg
Gives _ = Unit {0}

fail_read-Gives : (rounds : ℕ) → Gives (fail_read rounds)
unfolding fail_read
fail_read-Gives zero = tt
fail_read-Gives (suc rounds) = tt

int_Gives :
    (m : Exec (ℤ × ℕ × Bytes))
    → Gives
        (m >>= λ (n, read, rest). done (some (record { typ = 1; pointee = int n }, 1 + read, rest)))
int_Gives (done (n, read, rest)) = refl
int_Gives undefined = tt
int_Gives Exec.diverges = tt

str_Gives :
    (tmp : ℕ) (m : Exec (Bytes × Bytes))
    → Gives (m >>= λ (s, rest). done (some (record { typ = 2; pointee = str s }, 2 + tmp, rest)))
str_Gives tmp (done (s, rest)) = refl
str_Gives tmp undefined = tt
str_Gives tmp Exec.diverges = tt

read_arg-Gives :
    (malloc : Malloc) (rounds i : ℕ) (src : Bytes) → Gives (read_arg malloc rounds i src)
unfolding read_arg read_int_arg read_str_arg
read_arg-Gives malloc rounds i [] = tt
read_arg-Gives malloc rounds i (typ ∷ src) =
    ground (arith, fail_read-Gives rounds, int_Gives (deserialize_integer src))

-- What holds of the arguments that the loop returns, if it returns any.
abbrev GivesAll : ℕ → Exec (Option (List RpcArg × ℕ × Bytes)) → Type 0
GivesAll rounds (done (some (args, n, rest))) = (length args ≡ rounds) × All IsTyped args
GivesAll rounds _ = Unit {0}

args-GivesAll :
    (arg : RpcArg) (k rounds : ℕ) (m : Exec (Option (List RpcArg × ℕ × Bytes)))
    → IsTyped arg
    → GivesAll rounds m
    → GivesAll (suc rounds) (
        m >>= elim [
          | none ↦ done none
          | some (args, j, rest) ↦ done (some (arg ∷ args, k + j, rest))
        ])
args-GivesAll arg k rounds (done none) h g = tt
args-GivesAll arg k rounds (done (some (args, j, rest))) h g = (ap suc g.0, (h, g.1))
args-GivesAll arg k rounds undefined h g = tt
args-GivesAll arg k rounds Exec.diverges h g = tt

-- One round and the rest of the loop.
round-GivesAll :
    (malloc : Malloc) (rounds i : ℕ) (m : Exec (Option (RpcArg × ℕ × Bytes)))
    → Gives m
    → ((src : Bytes) → GivesAll rounds (read_args malloc rounds (i + 1) src))
    → GivesAll (suc rounds) (
        m >>= elim [
          | none ↦ done none
          | some (arg, n, src') ↦ read_args malloc rounds (i + 1) src' >>= elim [
            | none ↦ done none
            | some (args, k, rest) ↦ done (some (arg ∷ args, n + k, rest))
          ]
        ])
round-GivesAll malloc rounds i (done none) g more = tt
round-GivesAll malloc rounds i (done (some (arg, n, src'))) g more =
    args-GivesAll arg n rounds (read_args malloc rounds (i + 1) src') g (more src')
round-GivesAll malloc rounds i undefined g more = tt
round-GivesAll malloc rounds i Exec.diverges g more = tt

read_args-GivesAll :
    (malloc : Malloc) (rounds i : ℕ) (src : Bytes) → GivesAll rounds (read_args malloc rounds i src)
unfolding read_args
read_args-GivesAll malloc zero i src = (refl, tt)
read_args-GivesAll malloc (suc rounds) i src =
    round-GivesAll malloc rounds i (read_arg malloc rounds i src)
      (read_arg-Gives malloc rounds i src) (read_args-GivesAll malloc rounds (i + 1))

-- What holds of the array, and of the whole message, if there is one.
abbrev GivesArgv : ℤ → Exec (Option (Option (List RpcArg) × ℕ × Bytes)) → Type 0
GivesArgv argc (done (some (argv, n, rest))) = IsArgv argc argv
GivesArgv argc _ = Unit {0}

some-GivesArgv :
    (argc : ℤ) (rounds : ℕ) (m : Exec (Option (List RpcArg × ℕ × Bytes)))
    → rounds ≡ pos_part argc
    → GivesAll rounds m
    → GivesArgv argc
        (m >>= elim [ none ↦ done none | some (args, k, rest) ↦ done (some (some args, k, rest)) ])
some-GivesArgv argc rounds (done none) e g = tt
some-GivesArgv argc rounds (done (some (args, k, rest))) e g = (g.0 ∙ e, g.1)
some-GivesArgv argc rounds undefined e g = tt
some-GivesArgv argc rounds Exec.diverges e g = tt

read_argv-GivesArgv :
    (malloc : Malloc) (argc : ℤ) (src : Bytes) → GivesArgv argc (read_argv malloc argc src)
unfolding read_argv
read_argv-GivesArgv malloc (pos zero) src = refl
read_argv-GivesArgv malloc (pos (suc n)) src =
    elim (Bool-cases (malloc argv_site (suc n * sizeof_rpc_arg))) [
      | inl granted ↦ rw granted (
          some-GivesArgv (pos (suc n)) (suc n) (read_args malloc (suc n) 0 src) refl
            (read_args-GivesAll malloc (suc n) 0 src))
      | inr refused ↦ rw refused tt
    ]
read_argv-GivesArgv malloc (negsuc n) src = refl

abbrev pub GivesMessage : Exec (ℤ × Option Message) → Type 0
GivesMessage (done (code, some m)) = IsArgv m.argc m.argv
GivesMessage _ = Unit {0}

finish_body-GivesMessage :
    (size : ℤ) (length' : ℕ) (command : Bytes) (return_type : ℕ) (argc : ℤ)
    (m : Exec (Option (Option (List RpcArg) × ℕ × Bytes)))
    → GivesArgv argc m
    → GivesMessage (m >>= finish_body size length' command return_type argc)
unfolding finish_body
finish_body-GivesMessage size length' command return_type argc (done none) g = tt
finish_body-GivesMessage size length' command return_type argc (done (some (argv, n, rest))) g =
    ground arith
finish_body-GivesMessage size length' command return_type argc undefined g = tt
finish_body-GivesMessage size length' command return_type argc Exec.diverges g = tt

-- A step before a message leaves what is given as it is.
>>=-GivesMessage :
    {A : Type 0} (m : Exec A) (f : A → Exec (ℤ × Option Message))
    → ((a : A) → GivesMessage (f a))
    → GivesMessage (m >>= f)
>>=-GivesMessage (done a) f g = g a
>>=-GivesMessage undefined f g = tt
>>=-GivesMessage Exec.diverges f g = tt

read_body-GivesMessage :
    (malloc : Malloc) (size : ℤ) (n : ℕ) (src : Bytes) → GivesMessage (read_body malloc size n src)
unfolding read_body
read_body-GivesMessage malloc size n src = >>=-GivesMessage (read_bytes n src) _ (λ (command, src1).
    >>=-GivesMessage (read_byte src1) _ (λ (return_type, src2).
      >>=-GivesMessage (read_int src2) _ (λ (argc, src3).
        finish_body-GivesMessage size n command return_type argc (read_argv malloc argc src3)
          (read_argv-GivesArgv malloc argc src3))))

read_message-GivesMessage :
    (malloc : Malloc) (size n : ℤ) (src : Bytes) → GivesMessage (read_message malloc size n src)
unfolding read_message
read_message-GivesMessage malloc size (negsuc n) src = tt
read_message-GivesMessage malloc size (pos n) src =
    >>=-GivesMessage (checked_size (n + 1)) _ (λ room.
      if_GivesMessage (malloc command_site room) (read_body malloc size n src)
        (read_body-GivesMessage malloc size n src))
  where
    if_GivesMessage :
        (b : Bool) (m : Exec (ℤ × Option Message))
        → GivesMessage m
        → GivesMessage (if b then m else undefined)
    if_GivesMessage true m g = g
    if_GivesMessage false m g = tt

pub deserialize_message-GivesMessage :
    (malloc : Malloc) (size : ℤ) (src : Bytes)
    → GivesMessage (deserialize_message malloc true size (some src))
unfolding deserialize_message
deserialize_message-GivesMessage malloc size src =
    >>=-GivesMessage (read_int src) _ (λ (n, src'). read_message-GivesMessage malloc size n src')

-- Whatever the bytes are, a message that `deserialize_message` returns has as many arguments as it
-- counts, and each has data of its type: nothing for void, an `int`, or a string.
pub deserialize_message-IsArgv :
    (malloc : Malloc) (size code : ℤ) (src : Bytes) (m : Message)
    → deserialize_message malloc true size (some src) ≡ done (code, some m)
    → IsArgv m.argc m.argv
deserialize_message-IsArgv malloc size code src m h =
    rw h at (deserialize_message-GivesMessage malloc size src)
