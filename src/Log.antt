-- ===== src/Log.antt =====
-- src/u_log.c: the messages of the program's log.
use remote_procedure_control.Prelude.{
  ℕ, ◌%◌, ◌≡◌, ◌≤◌, refl, arith, Bool, true, false, not, leb, if◌then◌else◌, List, [], ◌∷◌, ◌++◌,
  Option, none, some, take, take-append, append-nil,
}
use remote_procedure_control.Prelude.Int.{ℤ, pos, negsuc, leb_ℤ}
use remote_procedure_control.Machine.{
  Exec, done, ◌>>=◌, Bytes, c_string, strlen, int_max, checked_size,
}
use remote_procedure_control.RpcData.Integer.Decimal.{decimal}

abbrev pub log_ok : ℕ
log_ok = 0

abbrev pub log_err : ℕ
log_err = 1

-- The flag on the platform modelled; the access mode is in the two lowest bits, and 0 is reading only.
abbrev o_append : ℕ
o_append = 1024

abbrev stdout_fileno : ℕ
stdout_fileno = 1

-- What the system answers to `open`, `write`, `fdopen`, `close` and `getpid`.
pub record System : Type 0 where
  pub opens : Bytes → ℕ → Option ℕ
  pub write : ℕ → Bytes → ℤ
  pub fdopens : ℕ → Bool
  pub closes : ℕ → Bool
  pub pid : ℕ

-- What has been written to descriptors, and what stands in the buffers of the streams on them.
pub record Output : Type 0 where
  pub written : List (ℕ × Bytes)
  pub buffered : List (ℕ × Bytes)

abbrev pub no_output : Output
no_output = record { written = []; buffered = [] }

-- `"[%d] %s\n"`
abbrev pub log_line : ℕ → Bytes → Bytes
log_line pid msg = (b'[' ∷ decimal pid) ++ (b']' ∷ b' ' ∷ (c_string msg ++ (10 ∷ [])))

-- A stream is the descriptor below it, or null.
fwrite_log : System → Option ℕ → Bytes → ℕ × Output
fwrite_log sys none msg = (log_err, no_output)
fwrite_log sys (some fd) msg =
    (log_ok, record { written = []; buffered = (fd, log_line sys.pid msg) ∷ [] })

-- The bytes that a `write` took.
abbrev pub taken : ℕ → Bytes → ℤ → List (ℕ × Bytes)
taken fd msg (pos n) = (fd, take n (c_string msg)) ∷ []
taken fd msg (negsuc n) = []

pub dwrite_log : System → ℕ → Bytes → Exec (ℕ × Output)
dwrite_log sys fd msg = do
  length ← checked_size (strlen msg)
  let count = sys.write fd (c_string msg)
  done (
      if not (leb_ℤ (pos length) count)
      then (log_err, record { written = taken fd msg count; buffered = [] })
      else if sys.fdopens fd
      then (
        (fwrite_log sys (some fd) msg).0,
        record (fwrite_log sys (some fd) msg).1 { written = taken fd msg count },
      )
      else (log_err, record { written = taken fd msg count; buffered = [] }))

write_log : System → Bytes → Exec (ℕ × Output)
write_log sys msg = dwrite_log sys stdout_fileno msg

-- From the descriptor on; `none` is -1.
pwrite_opened : System → Bytes → Option ℕ → Exec (ℕ × Output)
pwrite_opened sys msg none = done (log_err, no_output)
pwrite_opened sys msg (some fd) =
    dwrite_log sys fd msg >>= λ (ret, output). done (if sys.closes fd then ret else log_err, output)

pub pwrite_log : System → Bytes → Bytes → Exec (ℕ × Output)
pwrite_log sys path msg = pwrite_opened sys msg (sys.opens path o_append)

-- A descriptor that was opened for reading only takes no bytes: `write` fails with EBADF.
abbrev pub RefusesReaders : System → Type 0
RefusesReaders sys =
    (path : Bytes) (flags fd : ℕ)
    → sys.opens path flags ≡ some fd
    → flags % 4 ≡ 0
    → (bytes : Bytes) → sys.write fd bytes ≡ negsuc 0

-- `pwrite_log` never writes: where descriptors for reading only refuse to be written to, it returns
-- an error for every path and every message whose length is an `int`, and nothing is written.
pub pwrite_log_lem :
    (sys : System) (path msg : Bytes)
    → RefusesReaders sys
    → strlen msg ≤ int_max
    → pwrite_log sys path msg ≡ done (log_err, no_output)
unfolding pwrite_log pwrite_opened dwrite_log
pwrite_log_lem sys path msg refuses short = opened (sys.opens path o_append) refl
  where
    closed :
        (b : Bool)
        → ◌≡◌ {A = Exec (ℕ × Output)}
            (done (if b then log_err else log_err, no_output))
            (done (log_err, no_output))
    closed true = refl
    closed false = refl

    opened :
        (fd : Option ℕ)
        → sys.opens path o_append ≡ fd
        → pwrite_opened sys msg fd ≡ done (log_err, no_output)
    opened none e = refl
    opened (some fd) e =
        let sized : leb (strlen msg) int_max ≡ true = ground arith in
        let short_write : leb_ℤ (pos (strlen msg)) (negsuc 0) ≡ false = ground arith in
        rw (sized, refuses path o_append fd e refl (c_string msg), short_write)
          (closed (sys.closes fd))

-- Where a whole message is written to a descriptor that a stream can be opened on, `dwrite_log` and
-- so `write_log` succeed, and the message is there twice: as it is, and in a line with the
-- process's number.
pub dwrite_log_lem :
    (sys : System) (fd : ℕ) (msg : Bytes)
    → strlen msg ≤ int_max
    → sys.write fd (c_string msg) ≡ pos (strlen msg)
    → sys.fdopens fd ≡ true
    → dwrite_log sys fd msg
      ≡ done (
        log_ok,
        record { written = (fd, c_string msg) ∷ []; buffered = (fd, log_line sys.pid msg) ∷ [] },
      )
unfolding dwrite_log fwrite_log
dwrite_log_lem sys fd msg short whole opens =
    let sized : leb (strlen msg) int_max ≡ true = ground arith in
    let complete : leb_ℤ (pos (strlen msg)) (pos (strlen msg)) ≡ true = ground arith in
    let everything : take (strlen msg) (c_string msg) ≡ c_string msg =
      unfold strlen in rw append-nil at (take-append (c_string msg) []) in
    rw (sized, whole, complete, opens, everything) refl
