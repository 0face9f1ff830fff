-- ===== src/Examples/Logging.antt =====
-- The theorems on the log, at a system whose descriptor 5 is open for reading.
use remote_procedure_control.Prelude.{
  ◌≡◌, refl, sym, arith, true, [], ◌∷◌, ◌==◌, if◌then◌else◌, some, length,
}
use remote_procedure_control.Prelude.Int.{pos, negsuc}
use remote_procedure_control.Machine.{done, c_string, strlen}
use remote_procedure_control.Log.{
  System, RefusesReaders, log_ok, log_err, no_output, log_line, dwrite_log, pwrite_log,
  pwrite_log_lem, dwrite_log_lem,
}
use remote_procedure_control.Examples.{plus_name, hello}

abbrev system : System
system = record {
  opens = λ path flags. some 5;
  write = λ fd bytes. if fd == 5 then negsuc 0 else pos (length bytes);
  fdopens = λ fd. true;
  closes = λ fd. true;
  pid = 42;
}

system-RefusesReaders : RefusesReaders system
system-RefusesReaders path flags fd e reads bytes = let five : 5 ≡ fd = cc in rw (sym five) refl

pwrite_log_lem_test : pwrite_log system plus_name hello ≡ done (log_err, no_output)
pwrite_log_lem_test =
    pwrite_log_lem system plus_name hello system-RefusesReaders
      (unfold strlen c_string in omega arith)

dwrite_log_lem_test :
    dwrite_log system 1 hello
    ≡ done (
      log_ok,
      record { written = (1, c_string hello) ∷ []; buffered = (1, log_line 42 hello) ∷ [] },
    )
dwrite_log_lem_test =
    dwrite_log_lem system 1 hello (unfold strlen c_string in omega arith) (unfold strlen in refl)
      refl
