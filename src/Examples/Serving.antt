-- ===== src/Examples/Serving.antt =====
-- The theorem on a server whose functions behave, for one function.
use remote_procedure_control.Prelude.{
  ℕ, ◌≡◌, refl, false, sym, arith, Bool-cases, inl, inr, none, some,
}
use remote_procedure_control.Prelude.Int.{pos}
use remote_procedure_control.Machine.{done, Bytes, strcmp_zero}
use remote_procedure_control.RpcData.Protocol.{number}
use remote_procedure_control.Mapper.{FunctionMapper, get_function, find}
use remote_procedure_control.Server.{Calls}
use remote_procedure_control.Server.Timer.{never}
use remote_procedure_control.System.Running.{IsUp}
use remote_procedure_control.System.Orderly.{IsServing, Reach-serves}
use remote_procedure_control.Examples.{plus_request, plus_request-IsRequest}
use remote_procedure_control.Examples.Service.{memory, plus_mapper, working, working-IsWorking}
use remote_procedure_control.Examples.Children.{kills, at_child, at_child-Reach}

-- Every function returns 7.
abbrev sevens : Calls ℕ
sevens = record {
  call_void = λ f args. done tt;
  call_int = λ f args. done (pos 7);
  call_str = λ f args. done none;
}

found_plus :
    (command : Bytes) (f : FunctionMapper ℕ)
    → get_function (some memory) command ≡ some f
    → f ≡ plus_mapper
unfolding get_function find
found_plus command f found = elim (Bool-cases (strcmp_zero command plus_mapper.name)) [
  | inl same ↦ let k = rw same at found in cc
  | inr other ↦ let k = rw other at found in cc
]

sevens-IsServing : IsServing sevens memory kills
sevens-IsServing = record {
  filled = λ command f found. rw (found_plus command f found) (refl, omega arith);
  returning = λ r f q found v.
      let plus = found_plus r.command f found in
      (number (pos 7), (omega arith, λ e. cc), (sym (rw plus at v.returned), refl));
  silent = λ r f q found v. refl;
}

Reach-serves_example : IsUp (at_child false).server
Reach-serves_example = Reach-serves sevens memory kills sevens-IsServing (at_child-Reach false) (
  tt,
  (
    tt,
    (
      tt,
      (
        tt,
        (
          tt,
          (
            tt,
            (
              (working, plus_request, _, never, refl, working-IsWorking, plus_request-IsRequest),
              (tt, tt),
            ),
          ),
        ),
      ),
    ),
  ),
)
