-- ===== src/Service/Documented.antt =====
-- `client --list` at the server as `main` of src/s_server.c starts it.
use remote_procedure_control.Prelude.{
  ℕ, ◌+◌, ◌≡◌, ◌≤◌, ◌<◌, refl, sym, ap, ◌∙◌, arith, true, ltb, List, [], ◌∷◌, ◌++◌, some, length,
  length-append, All,
}
use remote_procedure_control.Machine.{done, Bytes, done-injective, int_max}
use remote_procedure_control.Machine.Cells.{written}
use remote_procedure_control.RpcData.{Malloc}
use remote_procedure_control.RpcData.Integer.Decimal.{decimal, digits_onto}
use remote_procedure_control.RpcData.Deserialize.Accepts.{IsGranting}
use remote_procedure_control.Server.{Platform}
use remote_procedure_control.Server.Loop.{SocketCalls, loop_server}
use remote_procedure_control.Specials.{get_type, generate_documentation}
use remote_procedure_control.Specials.Text.{
  types_text, params_text, number_text, function_text, functions_text,
}
use remote_procedure_control.Specials.Document.{IsDocumented, generate_documentation_lem}
use remote_procedure_control.Specials.Printable.{IsNamed}
use remote_procedure_control.Client.{Network}
use remote_procedure_control.Client.Conversation.{IsOpen}
use remote_procedure_control.Client.CommandLine
use remote_procedure_control.Client.CommandLine.{Flag, Shown, succeeds, flag}
use remote_procedure_control.Defaults.{
  Default, operator, documentation, concat, identity, shutdown, square, string_length, plus, minus,
  multiplication, division, power, default_calls,
}
use remote_procedure_control.Defaults.Registration.{
  default_name, operator_name, default_description, operator_description,
}
use remote_procedure_control.Defaults.Registered.{signature, function_of, registered_lem}
use remote_procedure_control.Defaults.Listing.{main-list-generated}
use remote_procedure_control.Service.{Started, main, registered, default_memory, registrations_lem}

default-IsNamed : (d : Default) → IsNamed (registered d)
unfolding default_name operator_name default_description operator_description
default-IsNamed documentation = (omega arith, omega arith)
default-IsNamed concat = (omega arith, omega arith)
default-IsNamed identity = (omega arith, omega arith)
default-IsNamed shutdown = (omega arith, omega arith)
default-IsNamed square = (omega arith, omega arith)
default-IsNamed string_length = (omega arith, omega arith)
default-IsNamed (operator plus) = (omega arith, omega arith)
default-IsNamed (operator minus) = (omega arith, omega arith)
default-IsNamed (operator multiplication) = (omega arith, omega arith)
default-IsNamed (operator division) = (omega arith, omega arith)
default-IsNamed (operator power) = (omega arith, omega arith)

described : (d : Default) → 1 ≤ length (default_description d)
unfolding default_description operator_description
described documentation = omega arith
described concat = omega arith
described identity = omega arith
described shutdown = omega arith
described square = omega arith
described string_length = omega arith
described (operator plus) = omega arith
described (operator minus) = omega arith
described (operator multiplication) = omega arith
described (operator division) = omega arith
described (operator power) = omega arith

default-IsDocumented : (d : Default) → IsDocumented (registered d)
default-IsDocumented d = record {
  named = refl;
  described = refl;
  some_description = described d;
  counted = refl;
}

-- What holds of every default function holds of all in memory.
all_default :
    {P : Default → Type 0}
    → ((d : Default) → P d)
    → P string_length
      × (P square
          × (P (operator power)
              × (P (operator division)
                  × (P (operator multiplication)
                      × (P (operator minus)
                          × (P (operator plus)
                              × (P shutdown
                                  × (P identity × (P concat × (P documentation × Unit {0}))))))))))
all_default p = (p _, (p _, (p _, (p _, (p _, (p _, (p _, (p _, (p _, (p _, (p _, tt)))))))))))

pub default_memory-IsDocumented : All IsDocumented default_memory.fmap
default_memory-IsDocumented =
    all_default {P = λ d. IsDocumented (registered d)} default-IsDocumented

default_memory-IsNamed : All IsNamed default_memory.fmap
default_memory-IsNamed = all_default {P = λ d. IsNamed (registered d)} default-IsNamed

length-default : length (functions_text default_memory.fmap) < 2047
unfolding functions_text function_text params_text types_text number_text get_type decimal
    digits_onto default_name operator_name default_description operator_description
length-default = omega arith

-- With all memory granted, the server starts with the default functions and their documentation.
pub started_lem :
    (calls : SocketCalls)
    → main (λ _. true) (λ _. true) calls
      ≡ done (record {
        memory = default_memory;
        documentation = some (written (functions_text default_memory.fmap ++ (10 ∷ 0 ∷ [])));
        server = loop_server calls;
      })
unfolding main
started_lem calls =
    let small : length (functions_text default_memory.fmap) + 1 ≤ int_max =
      omega (arith, length-default) in
    rw
      (
        registrations_lem,
        (generate_documentation_lem (λ _. true) default_memory default_memory-IsDocumented small
            refl).1,
      )
      refl

-- From the start of the server to the client's screen: where the server's memory was granted when
-- it started, and a network that works joins a client to it, whose memory is granted too, `client
-- --list` prints the documentation of exactly the functions in the server's memory, with a new line
-- behind it, and succeeds: it is shorter than the client's array.
pub main-list-started :
    (s : Started) (calls : SocketCalls) (net : Network) (p : Platform) (doc : Bytes)
    (malloc : Malloc) (networks : ℕ → Network) (prog cmd : Bytes) (words : List Bytes)
    → main (λ _. true) (λ _. true) calls ≡ done s
    → s.documentation ≡ some (written doc)
    → IsOpen net p (default_calls true (some doc)) s.memory
    → IsGranting net.calling
    → IsGranting net.creating
    → networks 1 ≡ net
    → flag cmd ≡ Flag.listing
    → CommandLine.main malloc networks (prog ∷ cmd ∷ words)
      ≡ done (succeeds (Shown.text (functions_text s.memory.fmap ++ (10 ∷ []))))
main-list-started s calls net p doc malloc networks prog cmd words begins made o calling creating
      first listing =
    let start : done s
        ≡ done (record {
          memory = default_memory;
          documentation = some (written (functions_text default_memory.fmap ++ (10 ∷ 0 ∷ [])));
          server = loop_server calls;
        }) =
      sym begins ∙ started_lem calls in
    let same : s.memory ≡ default_memory =
      ap (λ (t : Started). t.memory) (done-injective _ _ start) in
    let there : function_of default_memory documentation ≡ some (signature documentation) =
      done-injective _ _ (rw registrations_lem at (registered_lem documentation)) in
    let text = functions_text default_memory.fmap in
    let whole : length (text ++ (10 ∷ [])) < 2048 =
      omega (arith, length-default, length-append text (10 ∷ [])) in
    let fits : ltb (length (text ++ (10 ∷ []))) 2048 ≡ true = ground arith in
    let generated : generate_documentation (λ _. true) default_memory ≡ done (some (written doc)) =
      (generate_documentation_lem (λ _. true) default_memory default_memory-IsDocumented
        (omega (arith, length-default)) refl).1
      ∙ ap done (sym (ap (λ (t : Started). t.documentation) (done-injective _ _ start)) ∙ made) in
    let shown =
      main-list-generated default_memory default_memory-IsDocumented default_memory-IsNamed net p
        (λ _. true) doc malloc networks prog cmd words (rw same at o) calling creating there
        (omega arith) refl generated first listing in
    rw same (shown ∙ (rw fits refl))
