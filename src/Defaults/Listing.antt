-- ===== src/Defaults/Listing.antt =====
-- `client --list` at a server that has generated its documentation.
use remote_procedure_control.Prelude.{
  ℕ, ◌+◌, ◌≡◌, ◌≤◌, refl, sym, ap, ◌∙◌, arith, Bool, true, ltb, if◌then◌else◌, List, [], ◌∷◌, ◌++◌,
  append_assoc, some, length, length-append, All,
}
use remote_procedure_control.Machine.{done, undefined, Bytes, IsText, int_max, c_string}
use remote_procedure_control.Machine.Cells.{written}
use remote_procedure_control.RpcData.{Malloc}
use remote_procedure_control.RpcData.Deserialize.Accepts.{IsGranting}
use remote_procedure_control.Mapper.{Function, Memory, get_function}
use remote_procedure_control.Server.{Platform}
use remote_procedure_control.Specials.{generate_documentation}
use remote_procedure_control.Specials.Text.{functions_text}
use remote_procedure_control.Specials.Document.{IsDocumented, generate_documentation_lem}
use remote_procedure_control.Specials.Printable.{IsNamed, append-IsText, functions-IsText}
use remote_procedure_control.Client.{Network}
use remote_procedure_control.Client.Conversation.{IsOpen}
use remote_procedure_control.Client.CommandLine.{Flag, Shown, succeeds, flag, main}
use remote_procedure_control.Client.CommandLine.Listing.{Documents, main-list}
use remote_procedure_control.Defaults.{Default, documentation, default_calls, call_str_default}
use remote_procedure_control.Defaults.Registration.{default_name}
use remote_procedure_control.Defaults.Registered.{signature, function_of, fun-some}

-- A string in a buffer, with its zero byte.
c_string_zero : (s rest : Bytes) → IsText s → c_string (s ++ (0 ∷ rest)) ≡ s
unfolding c_string
c_string_zero [] rest h = refl
c_string_zero (c ∷ s) rest h = ground (arith, c_string_zero s rest h.1)

written-injective : (s t : Bytes) → written s ≡ written t → s ≡ t
written-injective [] [] e = refl
written-injective [] (d ∷ t) e = cc
written-injective (c ∷ s) [] e = cc
written-injective (c ∷ s) (d ∷ t) e =
    let first : c ≡ d = cc in
    let more : written s ≡ written t = cc in let rest = written-injective s t more in cc

module _ (memory : Memory Default) (d : All IsDocumented memory.fmap)
    (n : All IsNamed memory.fmap) where
  -- The text of the list, with its last new line.
  abbrev listed : Bytes
  listed = functions_text memory.fmap ++ (10 ∷ [])

  listed-IsText : IsText listed
  listed-IsText =
      append-IsText (functions_text memory.fmap) (10 ∷ []) (functions-IsText memory.fmap n)
        (omega arith)

  generated :
      (granted : ℕ → Bool) (doc : Bytes)
      → length (functions_text memory.fmap) + 1 ≤ int_max
      → granted (length (functions_text memory.fmap) + 2) ≡ true
      → generate_documentation granted memory ≡ done (some (written doc))
      → c_string doc ≡ listed
  generated granted doc fits grants e =
      let text = functions_text memory.fmap in
      let cells : done (some (written doc)) ≡ done (some (written (text ++ (10 ∷ 0 ∷ [])))) =
        sym e ∙ (generate_documentation_lem granted memory d fits grants).1 in
      let same : written doc ≡ written (text ++ (10 ∷ 0 ∷ [])) = cc in
      let bytes : doc ≡ listed ++ (0 ∷ []) =
        written-injective doc _ same ∙ sym (append_assoc text (10 ∷ []) (0 ∷ [])) in
      ap c_string bytes ∙ c_string_zero listed [] listed-IsText

  -- `client --list` at a server whose documentation was generated: if the server has the default
  -- function `documentation`, every function of its memory has a description, whose lengths are
  -- those of its texts, its names and descriptions are strings, the text fits an `int`, and memory
  -- is granted to all, then the client prints the text of exactly the functions in memory and
  -- succeeds if it is shorter than 2048 bytes; a longer one is undefined behaviour.
  pub main-list-generated :
      (net : Network) (p : Platform) (granted : ℕ → Bool) (doc : Bytes) (malloc : Malloc)
      (networks : ℕ → Network) (prog cmd : Bytes) (words : List Bytes)
      → IsOpen net p (default_calls true (some doc)) memory
      → IsGranting net.calling
      → IsGranting net.creating
      → function_of memory documentation ≡ some (signature documentation)
      → length listed + 7 ≤ int_max
      → granted (length (functions_text memory.fmap) + 2) ≡ true
      → generate_documentation granted memory ≡ done (some (written doc))
      → networks 1 ≡ net
      → flag cmd ≡ Flag.listing
      → main malloc networks (prog ∷ cmd ∷ words)
        ≡ (if ltb (length listed) 2048 then done (succeeds (Shown.text listed)) else undefined)
  main-list-generated net p granted doc malloc networks prog cmd words o calling creating there fits
        grants made first listing =
      let text = functions_text memory.fmap in
      let (f, found, same) =
        fun-some (get_function (some memory) (default_name documentation)) (signature documentation)
          there in
      let bytes : c_string doc ≡ listed =
        generated granted doc (omega (arith, fits, length-append text (10 ∷ []))) grants made in
      let documents : Documents net p (default_calls true (some doc)) memory o calling creating f
          listed =
        record {
          found = unfold default_name in found;
          stored = rw same refl;
          fits = rw same (record { counted = refl; typed = refl; returned = refl });
          returned =
              ap (λ (g : Function Default). call_str_default true (some doc) g.fun_ptr []) same
              ∙ (unfold call_str_default in ap (λ s. done (some s)) bytes);
          written = listed-IsText;
          carried = fits;
        } in
      main-list net p (default_calls true (some doc)) memory o calling creating f malloc networks
        prog cmd words listed first listing documents
