-- ===== src/Client/CommandLine/Listing.antt =====
-- `client --list` of src/c_client.c, from end to end.
use remote_procedure_control.Prelude.{
  ℕ, ◌≡◌, ◌≤◌, ◌+◌, refl, arith, ltb, if◌then◌else◌, List, [], ◌∷◌, some, length,
}
use remote_procedure_control.Prelude.Int.{pos, pos_part}
use remote_procedure_control.Machine.{
  done, undefined, ◌>>=◌, Bytes, IsText, strlen-IsText, c_string-IsText, int_max,
}
use remote_procedure_control.Machine.Words.{int_bytes}
use remote_procedure_control.RpcData.{str, deref_str, Malloc}
use remote_procedure_control.RpcData.Protocol.{Request, IsRequest, text, to_arg, frame, body}
use remote_procedure_control.RpcData.Deserialize.Accepts.{IsGranting}
use remote_procedure_control.Mapper.{FunctionMapper, Memory, get_function}
use remote_procedure_control.Server.{Platform, Calls}
use remote_procedure_control.Server.Verification.{Fits}
use remote_procedure_control.Client.{Network, store, external_call}
use remote_procedure_control.Client.Call.{external_call_lem}
use remote_procedure_control.Client.Conversation.{IsOpen, transmition_stores}
use remote_procedure_control.Client.Options.{documentation_name}
use remote_procedure_control.Client.CommandLine.{
  Shown, Flag, succeeds, call_documentation, flag, dispatch, main_loop, main,
}

-- The request of `call_documentation`.
abbrev pub asked : Request
asked = record { command = documentation_name; return_type = 2; arguments = [] }

asked-IsRequest : IsRequest asked
unfolding frame body int_bytes
asked-IsRequest = record {
  command_text = ground arith;
  return_exists = omega arith;
  arguments_valid = tt;
  fits = omega arith;
}

-- What comes of a string that `call_documentation` gets, in its array of 2048 bytes.
store_document :
    (doc : Bytes)
    → IsText doc
    → store (some 2048) (to_arg (text doc))
      ≡ (if ltb (length doc) 2048 then done (some (str doc)) else undefined)
unfolding store deref_str
store_document doc t = rw (strlen-IsText doc t, c_string-IsText doc t) refl

module _ {F : Type 0} (net : Network) (p : Platform) (calls : Calls F) (memory : Memory F)
    (o : IsOpen net p calls memory) (calling : IsGranting net.calling)
    (creating : IsGranting net.creating) (f : FunctionMapper F) where
  -- The server's function `documentation`, and the text that it returns.
  pub record Documents (doc : Bytes) : Type 0 where
    pub found : get_function (some memory) documentation_name ≡ some f
    pub stored : length f.fun.argv ≡ pos_part f.fun.argc
    pub fits : Fits f.fun asked
    pub returned : calls.call_str f.fun.fun_ptr [] ≡ done (some doc)
    pub written : IsText doc
    pub carried : length doc + 7 ≤ int_max

  external_call_document :
      (doc : Bytes)
      → Documents doc
      → external_call net documentation_name 2 (some 2048) [] ≡ (
          (if ltb (length doc) 2048 then done (some (str doc)) else undefined) >>= λ stored.
          done (record { code = pos 0; stored = stored; printed = [] }))
  external_call_document doc d = rw (
    external_call_lem net asked (some 2048) calling creating asked-IsRequest tt,
    transmition_stores net p calls memory asked o asked-IsRequest (some 2048) f (text doc) d.found
        d.stored d.fits (omega arith) (d.written, d.carried) (refl, d.returned),
    store_document doc d.written,
  )

  call_documentation_lem :
      (doc : Bytes)
      → Documents doc
      → call_documentation net
        ≡ (if ltb (length doc) 2048 then done (succeeds (Shown.text doc)) else undefined)
  unfolding call_documentation
  call_documentation_lem doc d = rw (external_call_document doc d) (ground arith)

  -- `client --list` from end to end. The client's words start with its name and `-l` or `--list`,
  -- on a network that works, with memory granted to the call, and the server has a function
  -- `documentation` that takes nothing and returns a text which an answer can carry. A text of less
  -- than 2048 bytes is printed, and the client succeeds; a longer one overflows the client's array,
  -- which is undefined behaviour.
  pub main-list :
      (malloc : Malloc) (networks : ℕ → Network) (prog cmd : Bytes) (words : List Bytes)
      (doc : Bytes)
      → networks 1 ≡ net
      → flag cmd ≡ Flag.listing
      → Documents doc
      → main malloc networks (prog ∷ cmd ∷ words)
        ≡ (if ltb (length doc) 2048 then done (succeeds (Shown.text doc)) else undefined)
  unfolding main main_loop dispatch
  main-list malloc networks prog cmd [] doc n h d = rw (n, h) (call_documentation_lem doc d)
  main-list malloc networks prog cmd (w ∷ words) doc n h d =
      rw (n, h) (call_documentation_lem doc d)
