-- ===== src/Defaults/Password.antt =====
-- The function `shutdown` of src/s_defaults.c.
use remote_procedure_control.Prelude.{◌≡◌, ◌↔◌, refl, arith, true, [], ◌∷◌}
use remote_procedure_control.Machine.{
  done, Bytes, IsText, c_string, c_string-IsText, str_eq→eq, str_eq_refl,
}
use remote_procedure_control.RpcData.{str, deref_str}
use remote_procedure_control.Defaults.{shutdown, call_void_default, kills}

abbrev pub admin : Bytes
admin = b'a' ∷ b'd' ∷ b'm' ∷ b'i' ∷ b'n' ∷ []

module _ (password : Bytes) (t : IsText password) where
  -- The one password.
  pub kills_iff : (kills shutdown (str password ∷ []) ≡ done true) ↔ (password ≡ admin)
  unfolding kills deref_str
  kills_iff =
      let same : c_string password ≡ password = c_string-IsText password t in
      let own : c_string admin ≡ admin = c_string-IsText admin (omega arith) in
      rw (same, own) ((λ e. str_eq→eq password admin (cc)), (λ e. rw (e, str_eq_refl admin) refl))

  -- The caller does not learn of it.
  pub call_shutdown_lem : call_void_default shutdown (str password ∷ []) ≡ done tt
  unfolding call_void_default deref_str
  call_shutdown_lem = refl
