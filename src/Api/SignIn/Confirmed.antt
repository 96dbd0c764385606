-- ===== src/Api/SignIn/Confirmed.antt =====
-- Turning the second factor off, in internal/api/handlers_auth.go.
use aegis_hosting_control_pa.Base.{
  String, false, same, some, if◌then◌else◌, ◌≡◌, Bool-cases, inl, inr,
}
use aegis_hosting_control_pa.Store.Schema.{Db}
use aegis_hosting_control_pa.Store.Result.{err, locked_out, invalid_credentials}
use aegis_hosting_control_pa.Store.Sessions.{record_login_attempt}
use aegis_hosting_control_pa.Auth.Lockout.Limits.{is_locked_out, locked_out?-limits}
use aegis_hosting_control_pa.Auth.Manager.{Manager, check_password}
use aegis_hosting_control_pa.Auth.Login.{confirm_password}
use aegis_hosting_control_pa.Api.Users.{Caller}
use aegis_hosting_control_pa.Api.SignIn.{denied, handle_totp_disable}

module _ (m : Manager) (c : Caller) (password : String) (db : Db)
    (wrong : check_password m c.actor.password_hash password ≡ false) where
  -- What is left of a refused password.
  abbrev pub refused_attempt : Db
  refused_attempt = (record_login_attempt m.env c.actor.username c.ip false db).1

  confirm-wrong : confirm_password m c.actor password c.ip db ≡ (
      if is_locked_out m.env c.actor.username c.ip db
      then (err locked_out, db)
      else (err invalid_credentials, refused_attempt))
  unfolding confirm_password
  confirm-wrong = elim (Bool-cases (is_locked_out m.env c.actor.username c.ip db)) [
    | inl locked ↦ rw (locked_out?-limits, locked)
    | inr free ↦ elim (Bool-cases (same password "")) [
      | inl empty ↦ rw (locked_out?-limits, free, empty)
      | inr given ↦ rw (locked_out?-limits, free, given, wrong)
    ]
  ]

  -- A request to turn the second factor off with a wrong password changes nothing but the record of
  -- the attempt, with 401, or nothing at all, with 429, where the account is locked out from the
  -- address.
  pub handle_totp_disable-wrong : handle_totp_disable m c (some password) db ≡ (
      if is_locked_out m.env c.actor.username c.ip db
      then (denied 429, db)
      else (denied 401, refused_attempt))
  unfolding handle_totp_disable
  handle_totp_disable-wrong = elim (Bool-cases (is_locked_out m.env c.actor.username c.ip db)) [
    | inl locked ↦ rw (confirm-wrong, locked)
    | inr free ↦ rw (confirm-wrong, free)
  ]
