-- ===== src/Auth/Login.antt =====
-- `Login` and `ConfirmPassword` of internal/auth/auth.go.
pub mod Sound
pub mod Guessing
use aegis_hosting_control_pa.Base.{ℕ, ◌+◌, ◌*◌, String, true, ◌||◌, not, same, if◌then◌else◌}
use aegis_hosting_control_pa.Store.Schema.{User, status_suspended}
use aegis_hosting_control_pa.Store.Result.{
  Error, not_found, invalid_credentials, suspended, locked_out, M, ◌>>=◌, ◌>>◌, pure, fail,
  of_result, ignore, attempt,
}
use aegis_hosting_control_pa.Store.Users.{get_user_by_username}
use aegis_hosting_control_pa.Store.Sessions.{create_totp_challenge, record_login_attempt}
use aegis_hosting_control_pa.Auth.Lockout.{locked_out?}
use aegis_hosting_control_pa.Auth.Manager.{
  Manager, check_password, new_session_id, refuse, LoginReply, totp_required, complete_login,
}

abbrev pub totp_challenge_ttl : ℕ
totp_challenge_ttl = 5 * 60 * 1_000_000_000

-- The rest of `Login` once the password has checked out.
unfoldable pub start_session : Manager → User → M LoginReply
start_session m u =
    if u.totp_enabled
    then (do
      cid ← of_result (new_session_id m)
      create_totp_challenge m.env cid u.id (m.env.now + totp_challenge_ttl)
      pure (totp_required cid))
    else complete_login m u

unfoldable pub login_as : Manager → User → String → String → String → M LoginReply
login_as m u username password ip =
    if not (check_password m u.password_hash password)
    then refuse m username ip invalid_credentials
    else if same u.status status_suspended
    then refuse m username ip suspended
    else (do ignore (record_login_attempt m.env username ip true); start_session m u)

abbrev pub refuse_unknown : Manager → String → String → Error → M LoginReply
refuse_unknown m username ip not_found = refuse m username ip invalid_credentials
refuse_unknown m username ip error = fail error

-- `Login` behind the lockout.
unfoldable pub login_user : Manager → String → String → String → M LoginReply
login_user m username password ip =
    attempt (get_user_by_username m.env username) (λ u. login_as m u username password ip)
      (λ error. refuse_unknown m username ip error)

unfoldable pub login : Manager → String → String → String → M LoginReply
login m username password ip = do
  locked ← locked_out? m.env username ip
  if locked then fail locked_out else login_user m username password ip

unfoldable pub confirm_password : Manager → User → String → String → M (Unit {0})
confirm_password m u password ip = do
  locked ← locked_out? m.env u.username ip
  if locked
      then fail locked_out
      else if same password "" || not (check_password m u.password_hash password)
      then refuse m u.username ip invalid_credentials
      else pure tt
