-- ===== src/Auth/SecondFactor.antt =====
-- Two-factor logins and enrollment of internal/auth/auth.go.
pub mod BackupCodes
pub mod Verified
use aegis_hosting_control_pa.Base.{
  ℕ, String, Bool, true, false, Option, none, some, List, [], ◌∷◌, same, if◌then◌else◌, trim_space,
}
use aegis_hosting_control_pa.Store.Schema.{User, status_suspended}
use aegis_hosting_control_pa.Store.Result.{
  invalid_credentials, invalid_token, suspended, locked_out, totp_not_enrolled,
  totp_already_enabled, totp_invalid_code, entropy, hashing, M, ◌>>=◌, ◌>>◌, pure, fail, of_result,
  ignore, attempt,
}
use aegis_hosting_control_pa.Store.Users.{
  get_user_by_id, set_totp_secret, enable_totp, set_totp_backup_codes, disable_totp,
}
use aegis_hosting_control_pa.Store.Sessions.{
  get_totp_challenge_user, delete_totp_challenge, record_login_attempt,
}
use aegis_hosting_control_pa.Auth.Lockout.{locked_out?}
use aegis_hosting_control_pa.Auth.Totp.{validate_totp_code, generate_backup_codes}
use aegis_hosting_control_pa.Auth.Manager.{
  Manager, check_password, option_or, refuse, LoginReply, complete_login,
}

-- The loop of `consumeBackupCode`: the list without the first hash that matches.
unfoldable pub spend_code : Manager → String → List String → Option (List String)
spend_code m code [] = none
spend_code m code (h ∷ hashes) =
    if check_password m h code
    then some hashes
    else elim (spend_code m code hashes) [ none ↦ none | some rest ↦ some (h ∷ rest) ]

abbrev pub spend_stored : Manager → ℕ → Option (List String) → M Bool
spend_stored m id none = pure false
spend_stored m id (some remaining) = do ignore (set_totp_backup_codes m.env id remaining); pure true

unfoldable pub consume_backup_code : Manager → User → String → M Bool
consume_backup_code m u raw =
    let code = trim_space raw in
    if same code "" then pure false else elim u.totp_backup_codes [
      | none ↦ pure false
      | some hashes ↦ spend_stored m u.id (spend_code m code hashes)
    ]

-- The end of a second step that the code allowed.
abbrev pub redeem : Manager → User → String → String → M LoginReply
redeem m u challenge ip = do
  ignore (record_login_attempt m.env u.username ip true)
  ignore (delete_totp_challenge m.env challenge)
  complete_login m u

unfoldable pub verify_code : Manager → User → String → String → String → M LoginReply
verify_code m u challenge code ip =
    if validate_totp_code m.mac m.env.now u.totp_secret code then redeem m u challenge ip else (do
      spent ← consume_backup_code m u code
      if spent then redeem m u challenge ip else refuse m u.username ip totp_invalid_code)

abbrev pub second_step : Manager → User → String → String → String → M LoginReply
second_step m u challenge code ip =
    if same u.status status_suspended
    then (do ignore (delete_totp_challenge m.env challenge); fail suspended)
    else verify_code m u challenge code ip

unfoldable pub verify_totp_login : Manager → String → String → String → M LoginReply
verify_totp_login m challenge code ip =
    attempt (get_totp_challenge_user m.env challenge)
      (λ uid.
        attempt (get_user_by_id m.env uid)
          (λ u. do
            locked ← locked_out? m.env u.username ip
            if locked then fail locked_out else second_step m u challenge code ip)
          (λ _. fail invalid_token))
      (λ _. fail invalid_token)

unfoldable pub begin_totp_enroll : Manager → ℕ → M String
begin_totp_enroll m user_id = do
  secret ← of_result (option_or entropy m.new_secret)
  set_totp_secret m.env user_id secret
  pure secret

abbrev pub all_hashes : Manager → List String → Option (List String)
all_hashes m [] = some []
all_hashes m (c ∷ codes) = elim (m.env.bcrypt_hash c) [
  | none ↦ none
  | some h ↦ elim (all_hashes m codes) [ none ↦ none | some hashes ↦ some (h ∷ hashes) ]
]

-- `ConfirmTOTPEnroll` once the code has checked out.
unfoldable pub finish_enroll : Manager → ℕ → M (List String)
unfolding generate_backup_codes
finish_enroll m user_id = do
  codes ← of_result (option_or entropy (generate_backup_codes m.backup_entropy))
  hashes ← of_result (option_or hashing (all_hashes m codes))
  enable_totp m.env user_id hashes
  pure codes

unfoldable pub confirm_totp_enroll : Manager → ℕ → String → M (List String)
confirm_totp_enroll m user_id code = do
  u ← get_user_by_id m.env user_id
  if u.totp_enabled
      then fail totp_already_enabled
      else if same u.totp_secret ""
      then fail totp_not_enrolled
      else if validate_totp_code m.mac m.env.now u.totp_secret code
      then finish_enroll m user_id
      else fail totp_invalid_code

-- `DisableTOTP`
unfoldable pub turn_off_totp : Manager → ℕ → String → M (Unit {0})
turn_off_totp m user_id password = do
  u ← get_user_by_id m.env user_id
  if check_password m u.password_hash password
      then disable_totp m.env user_id
      else fail invalid_credentials
