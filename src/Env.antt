-- ===== src/Env.antt =====
-- What a request brings along and the program does not compute itself: the clock, the entropy, the
-- cryptography of golang-jwt, bcrypt and the standard library, and which statements the database
-- driver fails (internal/store runs on modernc.org/sqlite).
use aegis_hosting_control_pa.Base.{ℕ, String, Bool, Option, List}

-- One constructor for each statement that internal/store sends.
pub data Op : Type 0 where
  record_login_attempt count_recent_failures count_recent_failures_for_user : Op
  count_recent_failures_from_ip has_recent_success : Op
  create_session get_session_user delete_session delete_user_sessions : Op
  create_totp_challenge get_totp_challenge_user delete_totp_challenge : Op
  get_user_by_id get_user_by_username list_users create_user update_user : Op
  set_user_password set_user_status set_totp_secret enable_totp set_totp_backup_codes : Op
  disable_totp set_suspended_by_quota is_suspended_by_quota is_manually_suspended : Op
  create_api_token all_active_api_tokens touch_api_token delete_api_token : Op
  get_package get_default_package create_package update_package delete_package : Op
  list_packages clear_default_packages count_package_users : Op
  list_ftp_accounts list_domains list_databases list_containers : Op
  get_mail_domain list_mailboxes list_suspension_actions clear_suspension_actions : Op
  record_suspension_action set_mailbox_enabled : ℕ → Op
  create_cron_job list_cron_jobs update_cron_job delete_cron_job get_cron_job : Op
  delete_user append_audit : Op

-- The JWT payload (`Claims` of internal/auth/auth.go with the registered claims that are set).
pub record Claims : Type 0 where
  pub username : String
  pub role : String
  pub impersonator : ℕ
  pub session_id : String
  pub subject : ℕ
  pub issued_at : ℕ
  pub expires_at : ℕ
  pub issuer : String

pub record Env : Type 0 where
  -- time.Now(), in nanoseconds since 1970; one reading serves a whole call.
  pub now : ℕ
  -- the driver's failures, by statement
  pub fault : Op → Bool
  -- crypto/rand: 24 bytes of a session id, and the 32 draws below 62 of `RandomString`; `none` if
  -- the read fails
  pub session_entropy : Option (List ℕ)
  pub token_entropy : Option (List ℕ)
  -- bcrypt.GenerateFromPassword and bcrypt.CompareHashAndPassword
  pub bcrypt_hash : String → Option String
  pub bcrypt_matches : String → String → Bool
  -- jwt.Token.SignedString, and jwt.ParseWithClaims with its signature, expiry and issuer checks
  pub sign : Claims → Option String
  pub parse_with_claims : ℕ → String → Option Claims
