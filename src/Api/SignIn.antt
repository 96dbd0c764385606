-- ===== src/Api/SignIn.antt =====
-- The handlers of internal/api/handlers_auth.go: signing in and out, the second factor, and support
-- sessions. A body is what readJSON made of it, `none` if it is invalid.
pub mod Confirmed
pub mod Requests
use aegis_hosting_control_pa.Base.{
  ℕ, String, Bool, true, false, Option, none, some, List, not, ◌||◌, ltb, same, if◌then◌else◌,
}
use aegis_hosting_control_pa.Env.{Env}
use aegis_hosting_control_pa.Store.Schema.{User, Db, role_admin}
use aegis_hosting_control_pa.Store.Result.{Error, Result, ok, err, locked_out, invalid_credentials}
use aegis_hosting_control_pa.Store.Users.{get_user_by_id}
use aegis_hosting_control_pa.Store.Sessions.{append_audit}
use aegis_hosting_control_pa.Auth.Manager.{Manager, LoginReply, session, totp_required}
use aegis_hosting_control_pa.Auth.Login.{login, confirm_password}
use aegis_hosting_control_pa.Auth.SecondFactor.{
  verify_totp_login, begin_totp_enroll, confirm_totp_enroll, turn_off_totp,
}
use aegis_hosting_control_pa.Auth.Sessions.{logout, impersonate, unimpersonate, is_impersonating}
use aegis_hosting_control_pa.Api.Users.{Caller, public_user, audit_as}
use aegis_hosting_control_pa.Api.Features.{Features, features_for}

pub data Answer : Type 0 where
  denied : ℕ → Answer
  signed_in : String → User → Answer
  challenge : String → Answer
  -- the otpauth:// address that goes with the secret is left out
  enrolling : String → Answer
  backup_codes : List String → Answer
  -- the account, whether it is a support session and whose, and the features
  identity : User → String → Bool → String → Features → Answer
  support_token : String → Answer
  done : Answer

-- `audit` of a request without an account.
abbrev pub audit_anonymous : Env → String → String → String → Db → Db
audit_anonymous e action target ip db = (append_audit e 0 "anonymous" action target ip db).1

pub record LoginRequest : Type 0 where
  pub username : String
  pub password : String

abbrev pub login_status : Error → ℕ
login_status invalid_credentials = 401
login_status locked_out = 429
login_status _ = 403

-- 429 for a lockout, or the status of every other error.
abbrev pub locked_or : ℕ → Error → ℕ
locked_or status locked_out = 429
locked_or status _ = status

abbrev pub after_login : Manager → String → (Error → ℕ) → Result LoginReply × Db → Answer × Db
after_login m ip status (err error, db) = (denied (status error), db)
after_login m ip status (ok (totp_required id), db) = (challenge id, db)
after_login m ip status (ok (session u token), db) =
    (signed_in token (public_user u), audit_anonymous m.env "auth.login" u.username ip db)

-- `handleLogin`
unfoldable pub handle_login : Manager → String → Option LoginRequest → Db → Answer × Db
handle_login m ip none db = (denied 400, db)
handle_login m ip (some q) db =
    if same q.username "" || same q.password ""
    then (denied 400, db)
    else after_login m ip login_status (login m q.username q.password ip db)

pub record VerifyRequest : Type 0 where
  pub challenge : String
  pub code : String

-- `handleTOTPVerify`
unfoldable pub handle_totp_verify : Manager → String → Option VerifyRequest → Db → Answer × Db
handle_totp_verify m ip none db = (denied 400, db)
handle_totp_verify m ip (some q) db =
    if same q.challenge "" || same q.code ""
    then (denied 400, db)
    else after_login m ip (locked_or 401) (verify_totp_login m q.challenge q.code ip db)

-- An error is answered with a status; the rest of the handler goes on from what was written.
abbrev pub answer :
    {A : Type 0} → (Error → ℕ) → Result A × Db → (A → Db → Answer × Db) → Answer × Db
answer status (err error, db) next = (denied (status error), db)
answer status (ok a, db) next = next a db

-- `handleTOTPEnroll`
unfoldable pub handle_totp_enroll : Manager → Caller → Db → Answer × Db
handle_totp_enroll m c db =
    answer (λ _. 500) (begin_totp_enroll m c.actor.id db) (λ secret db'. (enrolling secret, db'))

-- `handleTOTPConfirm`; the body is the code.
unfoldable pub handle_totp_confirm : Manager → Caller → Option String → Db → Answer × Db
handle_totp_confirm m c none db = (denied 400, db)
handle_totp_confirm m c (some code) db =
    answer (λ _. 400) (confirm_totp_enroll m c.actor.id code db)
      (λ codes db'. (backup_codes codes, audit_as m.env c "auth.totp_enabled" c.actor.username db'))

abbrev pub disable_status : Error → ℕ
disable_status invalid_credentials = 401
disable_status _ = 400

-- `handleTOTPDisable`; the body is the password.
unfoldable pub handle_totp_disable : Manager → Caller → Option String → Db → Answer × Db
handle_totp_disable m c none db = (denied 400, db)
handle_totp_disable m c (some password) db =
    answer (locked_or 401) (confirm_password m c.actor password c.ip db) (λ _ db1.
      answer disable_status (turn_off_totp m c.actor.id password db1)
        (λ _ db2. (done, audit_as m.env c "auth.totp_disabled" c.actor.username db2)))

abbrev pub username_or : String → Result User → String
username_or name (err _) = name
username_or name (ok u) = u.username

-- `handleMe`
unfoldable pub handle_me : Manager → Caller → Db → Answer × Db
handle_me m c db =
    let name =
      if is_impersonating c.claims
      then username_or c.actor.username (get_user_by_id m.env c.claims.impersonator db).0
      else c.actor.username in
    (
      identity (public_user c.actor) c.claims.role (is_impersonating c.claims) name
          (features_for m.env c.actor db),
      db,
    )

-- `handleLogout`; an error of Logout is dropped.
unfoldable pub handle_logout : Manager → Caller → String → Db → Answer × Db
handle_logout m c token db =
    (done, audit_as m.env c "auth.logout" c.actor.username (logout m token db).1)

-- `handleImpersonate`; the body is the id of the account.
unfoldable pub handle_impersonate : Manager → Caller → Option ℕ → Db → Answer × Db
handle_impersonate m c body db =
    if not (same c.actor.role role_admin) then (denied 403, db) else elim body [
      | none ↦ (denied 400, db)
      | some id ↦
          answer (λ _. 404) (get_user_by_id m.env id db)
            (λ target db1.
              answer (λ _. 403) (impersonate m c.actor.id target.id db1)
                (λ token db2.
                  (support_token token, audit_as m.env c "admin.impersonate" target.username db2)))
    ]

-- `handleUnimpersonate`; the administrator's name goes into the detail of the audit entry only.
unfoldable pub handle_unimpersonate : Manager → Caller → String → Db → Answer × Db
handle_unimpersonate m c token db =
    answer (λ _. 400) (unimpersonate m token db)
      (λ fresh db'.
        (support_token fresh, audit_as m.env c "admin.unimpersonate" c.actor.username db'))
