-- ===== src/Api/SignIn/Requests.antt =====
-- What the handlers of internal/api/handlers_auth.go leave of the accounts.
use aegis_hosting_control_pa.Base.{
  ℕ, String, Option, none, some, not, ◌||◌, same, of_if, ◌≡◌, ◌∙◌, refl,
}
use aegis_hosting_control_pa.Env.{Op}
use aegis_hosting_control_pa.Store.Schema.{Db, role_admin}
use aegis_hosting_control_pa.Store.Result.{Error, Result, ok, err}
use aegis_hosting_control_pa.Store.Users.{get_user_by_id}
use aegis_hosting_control_pa.Store.Sessions.{append_audit}
use aegis_hosting_control_pa.Auth.Manager.{Manager, LoginReply, session, totp_required}
use aegis_hosting_control_pa.Auth.Login.{login, confirm_password}
use aegis_hosting_control_pa.Auth.SecondFactor.{
  verify_totp_login, begin_totp_enroll, confirm_totp_enroll, turn_off_totp,
}
use aegis_hosting_control_pa.Auth.Sessions.{logout, impersonate, unimpersonate}
use aegis_hosting_control_pa.Auth.Kept.{Kept, identities, exec-Kept}
use aegis_hosting_control_pa.Auth.Kept.Calls.{
  user-Kept, login-Kept, confirm-Kept, verify-Kept, enroll-Kept, enrolled-Kept, off-Kept,
  logout-Kept, impersonate-Kept, unimpersonate-Kept,
}
use aegis_hosting_control_pa.Api.Users.{Caller, audit_as}
use aegis_hosting_control_pa.Api.SignIn.{
  Answer, LoginRequest, VerifyRequest, login_status, locked_or, disable_status, after_login, answer,
  handle_login, handle_totp_verify, handle_totp_enroll, handle_totp_confirm, handle_totp_disable,
  handle_me, handle_logout, handle_impersonate, handle_unimpersonate,
}

-- A request to one of the handlers: its body, or its token.
pub data SignInRequest : Type 0 where
  sign_in : Option LoginRequest → SignInRequest
  verify_totp : Option VerifyRequest → SignInRequest
  enroll_totp : SignInRequest
  confirm_totp : Option String → SignInRequest
  disable_totp : Option String → SignInRequest
  who_am_i : SignInRequest
  sign_out : String → SignInRequest
  impersonate_user : Option ℕ → SignInRequest
  end_impersonation : String → SignInRequest

-- The routes; the first two need no account, only the address.
abbrev pub serve_sign_in : Manager → Caller → SignInRequest → Db → Answer × Db
serve_sign_in m c (sign_in body) = handle_login m c.ip body
serve_sign_in m c (verify_totp body) = handle_totp_verify m c.ip body
serve_sign_in m c enroll_totp = handle_totp_enroll m c
serve_sign_in m c (confirm_totp body) = handle_totp_confirm m c body
serve_sign_in m c (disable_totp body) = handle_totp_disable m c body
serve_sign_in m c who_am_i = handle_me m c
serve_sign_in m c (sign_out token) = handle_logout m c token
serve_sign_in m c (impersonate_user body) = handle_impersonate m c body
serve_sign_in m c (end_impersonation token) = handle_unimpersonate m c token

module _ (m : Manager) (c : Caller) where
  abbrev Keeps : Db → Answer × Db → Type 0
  Keeps db r = identities r.1 ≡ identities db

  append-Kept :
      (id : ℕ) (name action target ip : String)
      → Kept {A = Unit {0}} (append_audit m.env id name action target ip)
  unfolding append_audit
  append-Kept id name action target ip = exec-Kept m.env Op.append_audit _ (λ db. refl)

  audit-Keeps :
      (action target : String) (db : Db)
      → identities (audit_as m.env c action target db) ≡ identities db
  audit-Keeps action target db = (append-Kept c.actor.id _ action target c.ip).holds db

  answer-Keeps :
      {A : Type 0} (db : Db) (status : Error → ℕ) (r : Result A × Db) (next : A → Db → Answer × Db)
      → identities r.1 ≡ identities db
      → ((a : A) (db' : Db) → Keeps db' (next a db'))
      → Keeps db (answer status r next)
  answer-Keeps db status (err error, db') next h k = h
  answer-Keeps db status (ok a, db') next h k = k a db' ∙ h

  after_login-Keeps :
      (db : Db) (ip : String) (status : Error → ℕ) (r : Result LoginReply × Db)
      → identities r.1 ≡ identities db
      → Keeps db (after_login m ip status r)
  after_login-Keeps db ip status (err error, db') h = h
  after_login-Keeps db ip status (ok (totp_required id), db') h = h
  after_login-Keeps db ip status (ok (session u token), db') h =
      (append-Kept 0 "anonymous" "auth.login" u.username ip).holds db' ∙ h

  sign_in-Keeps : (body : Option LoginRequest) (db : Db) → Keeps db (handle_login m c.ip body db)
  unfolding handle_login
  sign_in-Keeps none db = refl
  sign_in-Keeps (some q) db =
      of_if {A = Answer × Db} (Keeps db) (same q.username "" || same q.password "") _ _ refl (
        after_login-Keeps db c.ip login_status (login m q.username q.password c.ip db)
          ((login-Kept m q.username q.password c.ip).holds db))

  verify-Keeps :
      (body : Option VerifyRequest) (db : Db) → Keeps db (handle_totp_verify m c.ip body db)
  unfolding handle_totp_verify
  verify-Keeps none db = refl
  verify-Keeps (some q) db =
      of_if {A = Answer × Db} (Keeps db) (same q.challenge "" || same q.code "") _ _ refl (
        after_login-Keeps db c.ip (locked_or 401) (verify_totp_login m q.challenge q.code c.ip db)
          ((verify-Kept m q.challenge q.code c.ip).holds db))

  confirm-Keeps : (body : Option String) (db : Db) → Keeps db (handle_totp_confirm m c body db)
  unfolding handle_totp_confirm
  confirm-Keeps none db = refl
  confirm-Keeps (some code) db =
      answer-Keeps db (λ _. 400) (confirm_totp_enroll m c.actor.id code db) _
        ((enrolled-Kept m c.actor.id code).holds db) (λ codes db'. audit-Keeps _ _ db')

  disable-Keeps : (body : Option String) (db : Db) → Keeps db (handle_totp_disable m c body db)
  unfolding handle_totp_disable
  disable-Keeps none db = refl
  disable-Keeps (some password) db =
      answer-Keeps db (locked_or 401) (confirm_password m c.actor password c.ip db) _
        ((confirm-Kept m c.actor password c.ip).holds db)
        (λ _ db1.
          answer-Keeps db1 disable_status (turn_off_totp m c.actor.id password db1) _
            ((off-Kept m c.actor.id password).holds db1) (λ _ db2. audit-Keeps _ _ db2))

  target-Keeps : (body : Option ℕ) (db : Db) → Keeps db (handle_impersonate m c body db)
  unfolding handle_impersonate
  target-Keeps none db =
      of_if {A = Answer × Db} (Keeps db) (not (same c.actor.role role_admin)) _ _ refl refl
  target-Keeps (some id) db =
      of_if {A = Answer × Db} (Keeps db) (not (same c.actor.role role_admin)) _ _ refl (
        answer-Keeps db (λ _. 404) (get_user_by_id m.env id db) _ ((user-Kept m id).holds db)
          (λ target db1.
            answer-Keeps db1 (λ _. 403) (impersonate m c.actor.id target.id db1) _
              ((impersonate-Kept m c.actor.id target.id).holds db1)
              (λ token db2. audit-Keeps _ _ db2)))

  -- No request to the sign-in handlers changes an account but for its second factor and the time of
  -- its last change, or adds or removes one, whoever asks and whatever fails.
  pub serve_sign_in-identities :
      (r : SignInRequest) (db : Db) → identities (serve_sign_in m c r db).1 ≡ identities db
  unfolding handle_totp_enroll handle_me handle_logout handle_unimpersonate
  serve_sign_in-identities (sign_in body) db = sign_in-Keeps body db
  serve_sign_in-identities (verify_totp body) db = verify-Keeps body db
  serve_sign_in-identities enroll_totp db =
      answer-Keeps db (λ _. 500) (begin_totp_enroll m c.actor.id db) _
        ((enroll-Kept m c.actor.id).holds db) (λ secret db'. refl)
  serve_sign_in-identities (confirm_totp body) db = confirm-Keeps body db
  serve_sign_in-identities (disable_totp body) db = disable-Keeps body db
  serve_sign_in-identities who_am_i db = refl
  serve_sign_in-identities (sign_out token) db =
      audit-Keeps "auth.logout" c.actor.username (logout m token db).1
      ∙ (logout-Kept m token).holds db
  serve_sign_in-identities (impersonate_user body) db = target-Keeps body db
  serve_sign_in-identities (end_impersonation token) db =
      answer-Keeps db (λ _. 400) (unimpersonate m token db) _
        ((unimpersonate-Kept m token).holds db) (λ fresh db'. audit-Keeps _ _ db')
