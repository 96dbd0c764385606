-- ===== src/Auth/Kept/Calls.antt =====
-- The calls of internal/auth/auth.go leave the accounts, but for their second factors, as they are.
use aegis_hosting_control_pa.Base.{
  ℕ, String, Bool, true, false, List, none, some, Option, ◌||◌, any, same, trim_space, not, of_if,
  refl, ap, ◌≡◌, ◌==◌,
}
use aegis_hosting_control_pa.Env.{Op, Claims}
use aegis_hosting_control_pa.Store.Schema.{User, Db, status_suspended, role_admin}
use aegis_hosting_control_pa.Store.Result.{
  Error, Result, ok, err, not_found, suspended, entropy, hashing, not_impersonated, handle,
}
use aegis_hosting_control_pa.Store.Users.{
  get_user_by_id, get_user_by_username, set_totp_secret, enable_totp, set_totp_backup_codes,
  disable_totp,
}
use aegis_hosting_control_pa.Store.Sessions.{
  create_session, delete_session, create_totp_challenge, delete_totp_challenge,
  get_totp_challenge_user, record_login_attempt, has_session_id,
}
use aegis_hosting_control_pa.Auth.Lockout.{locked_out?}
use aegis_hosting_control_pa.Auth.Lockout.Limits.{locked_out?-limits}
use aegis_hosting_control_pa.Auth.Totp.{validate_totp_code, generate_backup_codes}
use aegis_hosting_control_pa.Auth.Manager.{
  Manager, LoginReply, open_session, complete_login, refuse, check_password, parse, option_or,
}
use aegis_hosting_control_pa.Auth.Login.{
  login, login_user, login_as, start_session, refuse_unknown, confirm_password,
}
use aegis_hosting_control_pa.Auth.SecondFactor.{
  second_step, all_hashes, verify_totp_login, verify_code, redeem, consume_backup_code,
  spend_stored, spend_code, begin_totp_enroll, confirm_totp_enroll, finish_enroll, turn_off_totp,
}
use aegis_hosting_control_pa.Auth.Sessions.{logout, impersonate, unimpersonate}
use aegis_hosting_control_pa.Auth.Kept.{
  pure, fail-Kept, reads-Kept, pure-Kept, of_result-Kept, ignore-Kept, exec-Kept, Kept, identities,
  bind-Kept, attempt-Kept, if-Kept, query_row-Kept, update-Kept,
}

module _ (m : Manager) where
  locked-Kept : (username ip : String) → Kept {A = Bool} (locked_out? m.env username ip)
  locked-Kept username ip =
      reads-Kept _ (λ db. ap (λ r. r.1) (locked_out?-limits m.env username ip db))

  record-Kept :
      (username ip : String) (b : Bool)
      → Kept {A = Unit {0}} (record_login_attempt m.env username ip b)
  unfolding record_login_attempt
  record-Kept username ip b = exec-Kept m.env Op.record_login_attempt _ (λ db. refl)

  refuse-Kept :
      (A : Type 0) (username ip : String) (error : Error)
      → Kept {A = A} (refuse {A = A} m username ip error)
  refuse-Kept A username ip error =
      bind-Kept {A = Unit {0}} {B = A} _ _ (ignore-Kept _ (record-Kept username ip false))
        (λ _. fail-Kept error)

  pub user-Kept : (id : ℕ) → Kept {A = User} (get_user_by_id m.env id)
  unfolding get_user_by_id
  user-Kept id = query_row-Kept m.env Op.get_user_by_id _

  named-Kept : (username : String) → Kept {A = User} (get_user_by_username m.env username)
  unfolding get_user_by_username
  named-Kept username = query_row-Kept m.env Op.get_user_by_username _

  create-Kept :
      (sid : String) (id until : ℕ) → Kept {A = Unit {0}} (create_session m.env sid id until)
  unfolding create_session
  create-Kept sid id until = record {
    holds = λ db.
        of_if {A = Result (Unit {0}) × Db} (λ r. identities r.1 ≡ identities db)
          (m.env.fault Op.create_session || any (has_session_id sid) db.sessions) _ _ refl refl;
  }

  challenge-Kept :
      (cid : String) (id until : ℕ) → Kept {A = Unit {0}} (create_totp_challenge m.env cid id until)
  unfolding create_totp_challenge
  challenge-Kept cid id until = record {
    holds = λ db.
        of_if {A = Result (Unit {0}) × Db} (λ r. identities r.1 ≡ identities db)
          (m.env.fault Op.create_totp_challenge || any (has_session_id cid) db.totp_challenges) _ _
          refl refl;
  }

  drop_challenge-Kept : (cid : String) → Kept {A = Unit {0}} (delete_totp_challenge m.env cid)
  unfolding delete_totp_challenge
  drop_challenge-Kept cid = exec-Kept m.env Op.delete_totp_challenge _ (λ db. refl)

  drop_session-Kept : (sid : String) → Kept {A = Unit {0}} (delete_session m.env sid)
  unfolding delete_session
  drop_session-Kept sid = exec-Kept m.env Op.delete_session _ (λ db. refl)

  holder-Kept : (cid : String) → Kept {A = ℕ} (get_totp_challenge_user m.env cid)
  unfolding get_totp_challenge_user
  holder-Kept cid = query_row-Kept m.env Op.get_totp_challenge_user _

  open-Kept : (u : User) (impersonator : ℕ) → Kept {A = String} (open_session m u impersonator)
  unfolding open_session
  open-Kept u impersonator = bind-Kept {A = String} {B = String} _ _ (of_result-Kept _) (λ sid.
      bind-Kept {A = Unit {0}} {B = String} _ _ (create-Kept sid _ _) (λ _. of_result-Kept _))

  complete-Kept : (u : User) → Kept {A = LoginReply} (complete_login m u)
  unfolding complete_login
  complete-Kept u =
      bind-Kept {A = String} {B = LoginReply} _ _ (open-Kept u 0) (λ token. pure-Kept _)

  start-Kept : (u : User) → Kept {A = LoginReply} (start_session m u)
  unfolding start_session
  start-Kept u =
      if-Kept {A = LoginReply} u.totp_enabled _ _
        (bind-Kept {A = String} {B = LoginReply} _ _ (of_result-Kept _) (λ cid.
          bind-Kept {A = Unit {0}} {B = LoginReply} _ _ (challenge-Kept cid _ _)
            (λ _. pure-Kept _)))
        (complete-Kept u)

  login_as-Kept :
      (u : User) (username password ip : String)
      → Kept {A = LoginReply} (login_as m u username password ip)
  unfolding login_as
  login_as-Kept u username password ip =
      if-Kept {A = LoginReply} (not (check_password m u.password_hash password)) _ _
        (refuse-Kept LoginReply username ip _)
        (if-Kept {A = LoginReply} (same u.status status_suspended) _ _
          (refuse-Kept LoginReply username ip _)
          (bind-Kept {A = Unit {0}} {B = LoginReply} _ _
            (ignore-Kept _ (record-Kept username ip true)) (λ _. start-Kept u)))

  unknown-Kept :
      (username ip : String) (error : Error)
      → Kept {A = LoginReply} (refuse_unknown m username ip error)
  unknown-Kept username ip not_found = refuse-Kept LoginReply username ip _
  unknown-Kept username ip _ = fail-Kept _

  pub login-Kept :
      (username password ip : String) → Kept {A = LoginReply} (login m username password ip)
  unfolding login login_user
  login-Kept username password ip =
      bind-Kept {A = Bool} {B = LoginReply} _ _ (locked-Kept username ip) (λ locked.
        if-Kept {A = LoginReply} locked _ _ (fail-Kept _) (
          attempt-Kept {A = User} {B = LoginReply} _ _ _ (named-Kept username)
            (λ u. login_as-Kept u username password ip) (λ error. unknown-Kept username ip error)))

  pub confirm-Kept :
      (u : User) (password ip : String) → Kept {A = Unit {0}} (confirm_password m u password ip)
  unfolding confirm_password
  confirm-Kept u password ip =
      bind-Kept {A = Bool} {B = Unit {0}} _ _ (locked-Kept u.username ip) (λ locked.
        if-Kept {A = Unit {0}} locked _ _ (fail-Kept _) (
          if-Kept {A = Unit {0}}
            (same password "" || not (check_password m u.password_hash password)) _ _
            (refuse-Kept (Unit {0}) u.username ip _) (pure-Kept _)))

  -- The second factor.
  codes-Kept :
      (id : ℕ) (codes : List String) → Kept {A = Unit {0}} (set_totp_backup_codes m.env id codes)
  unfolding set_totp_backup_codes
  codes-Kept id codes = update-Kept m.env Op.set_totp_backup_codes id _ (λ u. refl)

  stored-Kept : (id : ℕ) (left : Option (List String)) → Kept {A = Bool} (spend_stored m id left)
  stored-Kept id none = pure-Kept false
  stored-Kept id (some left) =
      bind-Kept {A = Unit {0}} {B = Bool} _ _ (ignore-Kept _ (codes-Kept id left))
        (λ _. pure-Kept true)

  some_codes-Kept :
      (u : User) (code : String) (o : Option (List String))
      → Kept {A = Bool} (elim o [
        | none ↦ pure false
        | some hashes ↦ spend_stored m u.id (spend_code m code hashes)
      ])
  some_codes-Kept u code none = pure-Kept false
  some_codes-Kept u code (some hashes) = stored-Kept u.id (spend_code m code hashes)

  consume-Kept : (u : User) (raw : String) → Kept {A = Bool} (consume_backup_code m u raw)
  unfolding consume_backup_code
  consume-Kept u raw =
      if-Kept {A = Bool} (same (trim_space raw) "") _ _ (pure-Kept false)
        (some_codes-Kept u (trim_space raw) u.totp_backup_codes)

  redeem-Kept : (u : User) (cid ip : String) → Kept {A = LoginReply} (redeem m u cid ip)
  redeem-Kept u cid ip =
      bind-Kept {A = Unit {0}} {B = LoginReply} _ _ (ignore-Kept _ (record-Kept u.username ip true))
        (λ _.
          bind-Kept {A = Unit {0}} {B = LoginReply} _ _ (ignore-Kept _ (drop_challenge-Kept cid))
            (λ _. complete-Kept u))

  code-Kept :
      (u : User) (cid code ip : String) → Kept {A = LoginReply} (verify_code m u cid code ip)
  unfolding verify_code
  code-Kept u cid code ip =
      if-Kept {A = LoginReply} (validate_totp_code m.mac m.env.now u.totp_secret code) _ _
        (redeem-Kept u cid ip)
        (bind-Kept {A = Bool} {B = LoginReply} _ _ (consume-Kept u code) (λ spent.
          if-Kept {A = LoginReply} spent _ _ (redeem-Kept u cid ip)
            (refuse-Kept LoginReply u.username ip _)))

  step-Kept :
      (u : User) (cid code ip : String) → Kept {A = LoginReply} (second_step m u cid code ip)
  step-Kept u cid code ip =
      if-Kept {A = LoginReply} (same u.status status_suspended) _ _
        (bind-Kept {A = Unit {0}} {B = LoginReply} _ _ (ignore-Kept _ (drop_challenge-Kept cid))
          (λ _. fail-Kept suspended))
        (code-Kept u cid code ip)

  pub verify-Kept : (cid code ip : String) → Kept {A = LoginReply} (verify_totp_login m cid code ip)
  unfolding verify_totp_login
  verify-Kept cid code ip =
      attempt-Kept {A = ℕ} {B = LoginReply} _ _ _ (holder-Kept cid)
        (λ id.
          attempt-Kept {A = User} {B = LoginReply} _ _ _ (user-Kept id)
            (λ u. bind-Kept {A = Bool} {B = LoginReply} _ _ (locked-Kept u.username ip) (λ locked.
              if-Kept {A = LoginReply} locked _ _ (fail-Kept _) (step-Kept u cid code ip)))
            (λ _. fail-Kept _))
        (λ _. fail-Kept _)

  pub enroll-Kept : (id : ℕ) → Kept {A = String} (begin_totp_enroll m id)
  unfolding begin_totp_enroll set_totp_secret
  enroll-Kept id = bind-Kept {A = String} {B = String} _ _ (of_result-Kept _) (λ secret.
      bind-Kept {A = Unit {0}} {B = String} _ _
        (update-Kept m.env Op.set_totp_secret id _ (λ u. refl)) (λ _. pure-Kept secret))

  enable-Kept : (id : ℕ) (hashes : List String) → Kept {A = Unit {0}} (enable_totp m.env id hashes)
  unfolding enable_totp
  enable-Kept id hashes = update-Kept m.env Op.enable_totp id _ (λ u. refl)

  finish-Kept : (id : ℕ) → Kept {A = List String} (finish_enroll m id)
  unfolding finish_enroll
  finish-Kept id =
      bind-Kept {A = List String} {B = List String} _ _
        (of_result-Kept (option_or entropy (generate_backup_codes m.backup_entropy)))
        (λ codes.
          bind-Kept {A = List String} {B = List String} _ _
            (of_result-Kept (option_or hashing (all_hashes m codes)))
            (λ hashes.
              bind-Kept {A = Unit {0}} {B = List String} _ _ (enable-Kept id hashes)
                (λ _. pure-Kept codes)))

  pub enrolled-Kept :
      (id : ℕ) (code : String) → Kept {A = List String} (confirm_totp_enroll m id code)
  unfolding confirm_totp_enroll
  enrolled-Kept id code = bind-Kept {A = User} {B = List String} _ _ (user-Kept id) (λ u.
      if-Kept {A = List String} u.totp_enabled _ _ (fail-Kept _) (
        if-Kept {A = List String} (same u.totp_secret "") _ _ (fail-Kept _) (
          if-Kept {A = List String} (validate_totp_code m.mac m.env.now u.totp_secret code) _ _
            (finish-Kept id) (fail-Kept _))))

  pub off-Kept : (id : ℕ) (password : String) → Kept {A = Unit {0}} (turn_off_totp m id password)
  unfolding turn_off_totp disable_totp
  off-Kept id password = bind-Kept {A = User} {B = Unit {0}} _ _ (user-Kept id) (λ u.
      if-Kept {A = Unit {0}} (check_password m u.password_hash password) _ _
        (update-Kept m.env Op.disable_totp id _ (λ v. refl)) (fail-Kept _))

  -- Sessions.
  of_claims-Kept :
      (r : Result Claims)
      → Kept {A = Unit {0}}
          (handle r (λ claims. delete_session m.env claims.session_id) (λ _. pure tt))
  of_claims-Kept (ok claims) = drop_session-Kept claims.session_id
  of_claims-Kept (err error) = pure-Kept tt

  pub logout-Kept : (token : String) → Kept {A = Unit {0}} (logout m token)
  unfolding logout
  logout-Kept token = of_claims-Kept (parse m token)

  pub impersonate-Kept : (admin target : ℕ) → Kept {A = String} (impersonate m admin target)
  unfolding impersonate
  impersonate-Kept admin target = bind-Kept {A = User} {B = String} _ _ (user-Kept admin) (λ a.
      if-Kept {A = String} (not (same a.role role_admin)) _ _ (fail-Kept _) (
        bind-Kept {A = User} {B = String} _ _ (user-Kept target) (λ t.
          if-Kept {A = String} (same t.status status_suspended) _ _ (fail-Kept _)
            (open-Kept t admin))))

  pub unimpersonate-Kept : (token : String) → Kept {A = String} (unimpersonate m token)
  unfolding unimpersonate
  unimpersonate-Kept token =
      bind-Kept {A = Claims} {B = String} _ _ (of_result-Kept (parse m token)) (λ claims.
        bind-Kept {A = Unit {0}} {B = String} _ _
          (ignore-Kept _ (drop_session-Kept claims.session_id))
          (λ _. if-Kept {A = String} (claims.impersonator == 0) _ _ (fail-Kept not_impersonated) (
            bind-Kept {A = User} {B = String} _ _ (user-Kept claims.impersonator)
              (λ admin. open-Kept admin 0))))
