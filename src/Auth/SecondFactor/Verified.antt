-- ===== src/Auth/SecondFactor/Verified.antt =====
-- What the second step of a login has checked when it returns a session.
use aegis_hosting_control_pa.Base.{
  String, Bool, true, false, ◌≡◌, refl, same, arith, some, first, Bool-cases, Option-cases, inl,
  inr, ◌⊎◌, if◌then◌else◌,
}
use aegis_hosting_control_pa.Env.{Op}
use aegis_hosting_control_pa.Store.Schema.{User, Session, Db, status_suspended}
use aegis_hosting_control_pa.Store.Result.{Result, ok, err, totp_invalid_code, resume}
use aegis_hosting_control_pa.Store.Users.{get_user_by_id, has_id}
use aegis_hosting_control_pa.Store.Sessions.{get_totp_challenge_user, has_session_id, is_expired}
use aegis_hosting_control_pa.Auth.Totp.{validate_totp_code}
use aegis_hosting_control_pa.Auth.Lockout.Limits.{is_locked_out, locked_out?-limits}
use aegis_hosting_control_pa.Auth.Manager.{Manager, LoginReply, refuse}
use aegis_hosting_control_pa.Auth.SecondFactor.{
  consume_backup_code, redeem, verify_code, second_step, verify_totp_login,
}

-- The checks of `VerifyTOTPLogin`, in one place.
pub record IsVerified (m : Manager) (challenge code ip : String) (db : Db) (u : User) : Type 0 where
  pub row : Session
  pub held : first (has_session_id challenge) db.totp_challenges ≡ some row
  pub fresh : is_expired m.env row ≡ false
  pub known : first (has_id row.user_id) db.users ≡ some u
  pub allowed : is_locked_out m.env u.username ip db ≡ false
  pub active : same u.status status_suspended ≡ false
  pub coded :
      (validate_totp_code m.mac m.env.now u.totp_secret code ≡ true)
      ⊎ ((consume_backup_code m u code db).0 ≡ ok true)

module _ (m : Manager) (challenge code ip : String) (db : Db) where
  spent_only :
      (u : User) (r : Result Bool) (db1 : Db) {reply : LoginReply} {db' : Db}
      → resume r
          (λ spent.
            if spent then redeem m u challenge ip else refuse m u.username ip totp_invalid_code)
          db1
        ≡ (ok reply, db')
      → r ≡ ok true
  spent_only u (ok true) db1 h = refl
  spent_only u (ok false) db1 h = ground arith
  spent_only u (err e) db1 h = ground arith

  verify_code-checks :
      (u : User) {reply : LoginReply} {db' : Db}
      → verify_code m u challenge code ip db ≡ (ok reply, db')
      → (validate_totp_code m.mac m.env.now u.totp_secret code ≡ true)
        ⊎ ((consume_backup_code m u code db).0 ≡ ok true)
  unfolding verify_code
  verify_code-checks u h =
      elim (Bool-cases (validate_totp_code m.mac m.env.now u.totp_secret code)) [
        | inl valid ↦ inl valid
        | inr wrong ↦ inr (
            spent_only u (consume_backup_code m u code db).0 (consume_backup_code m u code db).1
              (rw wrong at h))
      ]

  second_step-checks :
      (u : User) {reply : LoginReply} {db' : Db}
      → second_step m u challenge code ip db ≡ (ok reply, db')
      → (same u.status status_suspended ≡ false)
        × (verify_code m u challenge code ip db ≡ (ok reply, db'))
  second_step-checks u h = elim (Bool-cases (same u.status status_suspended)) [
    | inl out ↦ ground arith
    | inr active ↦ (active, rw active at h)
  ]

  -- A second step that returns a session had a challenge that was there and had not expired, its
  -- account was not locked out from the address and not suspended, and the code was a valid
  -- one-time code of the account, or was accepted as one of its backup codes.
  pub verify_totp_login-IsVerified :
      {reply : LoginReply} {db' : Db}
      → verify_totp_login m challenge code ip db ≡ (ok reply, db')
      → (u : User) × IsVerified m challenge code ip db u
  unfolding verify_totp_login get_totp_challenge_user get_user_by_id
  verify_totp_login-IsVerified h =
      elim (Option-cases (first (has_session_id challenge) db.totp_challenges)) [
        | inl gone ↦ ground arith
        | inr (row, held) ↦ elim (Bool-cases (is_expired m.env row)) [
          | inl old ↦ ground arith
          | inr fresh ↦ elim (Option-cases (first (has_id row.user_id) db.users)) [
            | inl missing ↦ ground arith
            | inr (u, known) ↦ elim (Bool-cases (m.env.fault Op.get_totp_challenge_user)) [
              | inl failed ↦ cc (rw failed at h)
              | inr works ↦ elim (Bool-cases (m.env.fault Op.get_user_by_id)) [
                | inl failed ↦ cc (rw (works, held, fresh, failed) at h)
                | inr finds ↦ elim (Bool-cases (is_locked_out m.env u.username ip db)) [
                  | inl locked ↦
                      cc (rw (works, held, fresh, finds, known, locked_out?-limits, locked) at h)
                  | inr allowed ↦
                      let run =
                        rw (works, held, fresh, finds, known, locked_out?-limits, allowed) at h in
                      let (active, run') = second_step-checks u run in
                      (
                        u,
                        record {
                          row = row;
                          held = held;
                          fresh = fresh;
                          known = known;
                          allowed = allowed;
                          active = active;
                          coded = verify_code-checks u run';
                        },
                      )
                ]
              ]
            ]
          ]
        ]
      ]
