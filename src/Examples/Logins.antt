-- ===== src/Examples/Logins.antt =====
-- Runs of internal/auth on the sample server.
use aegis_hosting_control_pa.Base.{
  ◌+◌, ◌*◌, ◌≤◌, ◌<◌, ◌⊎◌, false, Option, none, ap, sym, ◌∙◌, arith, ℕ, String, true, first, any,
  keep, count_rows, hex_encode, arith, ◌≡◌, refl, some, List, [], ◌∷◌, Bool-cases, inl, inr, eq_iff,
  trim_space,
}
use aegis_hosting_control_pa.Env.{Claims}
use aegis_hosting_control_pa.Store.Schema.{User, Session, Db}
use aegis_hosting_control_pa.Store.Result.{ok, err, locked_out, invalid_token}
use aegis_hosting_control_pa.Store.Users.{
  has_id, get_user_by_id, get_user_by_username, set_totp_backup_codes,
}
use aegis_hosting_control_pa.Store.Sessions.{
  create_session, delete_session, record_login_attempt, count_recent_failures,
  count_recent_failures_from_ip, count_recent_failures_for_user,
}
use aegis_hosting_control_pa.Auth.Manager.{
  check_password, open_session, new_session_id, mint, complete_login,
}
use aegis_hosting_control_pa.Auth.Lockout.{locked_out?}
use aegis_hosting_control_pa.Auth.Lockout.Limits.{is_locked_out, locked_out?-limits}
use aegis_hosting_control_pa.Auth.Login.{login, login_user, login_as, start_session}
use aegis_hosting_control_pa.Auth.Login.Sound.{IsAdmitted, login-IsAdmitted}
use aegis_hosting_control_pa.Auth.Login.Guessing.{Guess, IsGuess, told, guess_all, guessing_ends}
use aegis_hosting_control_pa.Auth.SecondFactor.{
  verify_code, verify_totp_login, consume_backup_code, spend_code,
}
use aegis_hosting_control_pa.Store.Sessions.{get_totp_challenge_user, delete_totp_challenge}
use aegis_hosting_control_pa.Auth.Totp.{validate_totp_code}
use aegis_hosting_control_pa.Auth.SecondFactor.{verify_totp_login, verify_code}
use aegis_hosting_control_pa.Auth.SecondFactor.Verified.{IsVerified, verify_totp_login-IsVerified}
use aegis_hosting_control_pa.Auth.SecondFactor.BackupCodes.{IsUsedUp, consume_backup_code-IsUsedUp}
use aegis_hosting_control_pa.Auth.Sessions.{verify, logout, impersonate, unimpersonate}
use aegis_hosting_control_pa.Auth.Sessions.Tokens.{Parses, verify-open_session, verify-logout}
use aegis_hosting_control_pa.Auth.Sessions.Impersonation.{
  IsImpersonation, impersonate-IsImpersonation, unimpersonate-impersonate,
}
use aegis_hosting_control_pa.Auth.Manager.Opening.{IsOpened}
use aegis_hosting_control_pa.Examples.{
  noon, ada, server, sample_env, later, sample_manager, noon_claims, is_noon, parse_sample,
}

locked_out?-limits_example :
    locked_out? sample_env "ada" "10.0.0.1" server
    ≡ (ok (is_locked_out sample_env "ada" "10.0.0.1" server), server)
locked_out?-limits_example = locked_out?-limits sample_env "ada" "10.0.0.1" server

-- Six guesses, one each minute.
abbrev minutes_later : ℕ → String → Guess
minutes_later n p = record {
  manager = sample_manager (record sample_env { now = noon + n * 60_000_000_000 });
  password = p;
}

abbrev six_guesses : List Guess
six_guesses =
    minutes_later 0 "a"
    ∷ minutes_later 1 "b"
    ∷ minutes_later 2 "c"
    ∷ minutes_later 3 "d"
    ∷ minutes_later 4 "e"
    ∷ minutes_later 5 "f"
    ∷ []

guess :
    (n : ℕ) (p : String)
    → n ≤ 14
    → check_password (sample_manager sample_env) ada.password_hash p ≡ false
    → IsGuess "ada" "10.0.0.1" ada 1_700_000_000 (omega arith) (minutes_later n p)
guess n p h wrong = record {
  wrong = wrong;
  finds = refl;
  records = refl;
  counts = refl;
  within = record { from_start = omega arith; before_end = omega arith };
}

guessing_ends_example :
    (told "ada" "10.0.0.1" six_guesses server < 5)
    ⊎ ((told "ada" "10.0.0.1" six_guesses server ≡ 5)
        × (login
              (minutes_later 6 "").manager
              "ada"
              "right"
              "10.0.0.1"
              (guess_all "ada" "10.0.0.1" six_guesses server)
            ≡ (err locked_out, guess_all "ada" "10.0.0.1" six_guesses server)))
unfolding first
guessing_ends_example =
    guessing_ends "ada" "10.0.0.1" ada 1_700_000_000 (omega arith) six_guesses
      (minutes_later 6 "").manager "right" server refl
      (
        guess 0 "a" (omega arith) refl,
        (
          guess 1 "b" (omega arith) refl,
          (
            guess 2 "c" (omega arith) refl,
            (
              guess 3 "d" (omega arith) refl,
              (guess 4 "e" (omega arith) refl, (guess 5 "f" (omega arith) refl, tt)),
            ),
          ),
        ),
      )
      refl (record { from_start = omega arith; before_end = omega arith })

login-IsAdmitted_example :
    (u : User) × IsAdmitted (sample_manager later) "root" "right" "10.0.0.1" server u
unfolding count_recent_failures count_rows count_recent_failures_from_ip
    count_recent_failures_for_user first any hex_encode locked_out? is_locked_out login login_user
    login_as start_session complete_login open_session new_session_id mint create_session
    record_login_attempt get_user_by_username
login-IsAdmitted_example =
    login-IsAdmitted (sample_manager later) "root" "right" "10.0.0.1" server refl

consume_backup_code-IsUsedUp_example :
    IsUsedUp
      (sample_manager sample_env)
      ada
      (trim_space " ABCDE-FGHJK ")
      (consume_backup_code (sample_manager sample_env) ada " ABCDE-FGHJK " server).1
unfolding first consume_backup_code spend_code trim_space set_totp_backup_codes
consume_backup_code-IsUsedUp_example =
    consume_backup_code-IsUsedUp (sample_manager sample_env) ada " ABCDE-FGHJK " server refl refl
      refl

-- golang-jwt, at these two requests.
noon-claims : (c : Claims) → is_noon c ≡ true → c ≡ noon_claims
noon-claims c h =
    let name : c.username ≡ "ada" = (eq_iff c.username "ada").0 (ground arith) in
    let role : c.role ≡ "user" = (eq_iff c.role "user").0 (ground arith) in
    let sid : c.session_id ≡ "0a0b" = (eq_iff c.session_id "0a0b").0 (ground arith) in
    let iss : c.issuer ≡ "aegis" = (eq_iff c.issuer "aegis").0 (ground arith) in
    let imp : c.impersonator ≡ 1 = ground arith in
    let sub : c.subject ≡ 7 = ground arith in
    let iat : c.issued_at ≡ 1700000000 = ground arith in
    let exp : c.expires_at ≡ 1700003600 = ground arith in
    λ i. record {
      username = name i;
      role = role i;
      impersonator = imp i;
      session_id = sid i;
      subject = sub i;
      issued_at = iat i;
      expires_at = exp i;
      issuer = iss i;
    }

abbrev parsed : ℕ → Option String → Option Claims
parsed now none = none
parsed now (some t) = parse_sample now t

sample-Parses : Parses (sample_manager sample_env) (sample_manager later)
sample-Parses c t signed issued fresh = elim (Bool-cases (is_noon c)) [
  | inl yes' ↦
      let s : some "noon" ≡ some t = rw yes' at signed in
      ap (parsed later.now) (sym s) ∙ ap some (sym (noon-claims c yes'))
  | inr no' ↦ cc (rw no' at signed)
]

-- The database while `root` acts as `ada`.
abbrev noon_session : Session
noon_session = record {
  id = "0a0b";
  user_id = 7;
  expires_at = 1_700_003_600;
  created_at = 1_700_000_000;
}

abbrev while_acting : Db
while_acting = record server { sessions = noon_session ∷ [] }

verify-open_session_example :
    (c : Claims) × (verify (sample_manager later) "noon" while_acting ≡ (ok (c, ada), while_acting))
    × (c.impersonator ≡ 1)
    × (c.role ≡ ada.role)
unfolding first any hex_encode open_session new_session_id mint create_session
verify-open_session_example =
    verify-open_session (sample_manager sample_env) (sample_manager later) ada 1 server refl
      sample-Parses (omega arith) refl refl refl refl

verify-logout_example :
    verify (sample_manager later) "noon" (logout (sample_manager sample_env) "noon" while_acting).1
    ≡ (err invalid_token, (logout (sample_manager sample_env) "noon" while_acting).1)
verify-logout_example =
    verify-logout (sample_manager sample_env) (sample_manager later) "noon" noon_claims while_acting
      refl refl refl

impersonate-IsImpersonation_example :
    IsImpersonation (sample_manager sample_env) 1 7 server "noon" while_acting
unfolding first any hex_encode open_session new_session_id mint create_session impersonate
    get_user_by_id
impersonate-IsImpersonation_example =
    impersonate-IsImpersonation (sample_manager sample_env) 1 7 server refl

unimpersonate-impersonate_example :
    (admin : User) × (target : User) × (o : IsOpened
      (sample_manager sample_env)
      target
      1
      server
      "noon"
      while_acting)
    × (first (has_id 1) server.users ≡ some admin)
    × IsOpened
        (sample_manager later)
        admin
        0
        (delete_session later o.sid while_acting).1
        "other"
        (unimpersonate (sample_manager later) "noon" while_acting).1
unfolding first any hex_encode open_session new_session_id mint create_session impersonate
    get_user_by_id unimpersonate delete_session keep
unimpersonate-impersonate_example =
    unimpersonate-impersonate (sample_manager sample_env) 1 7 server (sample_manager later) refl
      sample-Parses (omega arith) (omega arith) refl

-- An account with a second factor, and its challenge.
abbrev eve : User
eve = record ada { id = 9; username = "eve"; totp_secret = "SECRET"; totp_enabled = true }

abbrev challenged : Db
challenged = record server {
  users = eve ∷ [];
  totp_challenges =
      record { id = "c1"; user_id = 9; expires_at = 1_700_000_300; created_at = 1_700_000_000 }
      ∷ [];
}

verify_totp_login-IsVerified_example :
    (u : User) × IsVerified (sample_manager later) "c1" "ABCDE-FGHJK" "10.0.0.1" challenged u
unfolding count_recent_failures count_rows count_recent_failures_from_ip
    count_recent_failures_for_user first any hex_encode locked_out? is_locked_out verify_totp_login
    verify_code get_totp_challenge_user delete_totp_challenge complete_login open_session
    new_session_id mint create_session record_login_attempt get_user_by_id validate_totp_code
    consume_backup_code spend_code trim_space set_totp_backup_codes
verify_totp_login-IsVerified_example =
    verify_totp_login-IsVerified (sample_manager later) "c1" "ABCDE-FGHJK" "10.0.0.1" challenged
      refl
