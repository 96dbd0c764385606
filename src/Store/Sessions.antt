-- ===== src/Store/Sessions.antt =====
-- internal/store/store.go: the sessions, the challenges between the two steps of a login, the audit
-- log; internal/store/loginattempts.go.
use aegis_hosting_control_pa.Base.{
  ℕ, ◌*◌, String, Bool, Option, none, some, [], ◌∷◌, ◌++◌, ◌&&◌, ◌||◌, not, ltb, ◌==◌, same,
  if◌then◌else◌, first, any, drop_rows, count_rows,
}
use aegis_hosting_control_pa.Env.{Env, Op}
use aegis_hosting_control_pa.Store.Schema.{Session, LoginAttempt, AuditEntry}
use aegis_hosting_control_pa.Store.Result.{
  Result, ok, err, not_found, database, M, exec, query, query_row,
}
use aegis_hosting_control_pa.Store.Users.{seconds}

abbrev pub has_session_id : String → Session → Bool
has_session_id id s = same s.id id

-- `t.Before(time.Now())`: the column holds whole seconds, the clock nanoseconds.
abbrev pub is_expired : Env → Session → Bool
is_expired e s = ltb (s.expires_at * 1_000_000_000) e.now

-- A row that is missing or expired is `ErrNotFound`.
abbrev pub live_user : Env → Option Session → Result ℕ
live_user e none = err not_found
live_user e (some s) = if is_expired e s then err not_found else ok s.user_id

abbrev pub new_session : Env → String → ℕ → ℕ → Session
new_session e id user_id expires_at = record {
  id = id;
  user_id = user_id;
  expires_at = seconds expires_at;
  created_at = seconds e.now;
}

-- `id` is the primary key: a second row with it is refused.
unfoldable pub create_session : Env → String → ℕ → ℕ → M (Unit {0})
create_session e id user_id expires_at db =
    if e.fault Op.create_session || any (has_session_id id) db.sessions
    then (err database, db)
    else (ok tt, record db { sessions = db.sessions ++ new_session e id user_id expires_at ∷ [] })

unfoldable pub get_session_user : Env → String → M ℕ
get_session_user e id =
    query_row e Op.get_session_user (λ db. live_user e (first (has_session_id id) db.sessions))

unfoldable pub delete_session : Env → String → M (Unit {0})
delete_session e id =
    exec e Op.delete_session
      (λ db. record db { sessions = drop_rows (has_session_id id) db.sessions })

unfoldable pub delete_user_sessions : Env → ℕ → M (Unit {0})
delete_user_sessions e user_id =
    exec e Op.delete_user_sessions
      (λ db. record db { sessions = drop_rows (λ s. s.user_id == user_id) db.sessions })

unfoldable pub create_totp_challenge : Env → String → ℕ → ℕ → M (Unit {0})
create_totp_challenge e id user_id expires_at db =
    if e.fault Op.create_totp_challenge || any (has_session_id id) db.totp_challenges
    then (err database, db)
    else (
      ok tt,
      record db {
        totp_challenges = db.totp_challenges ++ new_session e id user_id expires_at ∷ [];
      },
    )

unfoldable pub get_totp_challenge_user : Env → String → M ℕ
get_totp_challenge_user e id =
    query_row e Op.get_totp_challenge_user
      (λ db. live_user e (first (has_session_id id) db.totp_challenges))

unfoldable pub delete_totp_challenge : Env → String → M (Unit {0})
delete_totp_challenge e id =
    exec e Op.delete_totp_challenge
      (λ db. record db { totp_challenges = drop_rows (has_session_id id) db.totp_challenges })

unfoldable pub record_login_attempt : Env → String → String → Bool → M (Unit {0})
record_login_attempt e username ip success = exec e Op.record_login_attempt λ db.
    let row : LoginAttempt = record {
      username = username;
      ip = ip;
      success = success;
      created_at = seconds e.now;
    } in
    record db { login_attempts = db.login_attempts ++ row ∷ [] }

-- `username = ? AND ip = ? AND success = 0 AND created_at > ?`, where `since` is formatted to seconds.
abbrev pub is_failure : String → String → ℕ → LoginAttempt → Bool
is_failure username ip since a =
    same a.username username && same a.ip ip && not a.success && ltb (seconds since) a.created_at

abbrev pub is_failure_for_user : String → ℕ → LoginAttempt → Bool
is_failure_for_user username since a =
    same a.username username && not a.success && ltb (seconds since) a.created_at

abbrev pub is_failure_from_ip : String → ℕ → LoginAttempt → Bool
is_failure_from_ip ip since a = same a.ip ip && not a.success && ltb (seconds since) a.created_at

abbrev pub is_success : String → String → ℕ → LoginAttempt → Bool
is_success username ip since a =
    same a.username username && same a.ip ip && a.success && ltb (seconds since) a.created_at

unfoldable pub count_recent_failures : Env → String → String → ℕ → M ℕ
count_recent_failures e username ip since =
    query e Op.count_recent_failures
      (λ db. count_rows (is_failure username ip since) db.login_attempts)

unfoldable pub count_recent_failures_for_user : Env → String → ℕ → M ℕ
count_recent_failures_for_user e username since =
    query e Op.count_recent_failures_for_user
      (λ db. count_rows (is_failure_for_user username since) db.login_attempts)

unfoldable pub count_recent_failures_from_ip : Env → String → ℕ → M ℕ
count_recent_failures_from_ip e ip since =
    query e Op.count_recent_failures_from_ip
      (λ db. count_rows (is_failure_from_ip ip since) db.login_attempts)

unfoldable pub has_recent_success : Env → String → String → ℕ → M Bool
has_recent_success e username ip since =
    query e Op.has_recent_success
      (λ db. ltb 0 (count_rows (is_success username ip since) db.login_attempts))

unfoldable pub append_audit : Env → ℕ → String → String → String → String → M (Unit {0})
append_audit e actor_id actor_name action target ip = exec e Op.append_audit λ db.
    let row : AuditEntry = record {
      actor_id = actor_id;
      actor_name = actor_name;
      action = action;
      target = target;
      ip = ip;
    } in
    record db { audit_log = db.audit_log ++ row ∷ [] }
