-- ===== src/Auth/Lockout/Limits.antt =====
-- When a login is refused because of recent failures.
use aegis_hosting_control_pa.Base.{
  le→leb, ℕ, ◌-◌, ◌≤◌, ◌≤◌, String, Bool, true, false, ◌≡◌, refl, not, ◌&&◌, ◌||◌, leb, ltb, inl,
  inr, if◌then◌else◌, arith, count_rows, Bool-cases,
}
use aegis_hosting_control_pa.Env.{Env, Op}
use aegis_hosting_control_pa.Store.Schema.{Db}
use aegis_hosting_control_pa.Store.Result.{Result, ok, M, query}
use aegis_hosting_control_pa.Store.Sessions.{
  count_recent_failures, count_recent_failures_from_ip, count_recent_failures_for_user,
  has_recent_success, is_failure, is_failure_for_user, is_failure_from_ip, is_success,
}
use aegis_hosting_control_pa.Auth.Lockout.{
  locked_out?, if_reached, unless_known, lockout_window, known_address_window, lockout_threshold,
  user_lockout_threshold, ip_lockout_threshold,
}

module _ (e : Env) (username ip : String) (db : Db) where
  abbrev pub failures : ℕ
  failures = count_rows (is_failure username ip (e.now - lockout_window)) db.login_attempts

  abbrev pub failures_of_user : ℕ
  failures_of_user =
      count_rows (is_failure_for_user username (e.now - lockout_window)) db.login_attempts

  abbrev pub failures_from_ip : ℕ
  failures_from_ip = count_rows (is_failure_from_ip ip (e.now - lockout_window)) db.login_attempts

  abbrev pub successes : ℕ
  successes = count_rows (is_success username ip (e.now - known_address_window)) db.login_attempts

  -- The three limits, where the count of one that fails is not reached.
  unfoldable pub is_locked_out : Bool
  is_locked_out =
      (not (e.fault Op.count_recent_failures) && leb lockout_threshold failures)
      || (not (e.fault Op.count_recent_failures_from_ip)
          && leb ip_lockout_threshold failures_from_ip)
      || (not (e.fault Op.count_recent_failures_for_user)
          && leb user_lockout_threshold failures_of_user
          && not (not (e.fault Op.has_recent_success) && ltb 0 successes))

if_reached-query :
    (e : Env) (op : Op) (count : Db → ℕ) (limit : ℕ) (m n : M Bool) (db : Db)
    → if_reached (query e op count) limit m n db
      ≡ (if not (e.fault op) && leb limit (count db) then m db else n db)
if_reached-query e op count limit m n db = ground arith

unless_known-query :
    (e : Env) (username ip : String) (db : Db)
    → unless_known e username ip db
      ≡ (ok (not (not (e.fault Op.has_recent_success) && ltb 0 (successes e username ip db))), db)
unfolding unless_known has_recent_success
unless_known-query e username ip db = elim (Bool-cases (e.fault Op.has_recent_success)) [
  | inl failed ↦ rw failed
  | inr works ↦ rw works
]

decide :
    (a b c d : Bool) (db : Db)
    → ◌≡◌ {A = Result Bool × Db}
        (if a
          then (ok true, db)
          else if b
          then (ok true, db)
          else if c
          then (ok d, db)
          else (ok false, db))
        (ok (a || b || c && d), db)
decide true b c d db = refl
decide false true c d db = refl
decide false false true d db = refl
decide false false false d db = refl

-- The decision of `lockedOut` is that of the three limits, and it writes nothing.
pub locked_out?-limits :
    (e : Env) (username ip : String) (db : Db)
    → locked_out? e username ip db ≡ (ok (is_locked_out e username ip db), db)
unfolding locked_out? is_locked_out count_recent_failures count_recent_failures_from_ip
    count_recent_failures_for_user
locked_out?-limits e username ip db =
    rw (if_reached-query, if_reached-query, if_reached-query, unless_known-query, decide)

pub is_locked_out_of_failures :
    (e : Env) (username ip : String) (db : Db)
    → e.fault Op.count_recent_failures ≡ false
    → lockout_threshold ≤ failures e username ip db
    → is_locked_out e username ip db ≡ true
unfolding is_locked_out
is_locked_out_of_failures e username ip db works h = rw (works, le→leb _ _ h)
