-- ===== src/Suspension/Quota.antt =====
-- `Enforce` of internal/svc/quota.go: suspending the accounts that are over their disk quota, and
-- lifting only such suspensions. `usage` is what `du -sb` reports for an account, `none` an error.
pub mod Verdict
use aegis_hosting_control_pa.Base.{
  ℕ, Bool, true, false, Option, none, some, List, [], ◌∷◌, ◌&&◌, not, leb, ltb, same, if◌then◌else◌,
}
use aegis_hosting_control_pa.Env.{Env}
use aegis_hosting_control_pa.Store.Schema.{User, Db, role_admin, status_active, status_suspended}
use aegis_hosting_control_pa.Store.Result.{Result, ok, err}
use aegis_hosting_control_pa.Store.Users.{
  set_user_status, set_suspended_by_quota, list_users, is_suspended_by_quota,
}
use aegis_hosting_control_pa.Suspension.Suspender.{or_false}

-- Both writes of one decision; their errors are dropped.
unfoldable pub set_quota_suspension : Env → ℕ → Bool → Db → Db
set_quota_suspension e id suspend db =
    let db1 = (set_user_status e id (if suspend then status_suspended else status_active) db).1 in
    (set_suspended_by_quota e id suspend db1).1

-- The end of the loop body, with the account's usage.
unfoldable pub enforce_usage : Env → User → Bool → Option ℕ → Db → Db
enforce_usage e u by_quota none db = db
enforce_usage e u by_quota (some used) db =
    let over = ltb u.quota_disk_bytes used in
    if over && same u.status status_active
    then set_quota_suspension e u.id true db
    else if not over && by_quota
    then set_quota_suspension e u.id false db
    else db

unfoldable pub enforce_user : Env → (User → Option ℕ) → User → Db → Db
enforce_user e usage u db =
    let by_quota = or_false (is_suspended_by_quota e u.id db).0 in
    if same u.role role_admin
    then db
    else if same u.status status_suspended && not by_quota
    then db
    else if leb u.quota_disk_bytes 0
    then (if by_quota then set_quota_suspension e u.id false db else db)
    else enforce_usage e u by_quota (usage u) db

unfoldable pub enforce_all : Env → (User → Option ℕ) → List User → Db → Db
enforce_all e usage [] db = db
enforce_all e usage (u ∷ users) db = enforce_all e usage users (enforce_user e usage u db)

abbrev enforce_listed : Env → (User → Option ℕ) → Result (List User) → Db → Db
enforce_listed e usage (err _) db = db
enforce_listed e usage (ok users) db = enforce_all e usage users db

unfoldable pub enforce_quota : Env → (User → Option ℕ) → Db → Db
enforce_quota e usage db = enforce_listed e usage (list_users e 0 db).0 db
