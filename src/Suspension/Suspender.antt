-- ===== src/Suspension/Suspender.antt =====
-- `Suspend`, `Unsuspend` and `Reconcile` of internal/svc/suspend.go. The mutex makes each of them one
-- step, so the state is that between two calls.
pub mod Converges
pub mod Rounds
use aegis_hosting_control_pa.Base.{
  ℕ, Bool, true, false, List, [], ◌∷◌, ◌&&◌, not, ◌==◌, if◌then◌else◌,
}
use aegis_hosting_control_pa.Env.{Env}
use aegis_hosting_control_pa.Store.Schema.{User, Db, status_active, status_suspended}
use aegis_hosting_control_pa.Store.Result.{Result, ok, err}
use aegis_hosting_control_pa.Store.Users.{
  set_user_status, set_suspended_by_quota, list_users, is_manually_suspended,
}
use aegis_hosting_control_pa.Suspension.Host.{Host, Call, Warning, Out}
use aegis_hosting_control_pa.Suspension.Enforce.{enforce}
use aegis_hosting_control_pa.Suspension.Lift.{lift}

pub record State : Type 0 where
  pub db : Db
  pub calls : List Call
  -- `s.applied`: the accounts that this process has enforced
  pub applied : ℕ → Bool

abbrev pub mark : ℕ → Bool → (ℕ → Bool) → ℕ → Bool
mark id b applied k = if k == id then b else applied k

-- A report starts with no warnings.
abbrev pub report : (ℕ → Bool) → Db × Out → List Warning × State
report applied (db, out) = (out.warnings, record { db = db; calls = out.calls; applied = applied })

abbrev pub start : Db → List Call → Db × Out
start db calls = (db, record { calls = calls; warnings = [] })

-- The status is written first, and an error there stops; that of the second write is dropped.
abbrev pub after_status :
    Env
    → User
    → Result (Unit {0})
    → Db
    → (Db → List Warning × State)
    → State
    → Result (List Warning) × State
after_status e u (err error) db next s = (err error, record s { db = db })
after_status e u (ok _) db next s =
    let (warnings, s') = next (set_suspended_by_quota e u.id false db).1 in (ok warnings, s')

unfoldable pub suspend : Host → Env → User → State → Result (List Warning) × State
suspend h e u s =
    let (r, db) = set_user_status e u.id status_suspended s.db in
    after_status e u r db
      (λ db'.
        report (mark u.id true s.applied)
          (enforce h e (record u { status = status_suspended }) (start db' s.calls)))
      s

unfoldable pub unsuspend : Host → Env → User → State → Result (List Warning) × State
unsuspend h e u s =
    let (r, db) = set_user_status e u.id status_active s.db in
    after_status e u r db
      (λ db'.
        report (mark u.id false s.applied)
          (lift h e (record u { status = status_active }) (start db' s.calls)))
      s

-- `suspended, _ := IsManuallySuspended(…)`: false where the query fails.
abbrev pub or_false : Result Bool → Bool
or_false (ok b) = b
or_false (err _) = false

unfoldable pub reconcile_user : Host → Env → User → State → State
reconcile_user h e u s =
    let suspended = or_false (is_manually_suspended e u.id s.db).0 in
    if suspended && not (s.applied u.id)
    then (report (mark u.id true s.applied) (enforce h e u (start s.db s.calls))).1
    else if not suspended && s.applied u.id
    then (report (mark u.id false s.applied) (lift h e u (start s.db s.calls))).1
    else s

unfoldable pub reconcile_all : Host → Env → List User → State → State
reconcile_all h e [] s = s
reconcile_all h e (u ∷ users) s = reconcile_all h e users (reconcile_user h e u s)

abbrev reconcile_listed : Host → Env → Result (List User) → State → State
reconcile_listed h e (err _) s = s
reconcile_listed h e (ok users) s = reconcile_all h e users s

unfoldable pub reconcile : Host → Env → State → State
reconcile h e s = reconcile_listed h e (list_users e 0 s.db).0 s
