-- ===== src/Suspension/Quota/Verdict.antt =====
-- What the quota loop does to one account.
use aegis_hosting_control_pa.Base.{
  ℕ, String, Bool, true, false, Option, none, some, ◌&&◌, ◌||◌, not, leb, ltb, same, if◌then◌else◌,
  first, ◌≡◌, refl, ◌∙◌, arith, ap,
}
use aegis_hosting_control_pa.Base.Rows.{first-update_rows}
use aegis_hosting_control_pa.Env.{Env, Op}
use aegis_hosting_control_pa.Store.Schema.{User, Db, role_admin, status_active, status_suspended}
use aegis_hosting_control_pa.Store.Users.{
  seconds, has_id, set_user_status, set_suspended_by_quota, is_suspended_by_quota,
}
use aegis_hosting_control_pa.Suspension.Suspender.{or_false}
use aegis_hosting_control_pa.Suspension.Quota.{set_quota_suspension, enforce_usage, enforce_user}

-- The account is over its quota, as far as its usage is known; 0 is no quota.
abbrev pub is_over : ℕ → Option ℕ → Bool
is_over quota none = false
is_over quota (some used) = ltb 0 quota && ltb quota used

abbrev pub is_within : ℕ → Option ℕ → Bool
is_within quota none = leb quota 0
is_within quota (some used) = leb quota 0 || leb used quota

-- The row that an account ought to have: an administrator and an account suspended by hand are left
-- alone, an active account over its quota is suspended by quota, and such a suspension ends when the
-- account is within its quota again.
unfoldable pub judged : Env → Option ℕ → User → User
judged e usage u =
    if same u.role role_admin || (same u.status status_suspended && not u.suspended_by_quota)
    then u
    else if is_over u.quota_disk_bytes usage && same u.status status_active
    then record u {
      status = status_suspended;
      updated_at = seconds e.now;
      suspended_by_quota = true;
    }
    else if is_within u.quota_disk_bytes usage && u.suspended_by_quota
    then record u { status = status_active; updated_at = seconds e.now; suspended_by_quota = false }
    else u

abbrev suspended_row : Env → User → User
suspended_row e u = record u {
  status = status_suspended;
  updated_at = seconds e.now;
  suspended_by_quota = true;
}

abbrev lifted_row : Env → User → User
lifted_row e u = record u {
  status = status_active;
  updated_at = seconds e.now;
  suspended_by_quota = false;
}

-- The row that the branches of the loop body lead to.
abbrev measured : Env → User → Option ℕ → User
measured e u none = u
measured e u (some used) =
    if ltb u.quota_disk_bytes used && same u.status status_active
    then suspended_row e u
    else if not (ltb u.quota_disk_bytes used) && u.suspended_by_quota
    then lifted_row e u
    else u

abbrev branched : Env → Option ℕ → User → User
branched e usage u =
    if same u.role role_admin
    then u
    else if same u.status status_suspended && not u.suspended_by_quota
    then u
    else if leb u.quota_disk_bytes 0
    then (if u.suspended_by_quota then lifted_row e u else u)
    else measured e u usage

branched-judged : (e : Env) (usage : Option ℕ) (u : User) → branched e usage u ≡ judged e usage u
unfolding judged
branched-judged e none u = ground arith
branched-judged e (some used) u = ground arith

-- What holds of both sides' branches holds of the sides.
of_both :
    (P : Db → User → Type 0) (b : Bool) (d d' : Db) (v v' : User)
    → P d v
    → P d' v'
    → P (if b then d else d') (if b then v else v')
of_both P true d d' v v' h h' = h
of_both P false d d' v v' h h' = h'

module _ (e : Env) (u : User) (db : Db) (known : first (has_id u.id) db.users ≡ some u)
    (reads : e.fault Op.is_suspended_by_quota ≡ false) (sets : e.fault Op.set_user_status ≡ false)
    (marks : e.fault Op.set_suspended_by_quota ≡ false) where
  abbrev HasRow : Db → User → Type 0
  HasRow db' v = first (has_id u.id) db'.users ≡ some v

  row-status :
      (status : String)
      → HasRow
          (set_user_status e u.id status db).1
          (record u { status = status; updated_at = seconds e.now })
  unfolding set_user_status
  row-status status = rw sets (
      first-update_rows (has_id u.id)
        (λ row. record row { status = status; updated_at = seconds e.now }) db.users u (λ y. refl)
        known)

  row-mark :
      (b : Bool) (db' : Db) (v : User)
      → HasRow db' v
      → HasRow (set_suspended_by_quota e u.id b db').1 (record v { suspended_by_quota = b })
  unfolding set_suspended_by_quota
  row-mark b db' v h = rw marks (
      first-update_rows (has_id u.id) (λ row. record row { suspended_by_quota = b }) db'.users v
        (λ y. refl) h)

  row-suspend : HasRow (set_quota_suspension e u.id true db) (suspended_row e u)
  unfolding set_quota_suspension
  row-suspend = row-mark true _ _ (row-status status_suspended)

  row-lift : HasRow (set_quota_suspension e u.id false db) (lifted_row e u)
  unfolding set_quota_suspension
  row-lift = row-mark false _ _ (row-status status_active)

  read-quota : or_false (is_suspended_by_quota e u.id db).0 ≡ u.suspended_by_quota
  unfolding is_suspended_by_quota
  read-quota = rw (reads, known)

  row-measured :
      (usage : Option ℕ)
      → HasRow (enforce_usage e u u.suspended_by_quota usage db) (measured e u usage)
  unfolding enforce_usage
  row-measured none = known
  row-measured (some used) =
      of_both HasRow (ltb u.quota_disk_bytes used && same u.status status_active) _ _ _ _
        row-suspend
        (of_both HasRow (not (ltb u.quota_disk_bytes used) && u.suspended_by_quota) _ _ _ _ row-lift
          known)

  row-branched :
      (usage : User → Option ℕ) → HasRow (enforce_user e usage u db) (branched e (usage u) u)
  unfolding enforce_user
  row-branched usage = rw read-quota (
      of_both HasRow (same u.role role_admin) _ _ _ _ known (
        of_both HasRow (same u.status status_suspended && not u.suspended_by_quota) _ _ _ _ known (
          of_both HasRow (leb u.quota_disk_bytes 0) _ _ _ _
            (of_both HasRow u.suspended_by_quota _ _ _ _ row-lift known) (row-measured (usage u)))))

  -- The loop body gives an account whose row it has read the row that it ought to have, whatever
  -- its usage is measured to be, if the three statements of the body work: an administrator and
  -- an account suspended by hand are left alone, an active account over its quota is suspended by
  -- quota, and such a suspension ends when the account is within its quota again.
  pub enforce_user-judged :
      (usage : User → Option ℕ)
      → first (has_id u.id) (enforce_user e usage u db).users ≡ some (judged e (usage u) u)
  enforce_user-judged usage = row-branched usage ∙ ap some (branched-judged e (usage u) u)
