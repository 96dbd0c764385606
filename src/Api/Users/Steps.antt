-- ===== src/Api/Users/Steps.antt =====
-- What the writes of the account handlers of internal/api/handlers_users.go do to the accounts.
use aegis_hosting_control_pa.Base.{
  ℕ, String, Bool, true, false, some, List, same, of_if, Option-cases, inl, inr, first, update_rows,
  ◌≡◌, ◌∙◌, refl, sym, ap, arith,
}
use mathlib.Core.Path.{subst}
use aegis_hosting_control_pa.Base.Rows.{first-update_rows, first-passes}
use aegis_hosting_control_pa.Env.{Env, Op}
use aegis_hosting_control_pa.Store.Schema.{User, Db, role_admin, status_active, status_suspended}
use aegis_hosting_control_pa.Store.Result.{Result, ok, err}
use aegis_hosting_control_pa.Store.Users.{
  has_id, get_user_by_id, set_user_status, set_suspended_by_quota, set_user_password,
}
use aegis_hosting_control_pa.Suspension.Host.{Host, Warning}
use aegis_hosting_control_pa.Suspension.Suspender.{State, start, after_status, suspend, unsuspend}
use aegis_hosting_control_pa.Suspension.Frames.{enforce-users, lift-users}
use aegis_hosting_control_pa.Api.Access.{can_manage_user}
use aegis_hosting_control_pa.Api.Users.Scope.{
  IsWithin, IsWithin-refl, IsWithin-trans, update-IsWithin,
}

-- The right to manage depends on the id and the owner.
can_manage-same :
    (actor v w : User)
    → w.id ≡ v.id
    → w.owner_id ≡ v.owner_id
    → can_manage_user actor v ≡ true
    → can_manage_user actor w ≡ true
unfolding can_manage_user
can_manage-same actor v w h k may = ground arith

-- The caller has stayed within its scope, and manages the account with this id.
pub record Reaches (actor : User) (us : List User) (id : ℕ) (us' : List User) : Type 0 where
  pub within : IsWithin actor us us'
  pub row : User
  pub found : first (has_id id) us' ≡ some row
  pub may : can_manage_user actor row ≡ true

-- A found account is one that is looked up by its own id.
pub found-Reaches :
    (actor : User) (e : Env) (id : ℕ) (db : Db) (u : User)
    → (get_user_by_id e id db).0 ≡ ok u
    → can_manage_user actor u ≡ true
    → (r : Reaches actor db.users u.id db.users) × (r.row ≡ u)
unfolding get_user_by_id
found-Reaches actor e id db u h may = elim (Option-cases (first (has_id id) db.users)) [
  | inl nothing ↦ absurd (ground arith)
  | inr (v, found) ↦
      let listed : first (has_id id) db.users ≡ some u = ground arith in
      let own_id : u.id ≡ id = ground (arith, first-passes (has_id id) db.users u listed) in
      (
        record {
          within = IsWithin-refl actor db.users;
          row = u;
          found = ap (λ i. first (has_id i) db.users) own_id ∙ listed;
          may = may;
        },
        refl,
      )
]

module _ (actor : User) (us : List User) (id : ℕ) (us' : List User)
    (reaches : Reaches actor us id us') (f : User → User) (keeps : (y : User) → (f y).id ≡ y.id)
    (owner : (y : User) → (f y).owner_id ≡ y.owner_id)
    (role : same actor.role role_admin ≡ false
      → same (f reaches.row).role role_admin ≡ true
      → same reaches.row.role role_admin ≡ true) where
  row_id : reaches.row.id ≡ id
  row_id = ground (arith, first-passes (has_id id) us' reaches.row reaches.found)

  pub update-Reaches : Reaches actor us id (update_rows (has_id id) f us')
  update-Reaches = record {
    within = IsWithin-trans actor us us' _ reaches.within (
        subst (λ i. IsWithin actor us' (update_rows (has_id i) f us')) row_id
          (update-IsWithin actor us' reaches.row f
            (ap (λ i. first (has_id i) us') row_id ∙ reaches.found) reaches.may keeps role));
    row = f reaches.row;
    found =
        first-update_rows (has_id id) f us' reaches.row (λ y. ground (arith, keeps y))
          reaches.found;
    may = can_manage-same actor reaches.row (f reaches.row) (keeps _) (owner _) reaches.may;
  }

module _ (actor : User) (us : List User) (e : Env) where
  -- A write of a column that no right depends on.
  module _ (id : ℕ) (db : Db) (reaches : Reaches actor us id db.users) where
    pub status-Reaches :
        (status : String) → Reaches actor us id (set_user_status e id status db).1.users
    unfolding set_user_status
    status-Reaches status =
        of_if {A = Result (Unit {0}) × Db} (λ r. Reaches actor us id r.1.users)
          (e.fault Op.set_user_status) _ _ reaches
          (update-Reaches actor us id db.users reaches _ (λ _. refl) (λ _. refl) (λ n h. h))

    pub flag-Reaches : (b : Bool) → Reaches actor us id (set_suspended_by_quota e id b db).1.users
    unfolding set_suspended_by_quota
    flag-Reaches b =
        of_if {A = Result (Unit {0}) × Db} (λ r. Reaches actor us id r.1.users)
          (e.fault Op.set_suspended_by_quota) _ _ reaches
          (update-Reaches actor us id db.users reaches _ (λ _. refl) (λ _. refl) (λ n h. h))

    pub password-Reaches :
        (hash : String) → Reaches actor us id (set_user_password e id hash db).1.users
    unfolding set_user_password
    password-Reaches hash =
        of_if {A = Result (Unit {0}) × Db} (λ r. Reaches actor us id r.1.users)
          (e.fault Op.set_user_password) _ _ reaches
          (update-Reaches actor us id db.users reaches _ (λ _. refl) (λ _. refl) (λ n h. h))

  -- The suspender writes the two columns of the account, and no other account.
  after_status-Reaches :
      (u : User) (r : Result (Unit {0})) (db : Db) (next : Db → List Warning × State) (s : State)
      → Reaches actor us u.id db.users
      → ((db' : Db) → (next db').1.db.users ≡ db'.users)
      → Reaches actor us u.id (after_status e u r db next s).1.db.users
  after_status-Reaches u (err _) db next s reaches same_users = reaches
  after_status-Reaches u (ok _) db next s reaches same_users =
      subst (Reaches actor us u.id) (sym (same_users (set_suspended_by_quota e u.id false db).1))
        (flag-Reaches u.id db reaches false)

  module _ (h : Host) (u : User) (s : State) (reaches : Reaches actor us u.id s.db.users) where
    pub suspend-Reaches : Reaches actor us u.id (suspend h e u s).1.db.users
    unfolding suspend
    suspend-Reaches =
        after_status-Reaches u _ _ _ s (status-Reaches u.id s.db reaches status_suspended)
          (λ db'. enforce-users e (record u { status = status_suspended }) h (start db' s.calls))

    pub unsuspend-Reaches : Reaches actor us u.id (unsuspend h e u s).1.db.users
    unfolding unsuspend
    unsuspend-Reaches =
        after_status-Reaches u _ _ _ s (status-Reaches u.id s.db reaches status_active)
          (λ db'. lift-users e (record u { status = status_active }) h (start db' s.calls))
