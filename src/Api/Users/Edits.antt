-- ===== src/Api/Users/Edits.antt =====
-- What handleUsersUpdate of internal/api/handlers_users.go leaves of the accounts.
use mathlib.Core.Path.{subst}
use aegis_hosting_control_pa.Base.{
  ℕ, String, true, false, Option, none, some, List, not, same, of_if, of_test, first, ◌≡◌, ◌∙◌,
  refl, sym, ap, arith,
}
use aegis_hosting_control_pa.Env.{Op}
use aegis_hosting_control_pa.Store.Schema.{User, Package, Db, role_admin}
use aegis_hosting_control_pa.Store.Result.{Result, ok, err}
use aegis_hosting_control_pa.Store.Users.{has_id, update_user}
use aegis_hosting_control_pa.Store.Sessions.{}
use aegis_hosting_control_pa.Suspension.Host.{Host, Warning}
use aegis_hosting_control_pa.Suspension.Suspender.{State}
use aegis_hosting_control_pa.Api.Access.{can_manage_user}
use aegis_hosting_control_pa.Store.Packages.{get_package}
use aegis_hosting_control_pa.Api.Users.{status_suspended, Caller, Panel, env, Reply}
use aegis_hosting_control_pa.Api.Users.Edit.{
  UpdateRequest, Checked, pass, deny, edit, set_email, set_role, set_package, move_to,
  status_change, ◌>>=◌, apply_edit, after_update, move_status, failed_or, update_managed,
}
use aegis_hosting_control_pa.Api.Users.Scope.{IsWithin, IsWithin-refl}
use aegis_hosting_control_pa.Api.Users.Steps.{
  Reaches, update-Reaches, suspend-Reaches, unsuspend-Reaches,
}
use aegis_hosting_control_pa.Api.Users.Effects.{audit-users, Ends}

module _ (p : Panel) (c : Caller) where
  -- What `handleUsersUpdate` writes is the same account, with its role unless an administrator asks.
  abbrev KeepsRole : User → User → Type 0
  KeepsRole u v = (v.id ≡ u.id) × (same c.actor.role role_admin ≡ false → v.role ≡ u.role)

  abbrev IsEdited : User → Checked (User × String) → Type 0
  IsEdited u (deny n) = Unit
  IsEdited u (pass (v, change)) = KeepsRole u v

  abbrev IsChecked : User → Checked User → Type 0
  IsChecked u (deny n) = Unit
  IsChecked u (pass v) = KeepsRole u v

  bind-IsEdited :
      (u : User) (m : Checked User) (f : User → Checked (User × String))
      → IsChecked u m
      → ((v : User) → KeepsRole u v → IsEdited u (f v))
      → IsEdited u (m >>= f)
  bind-IsEdited u (deny n) f m h = tt
  bind-IsEdited u (pass v) f m h = h v m

  role-IsChecked :
      (q : UpdateRequest) (u : User) (role : Option String)
      → IsChecked u (set_role c.actor role (set_email q.email u))
  role-IsChecked q u none = ground arith
  role-IsChecked q u (some role) =
      of_test {A = Checked User} (IsChecked u) (not (same c.actor.role role_admin)) _ _ (λ _. tt)
        (λ admin. ground arith)

  move-IsChecked :
      (u v : User) (id : ℕ) (r : Result Package) → KeepsRole u v → IsChecked u (move_to id r v)
  move-IsChecked u v id (err _) h = tt
  move-IsChecked u v id (ok k) h = h

  package-IsChecked :
      (u v : User) (id : Option ℕ) (db : Db)
      → KeepsRole u v
      → IsChecked u (set_package (env p) id db v)
  package-IsChecked u v none db h = h
  package-IsChecked u v (some id) db h = move-IsChecked u v id (get_package (env p) id db).0 h

  status-IsEdited :
      (u v : User) (m : Checked String)
      → KeepsRole u v
      → IsEdited u (m >>= λ change. pass (v, change))
  status-IsEdited u v (deny n) h = tt
  status-IsEdited u v (pass change) h = h

  edit-IsEdited : (q : UpdateRequest) (db : Db) (u : User) → IsEdited u (edit p c q db u)
  edit-IsEdited q db u = bind-IsEdited u _ _ (role-IsChecked q u q.role) (λ v h.
      bind-IsEdited u _ _ (package-IsChecked u v q.package_id db h)
        (λ w k. status-IsEdited u w (status_change c.actor q.status w) k))

  failed_or-Ends :
      {us : List User} (reply : Reply) (f : State → State) (r : Result (List Warning) × State)
      → IsWithin c.actor us r.1.db.users
      → ((s : State) → (f s).db.users ≡ s.db.users)
      → Ends p c us (failed_or reply f r)
  failed_or-Ends {us} reply f (err _, s) within keeps = within
  failed_or-Ends {us} reply f (ok _, s) within keeps =
      subst (IsWithin c.actor us) (sym (keeps s)) within

  move_status-Ends :
      {us : List User} (o : Option Host) (u : User) (change : String) (reply : User → Reply)
      (f : State → State) (s : State)
      → Reaches c.actor us u.id s.db.users
      → ((s' : State) → (f s').db.users ≡ s'.db.users)
      → Ends p c us (move_status p o u change reply f s)
  move_status-Ends {us} none u change reply f s reaches keeps =
      subst (IsWithin c.actor us) (sym (keeps s)) reaches.within
  move_status-Ends {us} (some h) u change reply f s reaches keeps =
      of_if {A = Reply × State} (Ends p c us) (same change "") _ _
        (subst (IsWithin c.actor us) (sym (keeps s)) reaches.within)
        (of_if {A = Reply × State} (Ends p c us) (same change status_suspended) _ _
          (failed_or-Ends _ f _ (suspend-Reaches c.actor us (env p) h u s reaches).within keeps)
          (failed_or-Ends _ f _ (unsuspend-Reaches c.actor us (env p) h u s reaches).within keeps))

  after_update-Ends :
      {us : List User} (u : User) (change : String) (r : Result (Unit {0})) (db : Db) (s : State)
      → Reaches c.actor us u.id db.users
      → Ends p c us (after_update p c u change (r, db) s)
  after_update-Ends u change (err _) db s reaches = reaches.within
  after_update-Ends u change (ok _) db s reaches =
      move_status-Ends p.suspender u change _ _ (record s { db = db }) reaches
        (λ s'. audit-users p c "user.update" u.username s')

  update_user-Reaches :
      {us : List User} (v : User) (db : Db) (reaches : Reaches c.actor us v.id db.users)
      → (same c.actor.role role_admin ≡ false → v.role ≡ reaches.row.role)
      → Reaches c.actor us v.id (update_user (env p) v db).1.users
  unfolding update_user
  update_user-Reaches {us} v db reaches role =
      of_if {A = Result (Unit {0}) × Db} (λ r. Reaches c.actor us v.id r.1.users)
        ((env p).fault Op.update_user) _ _ reaches
        (update-Reaches c.actor us v.id db.users reaches _ (λ _. refl) (λ _. refl)
          (λ n h. ap (λ x. same x role_admin) (sym (role n)) ∙ h))

  apply_edit-Ends :
      (u : User) (m : Checked (User × String)) (s : State)
      (reaches : Reaches c.actor s.db.users u.id s.db.users)
      → reaches.row ≡ u
      → IsEdited u m
      → Ends p c s.db.users (apply_edit p c m s)
  apply_edit-Ends u (deny n) s reaches same_row edited = IsWithin-refl c.actor s.db.users
  apply_edit-Ends u (pass (v, change)) s reaches same_row (same_id, role) =
      let us = s.db.users in
      let moved : Reaches c.actor us v.id us = record {
        within = reaches.within;
        row = u;
        found = ap (λ i. first (has_id i) us) same_id ∙ reaches.found ∙ ap some same_row;
        may = subst (λ w. can_manage_user c.actor w ≡ true) same_row reaches.may;
      } in
      after_update-Ends v change _ _ s (update_user-Reaches v s.db moved role)

  pub update_managed-Ends :
      (body : Option UpdateRequest) (u : User) (s : State)
      (reaches : Reaches c.actor s.db.users u.id s.db.users)
      → reaches.row ≡ u
      → Ends p c s.db.users (update_managed p c body u s)
  update_managed-Ends none u s reaches same_row = IsWithin-refl c.actor s.db.users
  update_managed-Ends (some q) u s reaches same_row =
      apply_edit-Ends u (edit p c q s.db u) s reaches same_row (edit-IsEdited q s.db u)
