-- ===== src/Api/Users/Effects.antt =====
-- What the handlers handleUsersSuspend and handleUsersResetPassword of
-- internal/api/handlers_users.go, and the start that they share, leave of the accounts.
use mathlib.Core.Path.{subst}
use aegis_hosting_control_pa.Base.{
  ℕ, String, Bool, true, Option, none, some, List, ◌==◌, ltb, append, of_if, of_test, ◌≡◌, ◌∙◌,
  refl, sym, arith,
}
use aegis_hosting_control_pa.Store.Schema.{User, Db}
use aegis_hosting_control_pa.Store.Result.{Result, ok, err}
use aegis_hosting_control_pa.Store.Users.{get_user_by_id}
use aegis_hosting_control_pa.Store.Sessions.{
  record_login_attempt, append_audit, delete_user_sessions,
}
use aegis_hosting_control_pa.Auth.Login.{confirm_password}
use aegis_hosting_control_pa.Auth.Lockout.Limits.{locked_out?-limits}
use aegis_hosting_control_pa.Suspension.Host.{Host, Warning}
use aegis_hosting_control_pa.Suspension.Suspender.{State, suspend, unsuspend}
use aegis_hosting_control_pa.Suspension.Frames.{sessions-users}
use aegis_hosting_control_pa.Api.Access.{can_manage_user}
use aegis_hosting_control_pa.Api.Users.{Caller, Panel, env, Reply, managed, when_managed, audit}
use aegis_hosting_control_pa.Api.Users.Names.{byte_length}
use aegis_hosting_control_pa.Api.Users.Edit.{
  ResetRequest, reset_managed, store_password, after_reset, if_confirmed, suspend_managed,
  after_suspend,
}
use aegis_hosting_control_pa.Api.Users.Scope.{IsWithin, IsWithin-refl}
use aegis_hosting_control_pa.Api.Users.Steps.{
  Reaches, found-Reaches, password-Reaches, suspend-Reaches, unsuspend-Reaches,
}

pub audit-users :
    (p : Panel) (c : Caller) (action target : String) (s : State)
    → (audit p c action target s).db.users ≡ s.db.users
unfolding append_audit
audit-users p c action target s = ground arith

module _ (p : Panel) (c : Caller) where
  -- What a reply leaves of the accounts us.
  abbrev pub Ends : List User → Reply × State → Type 0
  Ends us r = IsWithin c.actor us r.1.db.users

  -- The common start of the handlers.
  when_managed-Ends :
      (s : State) (r : Result User) (next : User → State → Reply × State)
      → ((u : User) → r ≡ ok u → can_manage_user c.actor u ≡ true → Ends s.db.users (next u s))
      → Ends s.db.users (when_managed c.actor r next s)
  when_managed-Ends s (err _) next h = IsWithin-refl c.actor s.db.users
  when_managed-Ends s (ok u) next h =
      of_test {A = Reply × State} (Ends s.db.users) (can_manage_user c.actor u) _ _ (h u refl)
        (λ _. IsWithin-refl c.actor s.db.users)

  pub managed-Ends :
      (id : Option ℕ) (next : User → State → Reply × State) (s : State)
      → ((u : User) (reaches : Reaches c.actor s.db.users u.id s.db.users)
          → reaches.row ≡ u
          → Ends s.db.users (next u s))
      → Ends s.db.users (managed p c id next s)
  managed-Ends none next s h = IsWithin-refl c.actor s.db.users
  managed-Ends (some id) next s h =
      when_managed-Ends s (get_user_by_id (env p) id s.db).0 next (λ u found may.
        let (reaches, same_row) = found-Reaches c.actor (env p) id s.db u found may in
        h u reaches same_row)

  after-Ends :
      {us : List User} (u : User) (status : String) (r : Result (List Warning) × State)
      → IsWithin c.actor us r.1.db.users
      → Ends us (after_suspend p c u status r)
  after-Ends {us} u status (err _, s) within = within
  after-Ends {us} u status (ok warnings, s) within =
      subst (IsWithin c.actor us) (sym (audit-users p c (append "user." status) u.username s))
        within

  pub suspend_managed-Ends :
      (lifts : Bool) (o : Option Host) (u : User) (s : State)
      → Reaches c.actor s.db.users u.id s.db.users
      → Ends s.db.users (suspend_managed p c lifts o u s)
  suspend_managed-Ends lifts none u s reaches = IsWithin-refl c.actor s.db.users
  suspend_managed-Ends lifts (some h) u s reaches =
      of_if {A = Reply × State} (Ends s.db.users) lifts _ _
        (after-Ends u _ (unsuspend h (env p) u s)
          (unsuspend-Reaches c.actor s.db.users (env p) h u s reaches).within)
        (of_if {A = Reply × State} (Ends s.db.users) (u.id == c.actor.id) _ _
          (IsWithin-refl c.actor s.db.users)
          (after-Ends u _ (suspend h (env p) u s)
            (suspend-Reaches c.actor s.db.users (env p) h u s reaches).within))

  -- Confirming a password writes no account.
  confirm-users :
      (u : User) (password ip : String) (db : Db)
      → (confirm_password p.manager u password ip db).1.users ≡ db.users
  unfolding confirm_password record_login_attempt
  confirm-users u password ip db = rw (locked_out?-limits (env p) u.username ip db) (ground arith)

  after_reset-Ends :
      {us : List User} (u : User) (r : Result (Unit {0})) (db : Db) (s : State)
      → IsWithin c.actor us db.users
      → Ends us (after_reset p c u (r, db) s)
  after_reset-Ends {us} u (err _) db s within = within
  after_reset-Ends {us} u (ok _) db s within =
      subst (IsWithin c.actor us)
        (sym (
          audit-users p c "user.reset-password" u.username
            (record s { db = (delete_user_sessions (env p) u.id db).1 })
          ∙ sessions-users (env p) u.id db))
        within

  store_password-Ends :
      {us : List User} (u : User) (hash : Option String) (s : State)
      → Reaches c.actor us u.id s.db.users
      → Ends us (store_password p c u hash s)
  store_password-Ends {us} u none s reaches = reaches.within
  store_password-Ends {us} u (some hash) s reaches =
      after_reset-Ends u _ _ s (password-Reaches c.actor us (env p) u.id s.db reaches hash).within

  if_confirmed-Ends :
      {us : List User} (r : Result (Unit {0})) (db : Db) (next : State → Reply × State) (s : State)
      → IsWithin c.actor us db.users
      → Ends us (next (record s { db = db }))
      → Ends us (if_confirmed (r, db) next s)
  if_confirmed-Ends (err _) db next s within then' = within
  if_confirmed-Ends (ok _) db next s within then' = then'

  pub reset_managed-Ends :
      (body : Option ResetRequest) (u : User) (s : State)
      → Reaches c.actor s.db.users u.id s.db.users
      → Ends s.db.users (reset_managed p c body u s)
  reset_managed-Ends none u s reaches = IsWithin-refl c.actor s.db.users
  reset_managed-Ends (some q) u s reaches =
      let us = s.db.users in
      let hash = (env p).bcrypt_hash q.password in
      let db' = (confirm_password p.manager u q.current_password c.ip s.db).1 in
      let same_users = confirm-users u q.current_password c.ip s.db in
      of_if {A = Reply × State} (Ends us) (ltb (byte_length q.password) 8) _ _
        (IsWithin-refl c.actor us)
        (of_if {A = Reply × State} (Ends us) (c.actor.id == u.id) _ _
          (if_confirmed-Ends _ db' (store_password p c u hash) s
            (subst (IsWithin c.actor us) (sym same_users) (IsWithin-refl c.actor us))
            (store_password-Ends u hash (record s { db = db' })
              (subst (Reaches c.actor us u.id) (sym same_users) reaches)))
          (store_password-Ends u hash s reaches))
