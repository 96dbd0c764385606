-- ===== src/Auth/Sessions/Impersonation.antt =====
-- "Login as user": who may, and the way back.
use aegis_hosting_control_pa.Base.{
  ℕ, ◌+◌, ◌*◌, ◌<◌, refl, String, true, false, ◌≡◌, ◌≢◌, same, some, first, arith, Option-cases,
  inl, inr,
}
use aegis_hosting_control_pa.Env.{Env, Claims}
use aegis_hosting_control_pa.Store.Schema.{User, Db, status_suspended, role_admin}
use aegis_hosting_control_pa.Store.Result.{ok}
use aegis_hosting_control_pa.Store.Users.{seconds, get_user_by_id, has_id}
use aegis_hosting_control_pa.Store.Sessions.{delete_session}
use aegis_hosting_control_pa.Auth.Manager.{Manager, open_session, claims_of}
use aegis_hosting_control_pa.Auth.Manager.Opening.{IsOpened, open_session-IsOpened}
use aegis_hosting_control_pa.Auth.Sessions.{impersonate, unimpersonate}
use aegis_hosting_control_pa.Auth.Sessions.Tokens.{Parses}

get_user_by_id-finds :
    (e : Env) (id : ℕ) (db : Db) {u : User} {db' : Db}
    → get_user_by_id e id db ≡ (ok u, db')
    → (first (has_id id) db.users ≡ some u) × (db' ≡ db)
unfolding get_user_by_id
get_user_by_id-finds e id db h = ground arith

-- What `Impersonate` has checked: the acting account is an administrator by its row, and the target
-- is not suspended.
pub record IsImpersonation (m : Manager) (admin_id target_id : ℕ) (db : Db) (token : String)
    (db' : Db) : Type 0 where
  pub admin : User
  pub target : User
  pub acts : first (has_id admin_id) db.users ≡ some admin
  pub is_admin : same admin.role role_admin ≡ true
  pub known : first (has_id target_id) db.users ≡ some target
  pub active : same target.status status_suspended ≡ false
  pub opened : open_session m target admin_id db ≡ (ok token, db')

unimpersonate-opens :
    (r : Manager) (token : String) (db : Db) (c : Claims) (admin : User) {back : String} {db' : Db}
    → r.env.parse_with_claims r.env.now token ≡ some c
    → c.impersonator ≢ 0
    → first (has_id c.impersonator) db.users ≡ some admin
    → unimpersonate r token db ≡ (ok back, db')
    → open_session r admin 0 (delete_session r.env c.session_id db).1 ≡ (ok back, db')
unfolding unimpersonate get_user_by_id delete_session
unimpersonate-opens r token db c admin parsed acting known h = ground arith

module _ (m : Manager) (admin_id target_id : ℕ) (db : Db) where
  -- A token as another account goes to an administrator by its row alone, never names a suspended
  -- account, and is that of a session opened for the target with the administrator as its
  -- impersonator.
  pub impersonate-IsImpersonation :
      {token : String} {db' : Db}
      → impersonate m admin_id target_id db ≡ (ok token, db')
      → IsImpersonation m admin_id target_id db token db'
  unfolding impersonate get_user_by_id
  impersonate-IsImpersonation h = elim (Option-cases (first (has_id admin_id) db.users)) [
    | inl missing ↦ ground arith
    | inr (admin, acts) ↦ elim (Option-cases (first (has_id target_id) db.users)) [
      | inl missing ↦ ground arith
      | inr (target, known) ↦ record {
        admin = admin;
        target = target;
        acts = acts;
        is_admin = ground arith;
        known = known;
        active = ground arith;
        opened = ground arith;
      }
    ]
  ]

  -- The way back: if the token of an impersonation, by an administrator whose id is not 0, is
  -- accepted for ending it before the session expires, and golang-jwt reads what it signed, then
  -- the token it returns is that of a session of the same administrator, without an impersonator,
  -- opened after the impersonated session was deleted.
  pub unimpersonate-impersonate :
      (r : Manager) {token back : String} {db' db'' : Db}
      → impersonate m admin_id target_id db ≡ (ok token, db')
      → Parses m r
      → r.env.now < seconds (m.env.now + m.ttl) * 1_000_000_000
      → admin_id ≢ 0
      → unimpersonate r token db' ≡ (ok back, db'')
      → (admin : User) × (target : User) × (o : IsOpened m target admin_id db token db') × (first
            (has_id admin_id)
            db.users
          ≡ some admin)
        × IsOpened r admin 0 (delete_session r.env o.sid db').1 back db''
  unimpersonate-impersonate r {token} {back} {db'} {db''} h parses fresh positive h' =
      let i = impersonate-IsImpersonation h in
      let o = open_session-IsOpened m i.target admin_id db i.opened in
      let parsed = parses (claims_of m i.target o.sid admin_id) token o.signed refl fresh in
      (
        i.admin,
        i.target,
        o,
        i.acts,
        open_session-IsOpened r i.admin 0 (delete_session r.env o.sid db').1 (
            unimpersonate-opens r token db' (claims_of m i.target o.sid admin_id) i.admin parsed
              positive (rw o.stored i.acts) h'),
      )
