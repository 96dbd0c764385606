-- ===== src/Api/Access/Granted.antt =====
-- Whom the middleware lets through.
use aegis_hosting_control_pa.Base.{
  ℕ, String, false, Option, some, same, has_prefix, of_if, keep, first, ◌≡◌, refl, arith,
  Bool-cases, Option-cases, inl, inr,
}
use aegis_hosting_control_pa.Env.{Env, Claims}
use aegis_hosting_control_pa.Store.Schema.{User, Db, status_suspended}
use aegis_hosting_control_pa.Store.Result.{Result, ok, err}
use aegis_hosting_control_pa.Store.Users.{seconds, has_id, get_user_by_id}
use aegis_hosting_control_pa.Store.Sessions.{get_session_user, has_session_id}
use aegis_hosting_control_pa.Auth.Manager.{Manager}
use aegis_hosting_control_pa.Auth.Sessions.{verify}
use aegis_hosting_control_pa.Store.Tokens.{is_active_token, all_active_api_tokens, touch_api_token}
use aegis_hosting_control_pa.Api.Tokens.{token_prefix, verify_api_token, match_token}
use aegis_hosting_control_pa.Api.Limiter.{Limiter}
use aegis_hosting_control_pa.Api.Access.{
  Incoming, bearer_token, Server, Access, granted, refused, is_blocked, api_access, session_access,
  resolve_bearer, with_auth,
}

-- The account is a row of the database now, and is not suspended.
pub record IsActive (db : Db) (u : User) : Type 0 where
  pub id : ℕ
  pub known : first (has_id id) db.users ≡ some u
  pub active : same u.status status_suspended ≡ false

abbrev pub OfGranted : (User → Type 0) → Access → Type 0
OfGranted P (granted u _) = P u
OfGranted P (refused _) = Unit

verify-IsActive :
    (m : Manager) (token : String) (db : Db) {c : Claims} {u : User} {db' : Db}
    → verify m token db ≡ (ok (c, u), db')
    → IsActive db u
unfolding verify get_session_user get_user_by_id
verify-IsActive m token db {c} {u} {db'} h =
    elim (Option-cases (m.env.parse_with_claims m.env.now token)) [
      | inl bad ↦ ground arith
      | inr (claims, parsed) ↦
          elim (Option-cases (first (has_session_id claims.session_id) db.sessions)) [
            | inl gone ↦ ground arith
            | inr (row, held) ↦ elim (Option-cases (first (has_id row.user_id) db.users)) [
              | inl missing ↦ ground arith
              | inr (v, known) ↦ record {
                id = row.user_id;
                known = ground arith;
                active = ground arith;
              }
            ]
          ]
    ]

touch-users : (e : Env) (id : ℕ) (db : Db) → (touch_api_token e id db).1.users ≡ db.users
unfolding touch_api_token
touch-users e id db = ground arith

verify_api_token-known :
    (e : Env) (raw : String) (db : Db) {u : User} {db' : Db}
    → verify_api_token e raw db ≡ (ok u, db')
    → (id : ℕ) × (first (has_id id) db.users ≡ some u)
unfolding verify_api_token all_active_api_tokens get_user_by_id
verify_api_token-known e raw db {u} {db'} h =
    elim (Option-cases (
      match_token e raw (keep (λ t. is_active_token (seconds e.now) t.expires_at) db.api_tokens))) [
        | inl none' ↦ ground arith
        | inr (t, matched) ↦ (t.user_id, ground (arith, touch-users e t.id db))
      ]

module _ (m : Manager) (q : Incoming) (s : Server) (token : String) where
  abbrev OfAnswer : Access × Server → Type 0
  OfAnswer a = OfGranted (IsActive s.db) a.0

  of_api_access :
      (fails : Option Limiter) (rd : Result User × Db)
      → verify_api_token m.env token s.db ≡ rd
      → OfAnswer (api_access m q fails rd)
  of_api_access fails (err e, db) h = tt
  of_api_access fails (ok u, db) h = elim (Bool-cases (same u.status status_suspended)) [
    | inl out ↦ rw (out, OfGranted) tt
    | inr active ↦
        let (id, known) = verify_api_token-known m.env token s.db h in
        rw (active, OfGranted) (record { id = id; known = known; active = active })
  ]

  of_session_access :
      (fails : Option Limiter) (rd : Result (Claims × User) × Db)
      → verify m token s.db ≡ rd
      → OfAnswer (session_access fails rd)
  of_session_access fails (err e, db) h = tt
  of_session_access fails (ok (c, u), db) h = verify-IsActive m token s.db h

  of_resolve_bearer : OfAnswer (resolve_bearer m q token s)
  unfolding resolve_bearer
  of_resolve_bearer =
      let fails = (is_blocked q.ip m.env.now s.token_fails).1 in
      of_if OfAnswer (has_prefix token token_prefix) _ _
        (of_if OfAnswer (is_blocked q.ip m.env.now s.token_fails).0 _ _ tt
          (of_api_access fails (verify_api_token m.env token s.db) refl))
        (of_session_access s.token_fails (verify m token s.db) refl)

-- Whoever the middleware lets through is a row of the accounts, not suspended, whether its token
-- is that of a session or of a script.
pub with_auth-IsActive :
    (m : Manager) (q : Incoming) (s : Server) → OfGranted (IsActive s.db) (with_auth m q s).0
unfolding with_auth
with_auth-IsActive m q s =
    let token = bearer_token q in
    of_if (λ (a : Access × Server). OfGranted (IsActive s.db) a.0) (same token "") (refused 401, s)
      (resolve_bearer m q token s) tt (of_resolve_bearer m q s token)
