-- ===== src/Auth/Sessions/Tokens.antt =====
-- From the token that opens a session to the request that uses it, and its end.
use aegis_hosting_control_pa.Base.{
  ℕ, ◌+◌, ◌*◌, ◌<◌, String, false, ◌≡◌, refl, same, some, none, first, arith,
}
use aegis_hosting_control_pa.Base.Rows.{first-drop_rows}
use aegis_hosting_control_pa.Env.{Op, Claims}
use aegis_hosting_control_pa.Store.Schema.{User, Db, status_suspended}
use aegis_hosting_control_pa.Store.Result.{ok, err, invalid_token}
use aegis_hosting_control_pa.Store.Users.{seconds, get_user_by_id, has_id}
use aegis_hosting_control_pa.Store.Sessions.{
  get_session_user, has_session_id, live_user, delete_session,
}
use aegis_hosting_control_pa.Auth.Manager.{Manager, open_session, claims_of}
use aegis_hosting_control_pa.Auth.Manager.Opening.{open_session-IsOpened, live_user-opened}
use aegis_hosting_control_pa.Auth.Sessions.{verify, logout}

-- What golang-jwt documents of a parser with WithIssuer("aegis"): a text signed with that issuer
-- parses to its claims strictly before it expires.
abbrev pub Parses : Manager → Manager → Type 0
Parses signer reader =
    (c : Claims) (t : String)
    → signer.env.sign c ≡ some t
    → c.issuer ≡ "aegis"
    → reader.env.now < c.expires_at * 1_000_000_000
    → reader.env.parse_with_claims reader.env.now t ≡ some c

-- What a request knows when its token is accepted: the session row of the claims is there and has
-- not expired, and the account of the row is there now and not suspended.
pub record IsLive (r : Manager) (token : String) (db : Db) (c : Claims) (u : User) : Type 0 where
  pub parsed : r.env.parse_with_claims r.env.now token ≡ some c
  pub in_session : live_user r.env (first (has_session_id c.session_id) db.sessions) ≡ ok u.id
  pub known : first (has_id u.id) db.users ≡ some u
  pub active : same u.status status_suspended ≡ false

module _ (r : Manager) (token : String) (db : Db) where
  -- With a working driver, the token of a live session of an active account is accepted.
  pub verify_of_IsLive :
      (c : Claims) (u : User)
      → r.env.fault Op.get_session_user ≡ false
      → r.env.fault Op.get_user_by_id ≡ false
      → IsLive r token db c u
      → verify r token db ≡ (ok (c, u), db)
  unfolding verify get_session_user get_user_by_id
  verify_of_IsLive c u works works' l =
      rw (l.parsed, works, l.in_session, works', l.known, l.active)

  -- A session id that no row has is refused, whatever the token's signature and expiry say.
  pub verify_of_no_session :
      (c : Claims)
      → r.env.parse_with_claims r.env.now token ≡ some c
      → first (has_session_id c.session_id) db.sessions ≡ none
      → verify r token db ≡ (err invalid_token, db)
  unfolding verify get_session_user
  verify_of_no_session c parsed missing = rw (parsed, missing) (ground arith)

-- A token that opened a session is accepted with the claims and the account it was made for, by
-- any request before the expiry of the session, if golang-jwt reads what it signed, the
-- account's row is the one the session was opened for and not suspended, and the reads of the
-- session and the account work.
pub verify-open_session :
    (m r : Manager) (u : User) (imp : ℕ) (db : Db) {token : String} {db' : Db}
    → open_session m u imp db ≡ (ok token, db')
    → Parses m r
    → r.env.now < seconds (m.env.now + m.ttl) * 1_000_000_000
    → first (has_id u.id) db.users ≡ some u
    → same u.status status_suspended ≡ false
    → r.env.fault Op.get_session_user ≡ false
    → r.env.fault Op.get_user_by_id ≡ false
    → (c : Claims) × (verify r token db' ≡ (ok (c, u), db'))
      × (c.impersonator ≡ imp)
      × (c.role ≡ u.role)
verify-open_session m r u imp db {token} {db'} h parses fresh known active works works' =
    let o = open_session-IsOpened m u imp db h in
    let c = claims_of m u o.sid imp in
    (
      c,
      verify_of_IsLive r token db' c u works works' (record {
        parsed = parses c token o.signed refl fresh;
        in_session = live_user-opened m u imp db r.env o (omega arith);
        known = rw o.stored known;
        active = active;
      }),
      refl,
      refl,
    )

-- After a logout whose delete works, the token is refused in every request in which it parses to
-- the same claims.
pub verify-logout :
    (m r : Manager) (token : String) (c : Claims) (db : Db)
    → m.env.parse_with_claims m.env.now token ≡ some c
    → r.env.parse_with_claims r.env.now token ≡ some c
    → m.env.fault Op.delete_session ≡ false
    → verify r token (logout m token db).1 ≡ (err invalid_token, (logout m token db).1)
unfolding logout delete_session
verify-logout m r token c db parsed parsed' works =
    verify_of_no_session r token (logout m token db).1 c parsed'
      (rw (parsed, works) (first-drop_rows (has_session_id c.session_id) db.sessions))
