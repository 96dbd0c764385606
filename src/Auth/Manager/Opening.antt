-- ===== src/Auth/Manager/Opening.antt =====
-- A session that has just been opened, and the token for it.
use aegis_hosting_control_pa.Base.{
  eq_refl, ◌*◌, ℕ, ◌+◌, ◌≤◌, String, false, ◌≡◌, some, first, any, [], ◌∷◌, ◌++◌, arith,
  Option-cases, inl, inr, ltb,
}
use aegis_hosting_control_pa.Base.Rows.{first-append}
use aegis_hosting_control_pa.Env.{Env}
use aegis_hosting_control_pa.Store.Schema.{User, Db}
use aegis_hosting_control_pa.Store.Result.{ok}
use aegis_hosting_control_pa.Store.Users.{seconds}
use aegis_hosting_control_pa.Store.Sessions.{live_user, create_session, has_session_id, new_session}
use aegis_hosting_control_pa.Auth.Manager.{
  hex_encode, Manager, open_session, new_session_id, claims_of,
}

-- What `open_session` did: a session id that was free, its row at the end of the table, and a
-- signature under the claims that name the account, the session and the impersonator.
pub record IsOpened (m : Manager) (u : User) (imp : ℕ) (db : Db) (token : String) (db' : Db)
    : Type 0 where
  pub sid : String
  pub drawn : new_session_id m ≡ ok sid
  pub free : any (has_session_id sid) db.sessions ≡ false
  pub signed : m.env.sign (claims_of m u sid imp) ≡ some token
  pub stored :
      db'
      ≡ record db { sessions = db.sessions ++ new_session m.env sid u.id (m.env.now + m.ttl) ∷ [] }

not_yet : (t now : ℕ) → now ≤ t → ltb t now ≡ false
not_yet t now h = ground arith

module _ (m : Manager) (u : User) (imp : ℕ) (db : Db) where
  pub open_session-IsOpened :
      {token : String} {db' : Db}
      → open_session m u imp db ≡ (ok token, db')
      → IsOpened m u imp db token db'
  unfolding open_session create_session
  open_session-IsOpened {token} {db'} h = elim (Option-cases m.env.session_entropy) [
    | inl dry ↦ cc (rw dry at h)
    | inr (bytes, drawn) ↦ record {
      sid = hex_encode bytes;
      drawn = rw drawn;
      free = ground arith;
      signed = ground arith;
      stored = ground arith;
    }
  ]

  -- The session is found under its id until it expires.
  pub live_user-opened :
      (e : Env) {token : String} {db' : Db} (o : IsOpened m u imp db token db')
      → e.now ≤ seconds (m.env.now + m.ttl) * 1_000_000_000
      → live_user e (first (has_session_id o.sid) db'.sessions) ≡ ok u.id
  live_user-opened e {token} {db'} o fresh =
      let row = new_session m.env o.sid u.id (m.env.now + m.ttl) in
      rw (
        o.stored,
        first-append (has_session_id o.sid) db.sessions row o.free (eq_refl o.sid),
        not_yet (seconds (m.env.now + m.ttl) * 1_000_000_000) e.now fresh,
      )
