-- ===== src/Api/Tokens/Roundtrip.antt =====
-- From the issue of a script's credential to its use.
use text.Mathlib.TextPositions.{starts_with-append}
use aegis_hosting_control_pa.Base.{
  ℕ, suc, String, Bool, true, false, none, some, List, [], ◌∷◌, ◌++◌, append, keep, first, ◌≡◌,
  refl, arith, All,
}
use aegis_hosting_control_pa.Env.{Env, Op}
use aegis_hosting_control_pa.Store.Schema.{User, ApiToken, Db}
use aegis_hosting_control_pa.Store.Result.{ok}
use aegis_hosting_control_pa.Store.Users.{seconds, has_id, get_user_by_id}
use aegis_hosting_control_pa.Store.Tokens.{
  is_active_token, create_api_token, all_active_api_tokens, touch_api_token,
}
use aegis_hosting_control_pa.Api.Tokens.{
  token_prefix, random_string, expiry, new_token, issue, match_token, user_of_token,
  verify_api_token,
}

match_token-snoc :
    (e : Env) (raw : String) (tokens : List ApiToken) (t : ApiToken)
    → All (λ o. e.bcrypt_matches o.token_hash raw ≡ false) tokens
    → e.bcrypt_matches t.token_hash raw ≡ true
    → match_token e raw (tokens ++ t ∷ []) ≡ some t
unfolding match_token
match_token-snoc e raw [] t others this = rw this
match_token-snoc e raw (o ∷ tokens) t (other, others) this =
    rw other (match_token-snoc e raw tokens t others this)

keep-snoc :
    {A : Type 0} (p : A → Bool) (xs : List A) (x : A)
    → p x ≡ true
    → keep p (xs ++ x ∷ []) ≡ keep p xs ++ x ∷ []
unfolding keep
keep-snoc p [] x h = rw h
keep-snoc p (y ∷ xs) x h = ground (arith, keep-snoc p xs x h)

touch-users : (e : Env) (id : ℕ) (db : Db) → (touch_api_token e id db).1.users ≡ db.users
unfolding touch_api_token
touch-users e id db = ground arith

module _ (e : Env) (u : User) (label : String) (ttl : ℕ) (db : Db) (text hash : String) where
  abbrev pub raw : String
  raw = append token_prefix text

  -- The row that a credential gets.
  abbrev pub issued_row : ApiToken
  issued_row = record (new_token e u label ttl hash) {
    id = suc db.last_token_id;
    last_used_at = none;
    created_at = seconds e.now;
  }

  abbrev pub issued_db : Db
  issued_db = record db {
    api_tokens = db.api_tokens ++ issued_row ∷ [];
    last_token_id = suc db.last_token_id;
  }

  issue-row :
      random_string e ≡ ok text
      → e.bcrypt_hash raw ≡ some hash
      → e.fault Op.create_api_token ≡ false
      → issue e u label ttl db ≡ (ok (issued_row, raw), issued_db)
  unfolding issue create_api_token
  issue-row drawn hashed works = rw (drawn, hashed, works)

  found_user :
      (r : Env) (t : ApiToken) (db' : Db)
      → r.fault Op.get_user_by_id ≡ false
      → t.user_id ≡ u.id
      → first (has_id u.id) db'.users ≡ some u
      → (user_of_token r (some t) db').0 ≡ ok u
  unfolding get_user_by_id
  found_user r t db' works owner known = rw (works, owner, touch-users r t.id db', known)

  -- A credential that was issued names its account, in any request before it expires, if bcrypt matches
  -- it with its hash and with that of no other active credential, while the account is there and the
  -- statements work.
  pub verify-issue :
      (r : Env)
      → random_string e ≡ ok text
      → e.bcrypt_hash raw ≡ some hash
      → r.bcrypt_matches hash raw ≡ true
      → All
          (λ o. r.bcrypt_matches o.token_hash raw ≡ false)
          (keep (λ t. is_active_token (seconds r.now) t.expires_at) db.api_tokens)
      → is_active_token (seconds r.now) (expiry e ttl) ≡ true
      → first (has_id u.id) db.users ≡ some u
      → e.fault Op.create_api_token ≡ false
      → r.fault Op.all_active_api_tokens ≡ false
      → r.fault Op.get_user_by_id ≡ false
      → (issue e u label ttl db ≡ (ok (issued_row, raw), issued_db))
        × ((verify_api_token r raw issued_db).0 ≡ ok u)
  unfolding verify_api_token all_active_api_tokens
  verify-issue r drawn hashed matches others unexpired known creates lists finds = (
    issue-row drawn hashed creates,
    rw
        (
          starts_with-append token_prefix text,
          lists,
          keep-snoc (λ (t : ApiToken). is_active_token (seconds r.now) t.expires_at) db.api_tokens
              issued_row unexpired,
          match_token-snoc r raw _ issued_row others matches,
        )
        (found_user r issued_row issued_db finds refl known),
  )
