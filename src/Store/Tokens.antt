-- ===== src/Store/Tokens.antt =====
-- internal/store/apitokens.go
use aegis_hosting_control_pa.Base.{
  ℕ, suc, Bool, true, Option, none, some, List, [], ◌∷◌, ◌++◌, ltb, ◌==◌, if◌then◌else◌, keep,
  drop_rows, update_rows,
}
use aegis_hosting_control_pa.Env.{Env, Op}
use aegis_hosting_control_pa.Store.Schema.{ApiToken}
use aegis_hosting_control_pa.Store.Result.{ok, err, database, M, exec, query}
use aegis_hosting_control_pa.Store.Users.{seconds}

-- `expires_at IS NULL OR expires_at > now()`
abbrev pub is_active_token : ℕ → Option ℕ → Bool
is_active_token now none = true
is_active_token now (some t) = ltb now t

unfoldable pub create_api_token : Env → ApiToken → M ApiToken
create_api_token e t db =
    let id = suc db.last_token_id in
    let row = record t { id = id; last_used_at = none; created_at = seconds e.now } in
    if e.fault Op.create_api_token
    then (err database, db)
    else (ok row, record db { api_tokens = db.api_tokens ++ row ∷ []; last_token_id = id })

unfoldable pub all_active_api_tokens : Env → M (List ApiToken)
all_active_api_tokens e =
    query e Op.all_active_api_tokens
      (λ db. keep (λ t. is_active_token (seconds e.now) t.expires_at) db.api_tokens)

unfoldable pub touch_api_token : Env → ℕ → M (Unit {0})
touch_api_token e id = exec e Op.touch_api_token λ db. record db {
  api_tokens =
      update_rows (λ t. t.id == id) (λ t. record t { last_used_at = some (seconds e.now) })
        db.api_tokens;
}

unfoldable pub delete_api_token : Env → ℕ → M (Unit {0})
delete_api_token e id =
    exec e Op.delete_api_token
      (λ db. record db { api_tokens = drop_rows (λ t. t.id == id) db.api_tokens })
