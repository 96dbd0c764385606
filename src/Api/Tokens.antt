-- ===== src/Api/Tokens.antt =====
-- internal/svc/apitokens.go: the credentials of scripts.
pub mod Roundtrip
use aegis_hosting_control_pa.Base.{
  ℕ, ◌+◌, String, Bool, true, false, Option, none, some, List, [], ◌∷◌, ltb, if◌then◌else◌,
  has_prefix, append, char_of,
}
use aegis_hosting_control_pa.Env.{Env}
use aegis_hosting_control_pa.Store.Schema.{User, ApiToken}
use aegis_hosting_control_pa.Store.Result.{
  Error, Result, ok, err, entropy, hashing, invalid_token, not_api_token, M, ◌>>=◌, ◌>>◌, pure,
  fail, of_result, ignore,
}
use aegis_hosting_control_pa.Store.Users.{seconds, get_user_by_id}
use aegis_hosting_control_pa.Store.Tokens.{create_api_token, all_active_api_tokens, touch_api_token}
use aegis_hosting_control_pa.Auth.Manager.{option_or}

abbrev pub token_prefix : String
token_prefix = "aegis_"

abbrev pub token_chars : String
token_chars = "abcdefghijklmnopqrstuvwxyzABCDEFGHIJKLMNOPQRSTUVWXYZ0123456789"

-- The text of the draws of `RandomString`.
pub random_text : List ℕ → String
random_text [] = ""
random_text (i ∷ draws) = append (char_of token_chars i) (random_text draws)

-- `RandomString`
unfoldable pub random_string : Env → Result String
unfolding random_text
random_string e = elim e.token_entropy [ none ↦ err entropy | some draws ↦ ok (random_text draws) ]

-- A ttl of 0 is no expiry.
abbrev pub expiry : Env → ℕ → Option ℕ
expiry e ttl = if ltb 0 ttl then some (seconds (e.now + ttl)) else none

abbrev pub new_token : Env → User → String → ℕ → String → ApiToken
new_token e u label ttl hash = record {
  id = 0;
  user_id = u.id;
  label = label;
  token_hash = hash;
  scopes = "*";
  last_used_at = none;
  expires_at = expiry e ttl;
  created_at = 0;
}

-- `APITokens.Create`
unfoldable pub issue : Env → User → String → ℕ → M (ApiToken × String)
unfolding random_string
issue e u label ttl = do
  text ← of_result (random_string e)
  hash ← of_result (option_or hashing (e.bcrypt_hash (append token_prefix text)))
  t ← create_api_token e (new_token e u label ttl hash)
  pure (t, append token_prefix text)

-- The loop of `Verify`: the first token whose hash matches.
unfoldable pub match_token : Env → String → List ApiToken → Option ApiToken
match_token e raw [] = none
match_token e raw (t ∷ tokens) =
    let rest = match_token e raw tokens in
    if e.bcrypt_matches t.token_hash raw then some t else rest

abbrev pub user_of_token : Env → Option ApiToken → M User
user_of_token e none = fail invalid_token
user_of_token e (some t) = do ignore (touch_api_token e t.id); get_user_by_id e t.user_id

-- `APITokens.Verify`
unfoldable pub verify_api_token : Env → String → M User
verify_api_token e raw =
    if has_prefix raw token_prefix
    then (do tokens ← all_active_api_tokens e; user_of_token e (match_token e raw tokens))
    else fail not_api_token
