-- ===== src/Auth/Manager.antt =====
-- `Manager` of internal/auth/auth.go, and how it opens a session.
pub mod Opening
use aegis_hosting_control_pa.Base.{
  ℕ, ◌+◌, String, Bool, false, Option, none, some, List, hex_encode,
}
use aegis_hosting_control_pa.Env.{Env, Claims}
use aegis_hosting_control_pa.Store.Schema.{User}
use aegis_hosting_control_pa.Store.Result.{
  Error, Result, ok, err, invalid_token, entropy, signing, M, ◌>>=◌, ◌>>◌, pure, fail, of_result,
  ignore,
}
use aegis_hosting_control_pa.Store.Users.{seconds}
use aegis_hosting_control_pa.Store.Sessions.{create_session, record_login_attempt}
use aegis_hosting_control_pa.Auth.Totp.{Mac}

-- `Manager`, with the answers that its libraries give during one call.
pub record Manager : Type 0 where
  pub env : Env
  pub mac : Mac
  pub ttl : ℕ
  -- `GenerateTOTPSecret`: base32 of 20 random bytes
  pub new_secret : Option String
  -- the reads of crypto/rand for the backup codes
  pub backup_entropy : List (Option (List ℕ))

-- `CheckPassword`
abbrev pub check_password : Manager → String → String → Bool
check_password m hash password = m.env.bcrypt_matches hash password

abbrev pub option_or : {A : Type 0} → Error → Option A → Result A
option_or error none = err error
option_or error (some a) = ok a

-- `newSessionID`
unfoldable pub new_session_id : Manager → Result String
new_session_id m = elim m.env.session_entropy [
  | none ↦ err entropy
  | some bytes ↦ ok (hex_encode bytes)
]

abbrev pub claims_of : Manager → User → String → ℕ → Claims
claims_of m u session_id impersonator = record {
  username = u.username;
  role = u.role;
  impersonator = impersonator;
  session_id = session_id;
  subject = u.id;
  issued_at = seconds m.env.now;
  expires_at = seconds (m.env.now + m.ttl);
  issuer = "aegis";
}

unfoldable pub mint : Manager → User → String → ℕ → Result String
mint m u session_id impersonator =
    option_or signing (m.env.sign (claims_of m u session_id impersonator))

-- A new session of `u`, and its token: the tail that `Login`, `completeLogin`, `Impersonate` and
-- `Unimpersonate` write out.
unfoldable pub open_session : Manager → User → ℕ → M String
unfolding new_session_id mint
open_session m u impersonator = do
  sid ← of_result (new_session_id m)
  create_session m.env sid u.id (m.env.now + m.ttl)
  of_result (mint m u sid impersonator)

-- `Login` returns a session, or the challenge id that goes with ErrTOTPRequired.
pub data LoginReply : Type 0 where
  session : User → String → LoginReply
  totp_required : String → LoginReply

unfoldable pub complete_login : Manager → User → M LoginReply
complete_login m u = do token ← open_session m u 0; pure (session u token)

-- The attempt that a refusal records, and the error that it returns.
abbrev pub refuse : {A : Type 0} → Manager → String → String → Error → M A
refuse m username ip error = do ignore (record_login_attempt m.env username ip false); fail error

-- `Parse`
abbrev pub parse : Manager → String → Result Claims
parse m token = option_or invalid_token (m.env.parse_with_claims m.env.now token)
