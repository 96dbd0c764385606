-- ===== src/Api/Access.antt =====
-- The middleware of internal/api/server.go: bearerToken, resolveBearer, withAuth, withRole,
-- canManageUser. A handler is what it does with the account and the claims of the request.
pub mod Granted
use aegis_hosting_control_pa.Base.{
  ℕ, String, Bool, true, false, Option, none, some, List, [], ◌∷◌, ◌||◌, not, ◌==◌, same,
  if◌then◌else◌, has_prefix,
}
use aegis_hosting_control_pa.Env.{Env, Claims}
use aegis_hosting_control_pa.Store.Schema.{User, Db, status_suspended, role_admin, role_reseller}
use aegis_hosting_control_pa.Store.Result.{Error, Result, ok, err, suspended}
use aegis_hosting_control_pa.Auth.Manager.{Manager}
use aegis_hosting_control_pa.Auth.Sessions.{verify, has_role}
use aegis_hosting_control_pa.Htaccess.Text.{trim_prefix}
use aegis_hosting_control_pa.Api.Tokens.{token_prefix, verify_api_token}
use aegis_hosting_control_pa.Api.Limiter.{Limiter, blocked, fail_once}

-- What the middleware reads of a request: the Authorization header, the "token" of the query, and the
-- client's address.
pub record Incoming : Type 0 where
  pub authorization : String
  pub query_token : String
  pub ip : String

-- `bearerToken`
unfoldable pub bearer_token : Incoming → String
bearer_token q =
    if has_prefix q.authorization "Bearer "
    then trim_prefix q.authorization "Bearer "
    else q.query_token

-- What the server keeps between requests.
pub record Server : Type 0 where
  pub db : Db
  -- `s.tokenFails`, which may be nil
  pub token_fails : Option Limiter

-- The account and the claims, or an HTTP status.
pub data Access : Type 0 where
  granted : User → Claims → Access
  refused : ℕ → Access

abbrev pub api_claims : User → Claims
api_claims u = record {
  username = u.username;
  role = u.role;
  impersonator = 0;
  session_id = "";
  subject = 0;
  issued_at = 0;
  expires_at = 0;
  issuer = "";
}

abbrev pub is_blocked : String → ℕ → Option Limiter → Bool × Option Limiter
is_blocked ip now none = (false, none)
is_blocked ip now (some l) = let (b, l') = blocked ip now l in (b, some l')

abbrev pub note_failure : String → ℕ → Option Limiter → Option Limiter
note_failure ip now none = none
note_failure ip now (some l) = some (fail_once ip now l)

-- The answer to a token of a script.
abbrev pub api_access : Manager → Incoming → Option Limiter → Result User × Db → Access × Server
api_access m q fails (err _, db) =
    (refused 401, record { db = db; token_fails = note_failure q.ip m.env.now fails })
api_access m q fails (ok u, db) = (
  if same u.status status_suspended then refused 403 else granted u (api_claims u),
  record { db = db; token_fails = fails },
)

abbrev pub error_status : Error → ℕ
error_status suspended = 403
error_status _ = 401

abbrev pub session_access : Option Limiter → Result (Claims × User) × Db → Access × Server
session_access fails (err error, db) =
    (refused (error_status error), record { db = db; token_fails = fails })
session_access fails (ok (claims, u), db) =
    (granted u claims, record { db = db; token_fails = fails })

-- `resolveBearer`
unfoldable pub resolve_bearer : Manager → Incoming → String → Server → Access × Server
resolve_bearer m q token s =
    if has_prefix token token_prefix
    then (let (full, fails) = is_blocked q.ip m.env.now s.token_fails in
        if full
        then (refused 429, record s { token_fails = fails })
        else api_access m q fails (verify_api_token m.env token s.db))
    else session_access s.token_fails (verify m token s.db)

-- `withAuth`, up to the handler
unfoldable pub with_auth : Manager → Incoming → Server → Access × Server
with_auth m q s =
    let token = bearer_token q in
    if same token "" then (refused 401, s) else resolve_bearer m q token s

-- `withRole`, after `withAuth`
unfoldable pub with_role : List String → Access → Access
with_role roles (refused status) = refused status
with_role roles (granted u claims) = if has_role claims roles then granted u claims else refused 403

-- `canManageUser`
unfoldable pub can_manage_user : User → User → Bool
can_manage_user actor target =
    if same actor.role role_admin
    then true
    else if same actor.role role_reseller
    then target.owner_id == actor.id || target.id == actor.id
    else target.id == actor.id
