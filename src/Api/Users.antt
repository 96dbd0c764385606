-- ===== src/Api/Users.antt =====
-- The account handlers of internal/api/handlers_users.go. A handler gets what withAuth found: the
-- account and the claims. The body of a request is what readJSON made of it, `none` if it is invalid;
-- an id is what pathID made of it.
pub mod Names
pub mod Edit
pub mod Scope
pub mod Steps
pub mod Effects
pub mod Edits
pub mod Requests
use aegis_hosting_control_pa.Base.{
  ℕ, zero, suc, ◌+◌, String, Bool, true, false, Option, none, some, List, [], ◌∷◌, ◌&&◌, ◌||◌, not,
  ltb, ◌==◌, same, if◌then◌else◌, append, map,
}
use aegis_hosting_control_pa.Env.{Env, Claims}
use aegis_hosting_control_pa.Store.Schema.{
  User, Package, Db, status_active, status_suspended, role_admin, role_reseller, role_user,
}
use aegis_hosting_control_pa.Store.Result.{Error, Result, ok, err, locked_out}
use aegis_hosting_control_pa.Store.Users.{
  get_user_by_id, get_user_by_username, list_users, create_user, update_user, set_user_password,
}
use aegis_hosting_control_pa.Store.Sessions.{append_audit, delete_user_sessions}
use aegis_hosting_control_pa.Store.Packages.{get_package, get_default_package}
use aegis_hosting_control_pa.Auth.Manager.{Manager}
use aegis_hosting_control_pa.Auth.Login.{confirm_password}
use aegis_hosting_control_pa.Auth.Sessions.{is_impersonating}
use aegis_hosting_control_pa.Suspension.Host.{Host, Warning}
use aegis_hosting_control_pa.Suspension.Suspender.{State, suspend, unsuspend}
use aegis_hosting_control_pa.Htaccess.Text.{clean_rooted}
use aegis_hosting_control_pa.Api.Access.{can_manage_user}
use aegis_hosting_control_pa.Api.Users.Names.{valid_username, reserved_account_name, byte_length}

-- Who asks, and from where.
pub record Caller : Type 0 where
  pub actor : User
  pub claims : Claims
  pub ip : String

-- What the handlers ask of the host and of the services that are not modelled.
pub record Panel : Type 0 where
  pub manager : Manager
  -- `s.Suspend`, which may be nil
  pub suspender : Option Host
  -- `Cfg.HomeRoot`
  pub home_root : String
  -- whether createSystemUser succeeds
  pub provision : String → String → Bool
  -- `FTP.Create` of the primary account, whose error is dropped
  pub create_ftp : User → Db → Db

abbrev pub env : Panel → Env
env p = p.manager.env

pub data Reply : Type 0 where
  refused : ℕ → Reply
  account : ℕ → User → Reply
  accounts : List User → Reply
  status_now : String → List Warning → Reply
  finished : Reply

-- `publicUser`
abbrev pub public_user : User → User
public_user u = record u {
  password_hash = "";
  totp_secret = "";
  totp_backup_codes = none;
  suspended_by_quota = false;
}

-- `audit`; an error is only logged.
abbrev pub audit_as : Env → Caller → String → String → Db → Db
audit_as e c action target db =
    let name =
      if is_impersonating c.claims
      then append c.actor.username (append " (via " (append c.claims.username ")"))
      else c.actor.username in
    (append_audit e c.actor.id name action target c.ip db).1

abbrev pub audit : Panel → Caller → String → String → State → State
audit p c action target s = record s { db = audit_as (env p) c action target s.db }

-- The common start: the id, the account and the right to manage it.
abbrev pub when_managed :
    User → Result User → (User → State → Reply × State) → State → Reply × State
when_managed actor (err _) next s = (refused 404, s)
when_managed actor (ok u) next s = if can_manage_user actor u then next u s else (refused 403, s)

abbrev pub managed :
    Panel → Caller → Option ℕ → (User → State → Reply × State) → State → Reply × State
managed p c none next s = (refused 400, s)
managed p c (some id) next s = when_managed c.actor (get_user_by_id (env p) id s.db).0 next s

abbrev pub listed : Result (List User) → Reply
listed (err _) = refused 500
listed (ok users) = accounts (map public_user users)

-- `handleUsersList`
unfoldable pub handle_users_list : Panel → Caller → State → Reply × State
handle_users_list p c s =
    let owner = if same c.actor.role role_admin then 0 else c.actor.id in
    (listed (list_users (env p) owner s.db).0, s)

-- `handleUsersGet`
unfoldable pub handle_users_get : Panel → Caller → Option ℕ → State → Reply × State
handle_users_get p c id = managed p c id (λ u s. (account 200 (public_user u), s))

pub record CreateRequest : Type 0 where
  pub username : String
  pub email : String
  pub password : String
  pub role : String
  pub package_id : ℕ

abbrev pub is_ok : {A : Type 0} → Result A → Bool
is_ok (ok _) = true
is_ok (err _) = false

abbrev pub id_or_zero : Result Package → ℕ
id_or_zero (ok k) = k.id
id_or_zero (err _) = 0

-- The limits of a package that exists.
abbrev pub with_quotas : Result Package → User → User
with_quotas (err _) u = u
with_quotas (ok k) u = record u {
  quota_disk_bytes = k.disk_quota_bytes;
  quota_bandwidth_bytes = k.bandwidth_quota_bytes;
}

-- The row that `handleUsersCreate` writes.
abbrev pub new_account : Panel → Caller → CreateRequest → String → String → Db → User
new_account p c q role hash db =
    let package_id =
      if q.package_id == 0 then id_or_zero (get_default_package (env p) db).0 else q.package_id in
    let u : User = record {
      id = 0;
      username = q.username;
      email = q.email;
      password_hash = hash;
      role = role;
      package_id = package_id;
      status = status_active;
      owner_id = c.actor.id;
      home_dir = clean_rooted (append p.home_root (append "/" q.username));
      quota_disk_bytes = 0;
      quota_bandwidth_bytes = 0;
      created_at = 0;
      updated_at = 0;
      totp_secret = "";
      totp_enabled = false;
      totp_backup_codes = none;
      suspended_by_quota = false;
    } in
    if ltb 0 package_id then with_quotas (get_package (env p) package_id db).0 u else u

abbrev pub after_create : Panel → Caller → Result User × Db → State → Reply × State
after_create p c (err _, db) s = (refused 409, record s { db = db })
after_create p c (ok u, db) s = (
  account 201 (public_user u),
  audit p c "user.create" u.username (record s { db = p.create_ftp u db }),
)

-- The end of `handleUsersCreate`: the system account, the row, the FTP account.
abbrev pub provision_account : Panel → Caller → CreateRequest → User → State → Reply × State
provision_account p c q u s =
    if p.provision u.username q.password
    then after_create p c (create_user (env p) u s.db) s
    else (refused 500, s)

abbrev pub with_hash :
    Panel → Caller → CreateRequest → String → Option String → State → Reply × State
with_hash p c q role none s = (refused 500, s)
with_hash p c q role (some hash) s = provision_account p c q (new_account p c q role hash s.db) s

abbrev pub requested_role : CreateRequest → String
requested_role q = if same q.role "" then role_user else q.role

-- `handleUsersCreate`
unfoldable pub handle_users_create : Panel → Caller → Option CreateRequest → State → Reply × State
handle_users_create p c none s = (refused 400, s)
handle_users_create p c (some q) s =
    let role = requested_role q in
    if not (valid_username q.username)
    then (refused 400, s)
    else if reserved_account_name q.username
    then (refused 400, s)
    else if ltb (byte_length q.password) 8
    then (refused 400, s)
    else if not (same role role_user) && not (same role role_reseller) && not (same role role_admin)
    then (refused 400, s)
    else if same c.actor.role role_reseller && not (same role role_user)
    then (refused 403, s)
    else if not (same c.actor.role role_admin) && same role role_admin
    then (refused 403, s)
    else if is_ok (get_user_by_username (env p) q.username s.db).0
    then (refused 409, s)
    else with_hash p c q role ((env p).bcrypt_hash q.password) s
