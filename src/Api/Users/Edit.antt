-- ===== src/Api/Users/Edit.antt =====
-- The handlers of internal/api/handlers_users.go that change an account: handleUsersUpdate,
-- handleUsersResetPassword and handleUsersSuspend.
use aegis_hosting_control_pa.Base.{
  ℕ, String, Bool, Option, none, some, List, ◌&&◌, not, ltb, ◌==◌, same, if◌then◌else◌, append,
}
use aegis_hosting_control_pa.Env.{Env}
use aegis_hosting_control_pa.Store.Schema.{
  User, Package, Db, status_active, status_suspended, role_admin,
}
use aegis_hosting_control_pa.Store.Result.{Error, Result, ok, err, locked_out}
use aegis_hosting_control_pa.Store.Users.{update_user, set_user_password}
use aegis_hosting_control_pa.Store.Sessions.{delete_user_sessions}
use aegis_hosting_control_pa.Store.Packages.{get_package}
use aegis_hosting_control_pa.Auth.Login.{confirm_password}
use aegis_hosting_control_pa.Suspension.Host.{Host, Warning}
use aegis_hosting_control_pa.Suspension.Suspender.{State, suspend, unsuspend}
use aegis_hosting_control_pa.Api.Users.Names.{byte_length}
use aegis_hosting_control_pa.Api.Users.{
  Caller, Panel, env, Reply, refused, account, status_now, finished, public_user, audit, managed,
  with_quotas,
}

-- The fields that the request names.
pub record UpdateRequest : Type 0 where
  pub email : Option String
  pub role : Option String
  pub package_id : Option ℕ
  pub status : Option String

-- A check passes, or the handler answers with a status.
pub data Checked (A : Type 0) : Type 0 where
  pass : A → Checked A
  deny : ℕ → Checked A

infixl 5 ◌>>=◌
abbrev pub ◌>>=◌ : {A B : Type 0} → Checked A → (A → Checked B) → Checked B
pass a >>= f = f a
deny n >>= f = deny n

abbrev pub set_email : Option String → User → User
set_email none u = u
set_email (some e) u = record u { email = e }

abbrev pub set_role : User → Option String → User → Checked User
set_role actor none u = pass u
set_role actor (some role) u =
    if not (same actor.role role_admin) then deny 403 else pass (record u { role = role })

abbrev pub move_to : ℕ → Result Package → User → Checked User
move_to id (err _) u = deny 400
move_to id (ok k) u = pass (with_quotas (ok k) (record u { package_id = id }))

abbrev pub set_package : Env → Option ℕ → Db → User → Checked User
set_package e none db u = pass u
set_package e (some id) db u = move_to id (get_package e id db).0 u

-- The status to move to, "" for none.
abbrev pub status_change : User → Option String → User → Checked String
status_change actor none u = pass ""
status_change actor (some status) u =
    let change = if same status u.status then "" else status in
    if not (same status status_active) && not (same status status_suspended)
    then deny 400
    else if same change status_suspended && u.id == actor.id
    then deny 400
    else pass change

-- What `handleUsersUpdate` checks and edits before it writes.
abbrev pub edit : Panel → Caller → UpdateRequest → Db → User → Checked (User × String)
edit p c q db u = do
  u1 ← set_role c.actor q.role (set_email q.email u)
  u2 ← set_package (env p) q.package_id db u1
  change ← status_change c.actor q.status u2
  pass (u2, change)

abbrev pub failed_or : Reply → (State → State) → Result (List Warning) × State → Reply × State
failed_or r f (err _, s) = (refused 500, s)
failed_or r f (ok _, s) = (r, f s)

-- The status change goes through the suspender, if there is one, which sets it in the struct too.
abbrev pub move_status :
    Panel → Option Host → User → String → (User → Reply) → (State → State) → State → Reply × State
move_status p none u change r f s = (r u, f s)
move_status p (some h) u change r f s =
    if same change ""
    then (r u, f s)
    else if same change status_suspended
    then failed_or (r (record u { status = status_suspended })) f (suspend h (env p) u s)
    else failed_or (r (record u { status = status_active })) f (unsuspend h (env p) u s)

abbrev pub after_update :
    Panel → Caller → User → String → Result (Unit {0}) × Db → State → Reply × State
after_update p c u change (err _, db) s = (refused 500, record s { db = db })
after_update p c u change (ok _, db) s =
    move_status p p.suspender u change (λ v. account 200 (public_user v))
      (audit p c "user.update" u.username) (record s { db = db })

abbrev pub apply_edit : Panel → Caller → Checked (User × String) → State → Reply × State
apply_edit p c (deny n) s = (refused n, s)
apply_edit p c (pass (u, change)) s = after_update p c u change (update_user (env p) u s.db) s

abbrev pub update_managed : Panel → Caller → Option UpdateRequest → User → State → Reply × State
update_managed p c none u s = (refused 400, s)
update_managed p c (some q) u s = apply_edit p c (edit p c q s.db u) s

-- `handleUsersUpdate`
unfoldable pub handle_users_update :
    Panel → Caller → Option ℕ → Option UpdateRequest → State → Reply × State
handle_users_update p c id body = managed p c id (update_managed p c body)

pub record ResetRequest : Type 0 where
  pub password : String
  pub current_password : String

abbrev pub after_reset : Panel → Caller → User → Result (Unit {0}) × Db → State → Reply × State
after_reset p c u (err _, db) s = (refused 500, record s { db = db })
after_reset p c u (ok _, db) s = (
  finished,
  audit p c "user.reset-password" u.username
      (record s { db = (delete_user_sessions (env p) u.id db).1 }),
)

-- The new password; setting that of the system account does not change the reply.
abbrev pub store_password : Panel → Caller → User → Option String → State → Reply × State
store_password p c u none s = (refused 500, s)
store_password p c u (some hash) s = after_reset p c u (set_user_password (env p) u.id hash s.db) s

abbrev pub refusal : Error → ℕ
refusal locked_out = 429
refusal _ = 403

abbrev pub if_confirmed : Result (Unit {0}) × Db → (State → Reply × State) → State → Reply × State
if_confirmed (err error, db) next s = (refused (refusal error), record s { db = db })
if_confirmed (ok _, db) next s = next (record s { db = db })

abbrev pub reset_managed : Panel → Caller → Option ResetRequest → User → State → Reply × State
reset_managed p c none u s = (refused 400, s)
reset_managed p c (some q) u s =
    let store = store_password p c u ((env p).bcrypt_hash q.password) in
    if ltb (byte_length q.password) 8
    then (refused 400, s)
    else if c.actor.id == u.id
    then if_confirmed (confirm_password p.manager u q.current_password c.ip s.db) store s
    else store s

-- `handleUsersResetPassword`
unfoldable pub handle_users_reset_password :
    Panel → Caller → Option ℕ → Option ResetRequest → State → Reply × State
handle_users_reset_password p c id body = managed p c id (reset_managed p c body)

abbrev pub after_suspend :
    Panel → Caller → User → String → Result (List Warning) × State → Reply × State
after_suspend p c u status (err _, s) = (refused 500, s)
after_suspend p c u status (ok warnings, s) =
    (status_now status warnings, audit p c (append "user." status) u.username s)

abbrev pub suspend_managed : Panel → Caller → Bool → Option Host → User → State → Reply × State
suspend_managed p c lifts none u s = (refused 503, s)
suspend_managed p c lifts (some h) u s =
    if lifts
    then after_suspend p c u status_active (unsuspend h (env p) u s)
    else if u.id == c.actor.id
    then (refused 400, s)
    else after_suspend p c u status_suspended (suspend h (env p) u s)

-- `handleUsersSuspend`; `lifts` is whether the path ends in /unsuspend.
unfoldable pub handle_users_suspend : Panel → Caller → Option ℕ → Bool → State → Reply × State
handle_users_suspend p c id lifts = managed p c id (suspend_managed p c lifts p.suspender)
