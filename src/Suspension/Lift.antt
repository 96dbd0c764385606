-- ===== src/Suspension/Lift.antt =====
-- `lift` of internal/svc/suspend.go: restoring what `enforce` changed.
use aegis_hosting_control_pa.Base.{
  ℕ, String, Bool, true, false, List, [], ◌∷◌, ◌==◌, ◌||◌, same, if◌then◌else◌,
}
use aegis_hosting_control_pa.Env.{Env}
use aegis_hosting_control_pa.Store.Schema.{User, Container, FtpAccount, Db, mailbox, container}
use aegis_hosting_control_pa.Store.Suspension.{
  list_ftp_accounts, list_containers, list_suspension_actions, clear_suspension_actions,
  set_mailbox_enabled,
}
use aegis_hosting_control_pa.Suspension.Host.{
  Call, Warning, Host, Out, run, try, for_each, rows_or_none, warn_on_failure,
}
use aegis_hosting_control_pa.Suspension.Enforce.{apply_domains, set_databases_locked}

-- `ownerEnabled`: the flag of the last FTP account that has the owner's name.
unfoldable pub owner_enabled : String → List FtpAccount → Bool → Bool
owner_enabled name [] enabled = enabled
owner_enabled name (a ∷ accounts) enabled =
    owner_enabled name accounts (if same a.username name then a.enabled else enabled)

unfoldable pub unlock_ftp : Host → String → FtpAccount → Out → Out
unlock_ftp h name a out =
    if same a.username name
    then out
    else if a.enabled
    then run h (Call.unlock_login a.username) out
    else out

-- Unlock the enabled FTP logins, and the owner's unless its own FTP account is disabled.
unfoldable pub unlock_logins : Host → Env → User → Db → Out → Out
unlock_logins h e u db out =
    let ftps = rows_or_none (list_ftp_accounts e u.id db).0 in
    let out1 = for_each (unlock_ftp h u.username) ftps out in
    if owner_enabled u.username ftps true then run h (Call.unlock_login u.username) out1 else out1

abbrev pub is_listed : ℕ → List ℕ → Bool
is_listed id [] = false
is_listed id (k ∷ ids) = k == id || is_listed id ids

-- Put a container's restart policy back, and start it only if `enforce` stopped it.
unfoldable pub restart_container : Host → List ℕ → Container → Out → Out
restart_container h stopped c out =
    let policy = if same c.restart_policy "" then "no" else c.restart_policy in
    let out1 = run h (Call.update_restart c.id policy) out in
    if is_listed c.id stopped
    then try h (Call.start c.id) (Warning.container_start c.id) out1
    else out1

unfoldable pub restore_access : Host → Env → User → Db → Out → Out
restore_access h e u db out =
    let out1 = unlock_logins h e u db out in
    let out2 = set_databases_locked h e u false db out1 in
    let out3 = if h.has_cron then try h (Call.resume_cron u.id) Warning.crontab out2 else out2 in
    let out4 = apply_domains h e u db out3 in
    for_each (restart_container h (rows_or_none (list_suspension_actions e u.id container db).0))
      (rows_or_none (list_containers e u.id db).0) out4

unfoldable pub enable_mailboxes : Env → List ℕ → Db × Out → Db × Out
enable_mailboxes e [] s = s
enable_mailboxes e (id ∷ ids) (db, out) = enable_mailboxes e ids (
  (set_mailbox_enabled e id true db).1,
  warn_on_failure (set_mailbox_enabled e id true db).0 (Warning.mailbox_enable id) out,
)

unfoldable pub lift : Host → Env → User → Db × Out → Db × Out
lift h e u (db, out) =
    let s =
      enable_mailboxes e (rows_or_none (list_suspension_actions e u.id mailbox db).0)
        (db, restore_access h e u db out) in
    ((clear_suspension_actions e u.id s.0).1, s.1)
