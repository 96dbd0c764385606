-- ===== src/Suspension/Enforce.antt =====
-- `enforce` of internal/svc/suspend.go: cutting an account off everywhere. The steps that only call
-- the host or a service are functions on `Out` and read the database; two steps write it.
use aegis_hosting_control_pa.Base.{
  String, Bool, true, false, Option, none, some, List, [], ◌∷◌, same, if◌then◌else◌, trim_space,
}
use aegis_hosting_control_pa.Env.{Env}
use aegis_hosting_control_pa.Store.Schema.{
  User, Domain, DomainChild, Mailbox, Container, FtpAccount, Db, mailbox, container,
}
use aegis_hosting_control_pa.Store.Result.{Result, ok, err}
use aegis_hosting_control_pa.Store.Sessions.{delete_user_sessions}
use aegis_hosting_control_pa.Store.Suspension.{
  list_ftp_accounts, list_domains, list_databases, list_containers, get_mail_domain, list_mailboxes,
  record_suspension_action, set_mailbox_enabled,
}
use aegis_hosting_control_pa.Suspension.Host.{
  Call, Warning, Host, Out, warn, run, reply, try, for_each, rows_or_none, warn_on_failure,
}

-- The names of the FTP accounts that differ from the owner's.
pub other_names : String → List FtpAccount → List String
other_names name [] = []
other_names name (a ∷ accounts) =
    let rest = other_names name accounts in if same a.username name then rest else a.username ∷ rest

unfoldable pub account_names : Env → User → Db → List String
unfolding other_names
account_names e u db =
    u.username ∷ other_names u.username (rows_or_none (list_ftp_accounts e u.id db).0)

-- Re-render every domain of the account.
unfoldable pub apply_domains : Host → Env → User → Db → Out → Out
apply_domains h e u db out =
    if h.has_domains
    then (let doms = (list_domains e u.id db).0 in
        for_each (λ d. try h (Call.apply_domain d.id) (Warning.domain d.id)) (rows_or_none doms)
          (warn_on_failure doms Warning.list_domains out))
    else out

unfoldable pub set_databases_locked : Host → Env → User → Bool → Db → Out → Out
set_databases_locked h e u locked db out =
    if h.has_databases
    then for_each (λ d. try h (Call.set_locked d.id locked) (Warning.database d.id))
        (rows_or_none (list_databases e u.id db).0) out
    else out

-- The steps before the containers: sessions are gone already.
unfoldable pub cut_access : Host → Env → User → Db → Out → Out
cut_access h e u db out =
    let out1 = if h.has_web_ftp then run h (Call.revoke_web_ftp u.id) out else out in
    let out2 = for_each (λ n. run h (Call.lock_login n)) (account_names e u db) out1 in
    let out3 = apply_domains h e u db out2 in
    let out4 = if h.has_cron then run h (Call.pause_cron u.id) out3 else out3 in
    set_databases_locked h e u true db out4

-- `docker inspect` printed "true".
abbrev pub is_running : Option String → Bool
is_running none = false
is_running (some text) = same (trim_space text) "true"

-- One container that `docker inspect` knows.
abbrev pub stop_known : Host → Env → User → Container → Bool → Db × Out → Db × Out
stop_known h e u c true (db, out) = (
  (record_suspension_action e u.id container c.id db).1,
  try h (Call.stop c.id) (Warning.container_stop c.id) (run h (Call.update_restart c.id "no") out),
)
stop_known h e u c false (db, out) = (db, run h (Call.update_restart c.id "no") out)

abbrev pub stop_container : Host → Env → User → Container → Option String → Db × Out → Db × Out
stop_container h e u c none s = s
stop_container h e u c (some text) s = stop_known h e u c (is_running (some text)) s

-- Stop the running containers, remembering which.
unfoldable pub stop_containers : Host → Env → User → List Container → Db × Out → Db × Out
stop_containers h e u [] s = s
stop_containers h e u (c ∷ cs) (db, out) =
    stop_containers h e u cs
      (stop_container h e u c (reply h (Call.inspect c.id) out) (db, run h (Call.inspect c.id) out))

-- The visitor of `enforce`: an enabled mailbox is recorded, and disabled only then.
abbrev pub disable_recorded : Env → Mailbox → Result (Unit {0}) → Db × Out → Db × Out
disable_recorded e b (err _) (db, out) = (db, warn (Warning.mailbox_record b.id) out)
disable_recorded e b (ok _) (db, out) = (
  (set_mailbox_enabled e b.id false db).1,
  warn_on_failure (set_mailbox_enabled e b.id false db).0 (Warning.mailbox_disable b.id) out,
)

unfoldable pub disable_mailbox : Env → User → Mailbox → Db × Out → Db × Out
disable_mailbox e u b (db, out) =
    if b.enabled
    then disable_recorded e b (record_suspension_action e u.id mailbox b.id db).0
        ((record_suspension_action e u.id mailbox b.id db).1, out)
    else (db, out)

unfoldable pub disable_mailboxes : Env → User → List Mailbox → Db × Out → Db × Out
disable_mailboxes e u [] s = s
disable_mailboxes e u (b ∷ boxes) s = disable_mailboxes e u boxes (disable_mailbox e u b s)

-- The mailboxes of one domain: none without a mail domain, or where a query fails.
abbrev pub boxes_of : Env → Result DomainChild → Db → List Mailbox
boxes_of e (err _) db = []
boxes_of e (ok md) db = rows_or_none (list_mailboxes e md.id db).0

-- `forEachMailbox` with that visitor: each list is read when its domain is reached.
unfoldable pub visit_domains : Env → User → List Domain → Db × Out → Db × Out
visit_domains e u [] s = s
visit_domains e u (d ∷ doms) s =
    visit_domains e u doms (disable_mailboxes e u (boxes_of e (get_mail_domain e d.id s.0).0 s.0) s)

unfoldable pub enforce : Host → Env → User → Db × Out → Db × Out
enforce h e u (db, out) =
    let db1 = (delete_user_sessions e u.id db).1 in
    let stopped =
      stop_containers h e u (rows_or_none (list_containers e u.id db1).0)
        (db1, cut_access h e u db1 out) in
    let s = visit_domains e u (rows_or_none (list_domains e u.id stopped.0).0) stopped in
    (s.0, for_each (λ n. run h (Call.kill_processes n)) (account_names e u db1) s.1)
