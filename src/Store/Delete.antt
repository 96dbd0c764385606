-- ===== src/Store/Delete.antt =====
-- `DeleteUser` of internal/store/users.go: one transaction of seventeen DELETE statements. A
-- statement that fails rolls all of them back.
pub mod Orphans
use aegis_hosting_control_pa.Base.{
  ℕ, Bool, List, [], ◌∷◌, ◌==◌, if◌then◌else◌, keep, any, drop_rows,
}
use aegis_hosting_control_pa.Env.{Env, Op}
use aegis_hosting_control_pa.Store.Schema.{
  User, Session, ApiToken, Domain, DomainChild, Leaf, Mailbox, Container, Owned, FtpAccount,
  SuspensionAction, Db,
}
use aegis_hosting_control_pa.Store.Result.{M, exec}

-- (SELECT id FROM domains WHERE user_id = ?)
abbrev pub owns_domain : Db → ℕ → ℕ → Bool
owns_domain db id domain_id =
    any (λ (d : Domain). d.id == domain_id) (keep (λ d. d.user_id == id) db.domains)

-- (SELECT id FROM t WHERE domain_id IN doms)
abbrev pub owns_child : Db → List DomainChild → ℕ → ℕ → Bool
owns_child db rows id child_id =
    any (λ (c : DomainChild). c.id == child_id) (keep (λ c. owns_domain db id c.domain_id) rows)

-- The statements in their order: each reads the tables that the ones above it left.
abbrev delete_mail : ℕ → Db → Db
delete_mail id db = record db {
  mailboxes = drop_rows (λ m. owns_child db db.mail_domains id m.mail_domain_id) db.mailboxes;
  mail_aliases = drop_rows (λ a. owns_child db db.mail_domains id a.parent_id) db.mail_aliases;
  mail_domains = drop_rows (λ m. owns_domain db id m.domain_id) db.mail_domains;
}

abbrev delete_dns : ℕ → Db → Db
delete_dns id db = record db {
  domain_aliases = drop_rows (λ a. owns_domain db id a.domain_id) db.domain_aliases;
  dns_records = drop_rows (λ r. owns_child db db.dns_zones id r.parent_id) db.dns_records;
  dns_zones = drop_rows (λ z. owns_domain db id z.domain_id) db.dns_zones;
  ssl_orders = drop_rows (λ o. owns_domain db id o.domain_id) db.ssl_orders;
}

abbrev delete_owned : ℕ → Db → Db
delete_owned id db = record db {
  containers = drop_rows (λ c. c.user_id == id) db.containers;
  cron_jobs = drop_rows (λ c. c.user_id == id) db.cron_jobs;
  api_tokens = drop_rows (λ t. t.user_id == id) db.api_tokens;
  totp_challenges = drop_rows (λ t. t.user_id == id) db.totp_challenges;
  suspension_actions = drop_rows (λ a. a.user_id == id) db.suspension_actions;
  domains = drop_rows (λ d. d.user_id == id) db.domains;
  ftp_accounts = drop_rows (λ f. f.user_id == id) db.ftp_accounts;
  databases = drop_rows (λ d. d.user_id == id) db.databases;
  sessions = drop_rows (λ s. s.user_id == id) db.sessions;
  users = drop_rows (λ u. u.id == id) db.users;
}

unfoldable pub delete_user : Env → ℕ → M (Unit {0})
delete_user e id = exec e Op.delete_user (λ db. delete_owned id (delete_dns id (delete_mail id db)))
