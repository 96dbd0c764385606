-- ===== src/Store/Schema.antt =====
-- The tables of internal/store: the row structs of models.go, and of the tables that have no struct
-- the columns that the program reads. A timestamp column is RFC 3339 text in UTC with seconds, whose
-- order is that of the seconds since 1970, which stand here. A JSON column is the value it encodes.
-- int64 keys are positive (AUTOINCREMENT), so 0 stands for "no row" as in the source.
use aegis_hosting_control_pa.Base.{ℕ, String, Bool, Option, List, []}

pub record User : Type 0 where
  pub id : ℕ
  pub username : String
  pub email : String
  pub password_hash : String
  pub role : String
  pub package_id : ℕ
  pub status : String
  pub owner_id : ℕ
  pub home_dir : String
  pub quota_disk_bytes : ℕ
  pub quota_bandwidth_bytes : ℕ
  pub created_at : ℕ
  pub updated_at : ℕ
  pub totp_secret : String
  pub totp_enabled : Bool
  -- `none` is the empty column; `some hashes` the JSON array
  pub totp_backup_codes : Option (List String)
  pub suspended_by_quota : Bool

abbrev pub role_admin : String
role_admin = "admin"

abbrev pub role_reseller : String
role_reseller = "reseller"

abbrev pub role_user : String
role_user = "user"

abbrev pub status_active : String
status_active = "active"

abbrev pub status_suspended : String
status_suspended = "suspended"

-- A row of `sessions`, and of `totp_challenges`, which has the same columns.
pub record Session : Type 0 where
  pub id : String
  pub user_id : ℕ
  pub expires_at : ℕ
  pub created_at : ℕ

pub record LoginAttempt : Type 0 where
  pub username : String
  pub ip : String
  pub success : Bool
  pub created_at : ℕ

pub record ApiToken : Type 0 where
  pub id : ℕ
  pub user_id : ℕ
  pub label : String
  pub token_hash : String
  pub scopes : String
  pub last_used_at : Option ℕ
  pub expires_at : Option ℕ
  pub created_at : ℕ

pub record Package : Type 0 where
  pub id : ℕ
  pub name : String
  pub description : String
  pub max_domains : ℕ
  pub max_databases : ℕ
  pub max_ftp_accounts : ℕ
  pub disk_quota_bytes : ℕ
  pub bandwidth_quota_bytes : ℕ
  pub allow_ssl : Bool
  pub allow_dns : Bool
  pub allow_terminal : Bool
  pub allow_backups : Bool
  pub allow_mail : Bool
  pub allow_webmail : Bool
  pub allow_databases : Bool
  pub allow_files : Bool
  pub allow_ftp : Bool
  pub allow_cron : Bool
  pub allow_docker : Bool
  -- 0 is no limit
  pub max_containers : ℕ
  pub is_default : Bool
  pub created_at : ℕ

pub record Domain : Type 0 where
  pub id : ℕ
  pub user_id : ℕ
  pub domain : String

-- A row that belongs to a domain: `domain_aliases`, `dns_zones`, `ssl_orders`, `mail_domains`.
pub record DomainChild : Type 0 where
  pub id : ℕ
  pub domain_id : ℕ

-- A row of `dns_records` (of a zone) or `mail_aliases` (of a mail domain).
pub record Leaf : Type 0 where
  pub id : ℕ
  pub parent_id : ℕ

pub record Mailbox : Type 0 where
  pub id : ℕ
  pub mail_domain_id : ℕ
  pub localpart : String
  pub enabled : Bool

pub record Container : Type 0 where
  pub id : ℕ
  pub user_id : ℕ
  pub name : String
  pub restart_policy : String

pub record FtpAccount : Type 0 where
  pub id : ℕ
  pub user_id : ℕ
  pub username : String
  pub enabled : Bool

pub record CronJob : Type 0 where
  pub id : ℕ
  pub user_id : ℕ
  pub schedule : String
  pub command : String
  pub log_path : String
  pub enabled : Bool
  pub created_at : ℕ

-- A row of `databases`.
pub record Owned : Type 0 where
  pub id : ℕ
  pub user_id : ℕ

pub data SuspendKind : Type 0 where
  mailbox container : SuspendKind

pub record SuspensionAction : Type 0 where
  pub user_id : ℕ
  pub kind : SuspendKind
  pub ref : ℕ

pub record AuditEntry : Type 0 where
  pub actor_id : ℕ
  pub actor_name : String
  pub action : String
  pub target : String
  pub ip : String

pub record Db : Type 0 where
  pub users : List User
  pub packages : List Package
  pub sessions : List Session
  pub totp_challenges : List Session
  pub login_attempts : List LoginAttempt
  pub api_tokens : List ApiToken
  pub domains : List Domain
  pub domain_aliases : List DomainChild
  pub dns_zones : List DomainChild
  pub dns_records : List Leaf
  pub ssl_orders : List DomainChild
  pub mail_domains : List DomainChild
  pub mailboxes : List Mailbox
  pub mail_aliases : List Leaf
  pub containers : List Container
  pub cron_jobs : List CronJob
  pub ftp_accounts : List FtpAccount
  pub databases : List Owned
  pub suspension_actions : List SuspensionAction
  pub audit_log : List AuditEntry
  -- the AUTOINCREMENT counters of `users`, `packages`, `api_tokens` and `cron_jobs`
  pub last_user_id : ℕ
  pub last_package_id : ℕ
  pub last_token_id : ℕ
  pub last_cron_job_id : ℕ

abbrev pub empty_db : Db
empty_db = record {
  users = [];
  packages = [];
  sessions = [];
  totp_challenges = [];
  login_attempts = [];
  api_tokens = [];
  domains = [];
  domain_aliases = [];
  dns_zones = [];
  dns_records = [];
  ssl_orders = [];
  mail_domains = [];
  mailboxes = [];
  mail_aliases = [];
  containers = [];
  cron_jobs = [];
  ftp_accounts = [];
  databases = [];
  suspension_actions = [];
  audit_log = [];
  last_user_id = 0;
  last_package_id = 0;
  last_token_id = 0;
  last_cron_job_id = 0;
}
