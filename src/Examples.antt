-- ===== src/Examples.antt =====
-- Concrete inputs: a request with its libraries, and a small server with an administrator and a
-- customer.
pub mod Logins
pub mod Accounts
pub mod Requests
pub mod Rewrites
pub mod Scripts
pub mod Panels
pub mod SignIns
pub mod Runs
pub mod Crontabs
use aegis_hosting_control_pa.Base.{
  ℕ, ◌*◌, String, Bool, true, false, Option, none, some, List, [], ◌∷◌, same, ltb, ◌==◌, ◌&&◌,
  append, if◌then◌else◌,
}
use aegis_hosting_control_pa.Env.{Env, Claims}
use aegis_hosting_control_pa.Store.Schema.{
  User, Db, Domain, DomainChild, Mailbox, empty_db, role_admin, role_user, status_active,
}
use aegis_hosting_control_pa.Auth.Totp.{Mac}
use aegis_hosting_control_pa.Auth.Manager.{Manager}

abbrev pub noon : ℕ
noon = 1_700_000_000_000_000_000

abbrev pub hour : ℕ
hour = 3600 * 1_000_000_000

-- The customer's account: its password is "right", its one backup code "ABCDE-FGHJK".
abbrev pub ada : User
ada = record {
  id = 7;
  username = "ada";
  email = "ada@example.org";
  password_hash = "$right";
  role = role_user;
  package_id = 1;
  status = status_active;
  owner_id = 0;
  home_dir = "/home/ada";
  quota_disk_bytes = 1000;
  quota_bandwidth_bytes = 0;
  created_at = 5;
  updated_at = 5;
  totp_secret = "";
  totp_enabled = false;
  totp_backup_codes = some ("$ABCDE-FGHJK" ∷ []);
  suspended_by_quota = false;
}

abbrev pub root : User
root = record ada { id = 1; username = "root"; role = role_admin }

abbrev pub server : Db
server = record empty_db {
  users = root ∷ ada ∷ [];
  domains = record { id = 3; user_id = 7; domain = "example.org" } ∷ [];
  mail_domains = record { id = 4; domain_id = 3 } ∷ [];
  mailboxes =
      record { id = 5; mail_domain_id = 4; localpart = "info"; enabled = true }
      ∷ record { id = 6; mail_domain_id = 4; localpart = "old"; enabled = false }
      ∷ [];
}

-- The claims of the session of `root` as `ada` that begins at noon.
abbrev pub noon_claims : Claims
noon_claims = record {
  username = "ada";
  role = role_user;
  impersonator = 1;
  session_id = "0a0b";
  subject = 7;
  issued_at = 1_700_000_000;
  expires_at = 1_700_003_600;
  issuer = "aegis";
}

abbrev pub is_noon : Claims → Bool
is_noon c =
    same c.username "ada"
    && same c.role role_user
    && c.impersonator == 1
    && same c.session_id "0a0b"
    && c.subject == 7
    && c.issued_at == 1_700_000_000
    && c.expires_at == 1_700_003_600
    && same c.issuer "aegis"

abbrev pub sign_sample : Claims → Option String
sign_sample c = if is_noon c then some "noon" else none

abbrev pub parse_sample : ℕ → String → Option Claims
parse_sample now text =
    if same text "noon" && ltb now (1_700_003_600 * 1_000_000_000) then some noon_claims else none

abbrev pub sample_env : Env
sample_env = record {
  now = noon;
  fault = λ _. false;
  session_entropy = some (10 ∷ 11 ∷ []);
  token_entropy = some (1 ∷ 2 ∷ []);
  bcrypt_hash = λ p. some (append "$" p);
  bcrypt_matches = λ h p. same h (append "$" p);
  sign = sign_sample;
  parse_with_claims = parse_sample;
}

-- A later request of the same process.
abbrev pub later : Env
later = record sample_env {
  now = 1_700_000_060_000_000_000;
  session_entropy = some (12 ∷ []);
  sign = λ _. some "other";
}

abbrev pub sample_manager : Env → Manager
sample_manager e = record {
  env = e;
  mac = record { decode_secret = λ _. some (1 ∷ []); hmac_sha1 = λ key message. message };
  ttl = hour;
  new_secret = some "SECRET";
  backup_entropy = some (0 ∷ 1 ∷ []) ∷ [];
}
