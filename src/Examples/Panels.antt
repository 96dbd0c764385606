-- ===== src/Examples/Panels.antt =====
-- Runs of the account handlers and of the packages.
use aegis_hosting_control_pa.Base.{arith, true, false, none, some, [], ◌∷◌, count_rows, arith, refl}
use aegis_hosting_control_pa.Store.Schema.{User, Package, Db, role_reseller}
use aegis_hosting_control_pa.Store.Packages.Defaults.{Tidy, create, change, change-Tidy}
use aegis_hosting_control_pa.Suspension.Suspender.{State}
use aegis_hosting_control_pa.Api.Access.{api_claims}
use aegis_hosting_control_pa.Api.Users.{Caller, Panel}
use aegis_hosting_control_pa.Api.Users.Scope.{IsWithin}
use aegis_hosting_control_pa.Api.Users.Requests.{Request, update, serve, serve-IsWithin}
use aegis_hosting_control_pa.Examples.{ada, server, sample_env, sample_manager}
use aegis_hosting_control_pa.Examples.Accounts.{calm_host}

abbrev basic : Package
basic = record {
  id = 1;
  name = "basic";
  description = "";
  max_domains = 1;
  max_databases = 1;
  max_ftp_accounts = 1;
  disk_quota_bytes = 1000;
  bandwidth_quota_bytes = 0;
  allow_ssl = true;
  allow_dns = true;
  allow_terminal = false;
  allow_backups = true;
  allow_mail = true;
  allow_webmail = true;
  allow_databases = true;
  allow_files = true;
  allow_ftp = true;
  allow_cron = true;
  allow_docker = false;
  max_containers = 0;
  is_default = true;
  created_at = 5;
}

abbrev pub shop : Db
shop = record server { packages = basic ∷ []; last_package_id = 1 }

abbrev large : Package
large = record basic { name = "large" }

change-Tidy_example : Tidy (change sample_env (create large) shop)
unfolding count_rows
change-Tidy_example =
    change-Tidy sample_env (create large) shop refl
      (record { counted = (omega arith, tt); keyed = λ k. ground arith; one = omega arith })

abbrev reseller : User
reseller = record ada { id = 9; username = "rose"; role = role_reseller }

abbrev sample_panel : Panel
sample_panel = record {
  manager = sample_manager sample_env;
  suspender = some calm_host;
  home_root = "/home";
  provision = λ _ _. true;
  create_ftp = λ _ db. db;
}

abbrev rose : Caller
rose = record { actor = reseller; claims = api_claims reseller; ip = "192.0.2.1" }

abbrev resting : State
resting = record { db = shop; calls = []; applied = λ _. false }

-- A reseller asks to make an account an administrator.
abbrev promotion : Request
promotion =
    update (some 7)
      (some (record { email = none; role = some "admin"; package_id = none; status = none }))

serve-IsWithin_example :
    IsWithin reseller shop.users (serve sample_panel rose promotion resting).1.db.users
serve-IsWithin_example = serve-IsWithin sample_panel rose (λ _ _. refl) promotion resting
