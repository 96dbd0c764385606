-- ===== src/Examples/Accounts.antt =====
-- Runs of the account operations on the sample server.
use aegis_hosting_control_pa.Base.{first, All, true, false, ◌≡◌, refl, some, [], ◌∷◌, any}
use aegis_hosting_control_pa.Env.{Env}
use aegis_hosting_control_pa.Store.Schema.{status_suspended}
use aegis_hosting_control_pa.Store.Delete.{delete_user}
use aegis_hosting_control_pa.Store.Delete.Orphans.{IsLinked, is_user, delete_user-IsLinked}
use aegis_hosting_control_pa.Suspension.Host.{Host, no_out}
use aegis_hosting_control_pa.Suspension.Lift.{lift}
use aegis_hosting_control_pa.Suspension.Suspender.{State, reconcile_all}
use aegis_hosting_control_pa.Suspension.Suspender.Rounds.{IsSettled, reconcile_all-IsSettled}
use aegis_hosting_control_pa.Store.Users.{has_id}
use aegis_hosting_control_pa.Suspension.Quota.{enforce_user}
use aegis_hosting_control_pa.Suspension.Quota.Verdict.{judged, enforce_user-judged}
use aegis_hosting_control_pa.Suspension.Restore.{Works}
use aegis_hosting_control_pa.Suspension.Roundtrip.{enforce_each, lift-enforce-mailboxes}
use aegis_hosting_control_pa.Examples.{root, ada, server, sample_env, later}

server-IsLinked : IsLinked server
unfolding any
server-IsLinked = record {
  domains = (refl, tt);
  mail_domains = (refl, tt);
  domain_aliases = tt;
  dns_zones = tt;
  ssl_orders = tt;
  mailboxes = (refl, (refl, tt));
  mail_aliases = tt;
  dns_records = tt;
  containers = tt;
  cron_jobs = tt;
  api_tokens = tt;
  totp_challenges = tt;
  suspension_actions = tt;
  ftp_accounts = tt;
  databases = tt;
  sessions = tt;
}

delete_user-IsLinked_example :
    IsLinked (delete_user sample_env 7 server).1
    × (is_user (delete_user sample_env 7 server).1 7 ≡ false)
delete_user-IsLinked_example = delete_user-IsLinked sample_env 7 server refl server-IsLinked

-- A host whose commands all succeed, with every service configured.
abbrev pub calm_host : Host
calm_host = record {
  answer = λ calls c. some "true";
  has_web_ftp = true;
  has_domains = true;
  has_cron = true;
  has_databases = true;
}

sample-Works : (e : Env) → ((op : _) → e.fault op ≡ false) → Works e
sample-Works e f = record { records = λ id. f _; switches = λ id. f _ }

lift-enforce-mailboxes_example :
    (lift calm_host later ada (
      enforce_each ada
        ((calm_host, sample_env) ∷ (calm_host, later) ∷ [])
        (server, no_out))).0.mailboxes
    ≡ server.mailboxes
unfolding any
lift-enforce-mailboxes_example =
    lift-enforce-mailboxes ada ((calm_host, sample_env) ∷ (calm_host, later) ∷ []) calm_host later
      server no_out (sample-Works sample_env (λ op. refl), (sample-Works later (λ op. refl), tt))
      (sample-Works later (λ op. refl)) refl
      (((λ h. refl), ((λ h. cc), tt)), (((λ h. cc), ((λ h. refl), tt)), tt)) (λ id. refl)

-- A process that has just started, and an account suspended by hand before.
abbrev just_started : State
just_started = record {
  db = record server {
    users = root ∷ record ada { status = status_suspended } ∷ [];
    sessions =
        record { id = "0c"; user_id = 7; expires_at = 1_700_003_600; created_at = 1_700_000_000 }
        ∷ [];
  };
  calls = [];
  applied = λ _. false;
}

reconcile_all-IsSettled_example :
    All
      (λ u.
        IsSettled later just_started
          (reconcile_all calm_host later (root ∷ ada ∷ []) just_started)
          u.id)
      (root ∷ ada ∷ [])
reconcile_all-IsSettled_example =
    reconcile_all-IsSettled calm_host later refl refl just_started (root ∷ ada ∷ [])

-- The account takes 2000 bytes of its 1000.
enforce_user-judged_example :
    first (has_id 7) (enforce_user later (λ _. some 2000) ada server).users
    ≡ some (judged later (some 2000) ada)
unfolding first
enforce_user-judged_example =
    enforce_user-judged later ada server refl refl refl refl (λ _. some 2000)
