-- ===== src/Examples/Crontabs.antt =====
-- Runs of the service for scheduled jobs.
use aegis_hosting_control_pa.Base.{
  arith, count_rows, false, true, none, some, [], ◌∷◌, ◌≡◌, refl, append,
}
use aegis_hosting_control_pa.Store.Schema.{CronJob}
use aegis_hosting_control_pa.Cron.{Crond, Tables, valid_schedule, fields, all_fields, is_cron_field}
use aegis_hosting_control_pa.Cron.Installed.{create, serve_cron, Outcome, serve_cron-Outcome}
use aegis_hosting_control_pa.Cron.Schedules.{IsScheduled, serve_cron-IsScheduled}
use aegis_hosting_control_pa.Api.Access.{api_claims}
use aegis_hosting_control_pa.Api.Users.{Caller}
use aegis_hosting_control_pa.Api.Jobs.Owned.{Spares, toggle_one, serve_job, serve_job-Spares}
use aegis_hosting_control_pa.Api.Jobs.Writes.{IsKeyed}
use aegis_hosting_control_pa.Examples.{ada, server, sample_env}

abbrev sample_crond : Crond
sample_crond = record {
  env = sample_env;
  home_root = "/home";
  resolve_path = λ u path. some (append u.home_dir path);
  can_install = λ _ _. true;
  can_remove = λ _. true;
}

abbrev nightly : CronJob
nightly = record {
  id = 1;
  user_id = 7;
  schedule = "0 3 * * *";
  command = "php backup.php";
  log_path = "";
  enabled = true;
  created_at = 5;
}

abbrev planned : Tables
planned = record {
  db = record server { cron_jobs = nightly ∷ []; last_cron_job_id = 1 };
  crontabs = λ _. none;
}

valid_schedule_run : valid_schedule "*/5 0,12 1-7 * *" ≡ true
unfolding valid_schedule fields all_fields is_cron_field
valid_schedule_run = refl

serve_cron-Outcome_example :
    Outcome sample_crond ada planned.crontabs
      (serve_cron sample_crond ada (create " */5 * * * * " "/bin/sync now") planned)
serve_cron-Outcome_example =
    serve_cron-Outcome sample_crond ada (create " */5 * * * * " "/bin/sync now") planned

serve_cron-IsScheduled_example :
    IsScheduled
      (serve_cron sample_crond ada (create " */5 * * * * " "/bin/sync now") planned).1.db.cron_jobs
unfolding valid_schedule fields all_fields is_cron_field
serve_cron-IsScheduled_example =
    serve_cron-IsScheduled sample_crond ada (create " */5 * * * * " "/bin/sync now") planned
      (refl, tt) tt

abbrev ada_calls : Caller
ada_calls = record { actor = ada; claims = api_claims ada; ip = "192.0.2.7" }

one_nightly : IsKeyed planned.db.cron_jobs
unfolding count_rows
one_nightly id = ground arith

serve_job-Spares_example :
    Spares sample_crond ada_calls refl "root" refl planned
      (serve_job sample_crond ada_calls (toggle_one (some 1) (some false)) planned)
serve_job-Spares_example =
    serve_job-Spares sample_crond ada_calls refl "root" refl planned one_nightly
      (toggle_one (some 1) (some false))
