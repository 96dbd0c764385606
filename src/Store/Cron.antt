-- ===== src/Store/Cron.antt =====
-- internal/store/cron.go: the table of cron jobs. Its rows stand in the order of their ids.
use aegis_hosting_control_pa.Base.{
  ℕ, suc, Bool, List, [], ◌∷◌, ◌++◌, ltb, ◌==◌, if◌then◌else◌, keep, first, update_rows, drop_rows,
}
use aegis_hosting_control_pa.Env.{Env, Op}
use aegis_hosting_control_pa.Store.Schema.{CronJob, Db}
use aegis_hosting_control_pa.Store.Result.{ok, err, database, M, exec, query, query_row}
use aegis_hosting_control_pa.Store.Users.{seconds, row_or_not_found}

abbrev pub has_job_id : ℕ → CronJob → Bool
has_job_id id j = j.id == id

-- The returned row is the struct with its new id and time.
unfoldable pub create_cron_job : Env → CronJob → M CronJob
create_cron_job e j db =
    let row = record j { id = suc db.last_cron_job_id; created_at = seconds e.now } in
    if e.fault Op.create_cron_job
    then (err database, db)
    else (ok row, record db { cron_jobs = db.cron_jobs ++ row ∷ []; last_cron_job_id = row.id })

-- The jobs of one user, or of all where the id is 0.
abbrev pub jobs_of : ℕ → Db → List CronJob
jobs_of user_id db =
    if ltb 0 user_id then keep (λ j. j.user_id == user_id) db.cron_jobs else db.cron_jobs

unfoldable pub list_cron_jobs : Env → ℕ → M (List CronJob)
list_cron_jobs e user_id = query e Op.list_cron_jobs (jobs_of user_id)

unfoldable pub get_cron_job : Env → ℕ → M CronJob
get_cron_job e id =
    query_row e Op.get_cron_job (λ db. row_or_not_found (first (has_job_id id) db.cron_jobs))

abbrev pub write_job : CronJob → CronJob → CronJob
write_job j row = record row {
  schedule = j.schedule;
  command = j.command;
  log_path = j.log_path;
  enabled = j.enabled;
}

unfoldable pub update_cron_job : Env → CronJob → M (Unit {0})
update_cron_job e j =
    exec e Op.update_cron_job
      (λ db. record db { cron_jobs = update_rows (has_job_id j.id) (write_job j) db.cron_jobs })

unfoldable pub delete_cron_job : Env → ℕ → M (Unit {0})
delete_cron_job e id =
    exec e Op.delete_cron_job
      (λ db. record db { cron_jobs = drop_rows (has_job_id id) db.cron_jobs })
