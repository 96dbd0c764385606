-- ===== src/Cron/Installed.antt =====
-- The crontabs are those that the stored jobs describe.
use aegis_hosting_control_pa.Base.{
  String, Bool, false, Option, some, List, same, of_if, ◌≡◌, refl, eq_refl,
}
use aegis_hosting_control_pa.Env.{Op}
use aegis_hosting_control_pa.Store.Schema.{User, CronJob, Db}
use aegis_hosting_control_pa.Store.Result.{Result, ok, err}
use aegis_hosting_control_pa.Store.Cron.{jobs_of, list_cron_jobs}
use aegis_hosting_control_pa.Cron.{
  Crond, Tables, Plan, crontab_text, install, write_listed, write_crontab, then_write, validate,
  create_planned, update_planned, create_job, update_job, toggle_job, delete_job, resume_jobs,
}

-- A request to the service.
pub data CronRequest : Type 0 where
  create : String → String → CronRequest
  update : CronJob → String → String → CronRequest
  toggle : CronJob → Bool → CronRequest
  delete : CronJob → CronRequest
  resume : CronRequest

abbrev pub serve_cron : Crond → User → CronRequest → Tables → Result (Unit {0}) × Tables
serve_cron c u (create schedule command) = create_job c u schedule command
serve_cron c u (update j schedule command) = update_job c u j schedule command
serve_cron c u (toggle j enabled) = toggle_job c u j enabled
serve_cron c u (delete j) = delete_job c u j
serve_cron c u resume = resume_jobs c u

module _ (c : Crond) (u : User) where
  -- The crontab of the account is what its stored jobs describe.
  abbrev pub IsInstalled : Tables → Type 0
  IsInstalled t = t.crontabs u.username ≡ some (crontab_text c u (jobs_of u.id t.db))

  -- A success leaves that crontab and those of the other accounts, an error every crontab.
  abbrev pub Outcome : (String → Option String) → Result (Unit {0}) × Tables → Type 0
  Outcome tables (ok _, t) =
      IsInstalled t
      × ((name : String) → same name u.username ≡ false → t.crontabs name ≡ tables name)
  Outcome tables (err _, t) = (name : String) → t.crontabs name ≡ tables name

  install-Outcome :
      (t : Tables) → Outcome t.crontabs (install c u (crontab_text c u (jobs_of u.id t.db)) t)
  install-Outcome t =
      of_if {A = Result (Unit {0}) × Tables} (Outcome t.crontabs)
        (c.can_install u.username (crontab_text c u (jobs_of u.id t.db))) _ _
        (rw (eq_refl u.username), λ name other. rw other) (λ name. refl)

  write-Outcome : (t : Tables) → Outcome t.crontabs (write_crontab c u t)
  unfolding write_crontab list_cron_jobs
  write-Outcome t =
      of_if {A = Result (List CronJob) × Db} (λ r. Outcome t.crontabs (write_listed c u r.0 t))
        (c.env.fault Op.list_cron_jobs) _ _ (λ name. refl) (install-Outcome t)

  then-Outcome :
      {A : Type 0} (r : Result A) (db : Db) (t : Tables)
      → Outcome t.crontabs (then_write c u (r, db) t)
  then-Outcome (err _) db t = λ name. refl
  then-Outcome (ok _) db t = write-Outcome (record t { db = db })

  create-Outcome : (p : Result Plan) (t : Tables) → Outcome t.crontabs (create_planned c u p t)
  create-Outcome (err _) t = λ name. refl
  create-Outcome (ok p) t = then-Outcome _ _ t

  update-Outcome :
      (j : CronJob) (p : Result Plan) (t : Tables) → Outcome t.crontabs (update_planned c u j p t)
  update-Outcome j (err _) t = λ name. refl
  update-Outcome j (ok p) t = then-Outcome _ _ t

  -- Every operation on the jobs of an account that succeeds leaves the crontab which the stored jobs
  -- of the account describe, and no other account's changed; one that fails leaves every crontab as
  -- it was.
  pub serve_cron-Outcome : (r : CronRequest) (t : Tables) → Outcome t.crontabs (serve_cron c u r t)
  unfolding create_job update_job toggle_job delete_job resume_jobs
  serve_cron-Outcome (create schedule command) t = create-Outcome (validate c u schedule command) t
  serve_cron-Outcome (update j schedule command) t =
      update-Outcome j (validate c u schedule command) t
  serve_cron-Outcome (toggle j enabled) t = then-Outcome _ _ t
  serve_cron-Outcome (delete j) t = then-Outcome _ _ t
  serve_cron-Outcome resume t = write-Outcome t
