-- ===== src/Cron/Schedules.antt =====
-- The schedules of the stored jobs.
use aegis_hosting_control_pa.Base.{
  String, Bool, true, List, [], ◌∷◌, ◌++◌, not, same, trim_space, update_rows, All, of_if, of_test,
  ◌≡◌, arith,
}
use aegis_hosting_control_pa.Base.Rows.{All-keep}
use aegis_hosting_control_pa.Env.{Op}
use aegis_hosting_control_pa.Store.Schema.{User, CronJob, Db}
use aegis_hosting_control_pa.Store.Result.{Result, ok, err}
use aegis_hosting_control_pa.Store.Cron.{
  has_job_id, write_job, list_cron_jobs, create_cron_job, update_cron_job, delete_cron_job,
}
use aegis_hosting_control_pa.Cron.{
  Crond, Tables, Plan, fields, resolve_command, plan_of, install, crontab_text, write_listed,
  write_crontab, then_write, validate, new_job, with_plan, create_planned, update_planned,
  valid_schedule, create_job, update_job, toggle_job, delete_job, resume_jobs,
}
use aegis_hosting_control_pa.Cron.Installed.{
  CronRequest, create, update, toggle, delete, resume, serve_cron,
}

abbrev IsTimed : CronJob → Type 0
IsTimed j = valid_schedule j.schedule ≡ true

-- Every stored job has a schedule of five fields.
abbrev pub IsScheduled : List CronJob → Type 0
IsScheduled js = All IsTimed js

append-IsScheduled :
    (js : List CronJob) (j : CronJob) → IsScheduled js → IsTimed j → IsScheduled (js ++ j ∷ [])
append-IsScheduled [] j h k = (k, tt)
append-IsScheduled (i ∷ js) j (h, hs) k = (h, append-IsScheduled js j hs k)

update-IsScheduled :
    (p : CronJob → Bool) (j : CronJob) (js : List CronJob)
    → IsScheduled js
    → IsTimed j
    → IsScheduled (update_rows p (write_job j) js)
unfolding update_rows
update-IsScheduled p j [] h k = tt
update-IsScheduled p j (i ∷ js) (h, hs) k =
    (of_if {A = CronJob} IsTimed (p i) _ _ k h, update-IsScheduled p j js hs k)

module _ (c : Crond) (u : User) where
  abbrev Scheduled : Result (Unit {0}) × Tables → Type 0
  Scheduled r = IsScheduled r.1.db.cron_jobs

  install-Scheduled :
      (text : String) (t : Tables) → IsScheduled t.db.cron_jobs → Scheduled (install c u text t)
  install-Scheduled text t h =
      of_if {A = Result (Unit {0}) × Tables} Scheduled (c.can_install u.username text) _ _ h h

  listed-Scheduled :
      (r : Result (List CronJob)) (t : Tables)
      → IsScheduled t.db.cron_jobs
      → Scheduled (write_listed c u r t)
  listed-Scheduled (err _) t h = h
  listed-Scheduled (ok jobs) t h = install-Scheduled (crontab_text c u jobs) t h

  write-Scheduled : (t : Tables) → IsScheduled t.db.cron_jobs → Scheduled (write_crontab c u t)
  unfolding write_crontab
  write-Scheduled t h = listed-Scheduled (list_cron_jobs c.env u.id t.db).0 t h

  then-Scheduled :
      {A : Type 0} (r : Result A) (db : Db) (t : Tables)
      → IsScheduled db.cron_jobs
      → Scheduled (then_write c u (r, db) t)
  then-Scheduled (err _) db t h = h
  then-Scheduled (ok _) db t h = write-Scheduled (record t { db = db }) h

  -- What `validate` lets through has a valid schedule.
  abbrev IsPlanned : Result Plan → Type 0
  IsPlanned (err _) = Unit
  IsPlanned (ok p) = valid_schedule p.schedule ≡ true

  plan-IsPlanned :
      (schedule : String) (command : Result String)
      → valid_schedule schedule ≡ true
      → IsPlanned (plan_of c u schedule command)
  plan-IsPlanned schedule (err _) h = tt
  plan-IsPlanned schedule (ok _) h = h

  validate-IsPlanned : (schedule command : String) → IsPlanned (validate c u schedule command)
  unfolding validate
  validate-IsPlanned schedule command =
      let timing = trim_space schedule in
      let text = trim_space command in
      of_test {A = Result Plan} IsPlanned (not (valid_schedule timing)) _ _ (λ _. tt)
        (λ valid.
          of_if {A = Result Plan} IsPlanned (same text "") _ _ tt
            (plan-IsPlanned timing (resolve_command c u text (fields text)) (ground arith)))

  update_row-Scheduled :
      (j : CronJob) (t : Tables)
      → IsScheduled t.db.cron_jobs
      → IsTimed j
      → Scheduled (then_write c u (update_cron_job c.env j t.db) t)
  unfolding update_cron_job
  update_row-Scheduled j t h k =
      of_if {A = Result (Unit {0}) × Db} (λ r. Scheduled (then_write c u r t))
        (c.env.fault Op.update_cron_job) _ _ h
        (then-Scheduled {A = Unit {0}} (ok tt) _ t
          (update-IsScheduled (has_job_id j.id) j t.db.cron_jobs h k))

  create-Scheduled :
      (p : Result Plan) (t : Tables)
      → IsScheduled t.db.cron_jobs
      → IsPlanned p
      → Scheduled (create_planned c u p t)
  unfolding create_cron_job
  create-Scheduled (err _) t h k = h
  create-Scheduled (ok p) t h k =
      of_if {A = Result CronJob × Db} (λ r. Scheduled (then_write c u r t))
        (c.env.fault Op.create_cron_job) _ _ h
        (then-Scheduled {A = CronJob} (ok (new_job u p)) _ t
          (append-IsScheduled t.db.cron_jobs _ h k))

  update-Scheduled :
      (j : CronJob) (p : Result Plan) (t : Tables)
      → IsScheduled t.db.cron_jobs
      → IsPlanned p
      → Scheduled (update_planned c u j p t)
  update-Scheduled j (err _) t h k = h
  update-Scheduled j (ok p) t h k = update_row-Scheduled (with_plan p j) t h k

  delete-Scheduled :
      (j : CronJob) (t : Tables) → IsScheduled t.db.cron_jobs → Scheduled (delete_job c u j t)
  unfolding delete_job delete_cron_job
  delete-Scheduled j t h =
      of_if {A = Result (Unit {0}) × Db} (λ r. Scheduled (then_write c u r t))
        (c.env.fault Op.delete_cron_job) _ _ h
        (then-Scheduled {A = Unit {0}} (ok tt) _ t (
          All-keep IsTimed IsTimed (λ i. not (has_job_id j.id i)) t.db.cron_jobs
            (λ i timed _. timed) h))

  -- The job that a toggle is given, which was read from the table, has a valid schedule.
  abbrev pub IsSound : CronRequest → Type 0
  IsSound (toggle j enabled) = IsTimed j
  IsSound (create schedule command) = Unit
  IsSound (update j schedule command) = Unit
  IsSound (delete j) = Unit
  IsSound resume = Unit

  -- Every operation on the jobs keeps the invariant that each stored job has a valid schedule of five
  -- fields, whatever text it is given and whatever fails, if a job that is toggled has one.
  pub serve_cron-IsScheduled :
      (r : CronRequest) (t : Tables)
      → IsScheduled t.db.cron_jobs
      → IsSound r
      → IsScheduled (serve_cron c u r t).1.db.cron_jobs
  unfolding create_job update_job toggle_job resume_jobs
  serve_cron-IsScheduled (create schedule command) t h k =
      create-Scheduled (validate c u schedule command) t h (validate-IsPlanned schedule command)
  serve_cron-IsScheduled (update j schedule command) t h k =
      update-Scheduled j (validate c u schedule command) t h (validate-IsPlanned schedule command)
  serve_cron-IsScheduled (toggle j enabled) t h k =
      update_row-Scheduled (record j { enabled = enabled }) t h k
  serve_cron-IsScheduled (delete j) t h k = delete-Scheduled j t h
  serve_cron-IsScheduled resume t h k = write-Scheduled t h
