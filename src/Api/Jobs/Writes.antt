-- ===== src/Api/Jobs/Writes.antt =====
-- What the operations of internal/svc/cron.go leave of the jobs of the other accounts.
use aegis_hosting_control_pa.Base.{
  some, ℕ, String, Bool, true, List, ◌==◌, ◌≤◌, ◌≡◌, ◌∙◌, refl, ap, of_if, first, count_rows,
  ==_refl,
}
use aegis_hosting_control_pa.Env.{Op}
use aegis_hosting_control_pa.Store.Schema.{User, CronJob, Db}
use aegis_hosting_control_pa.Store.Result.{Result, ok, err}
use aegis_hosting_control_pa.Store.Cron.{
  has_job_id, list_cron_jobs, create_cron_job, update_cron_job, delete_cron_job,
}
use aegis_hosting_control_pa.Cron.{
  Crond, Tables, Plan, install, write_listed, write_crontab, then_write, crontab_text, new_job,
  with_plan, create_planned, update_planned, create_job, update_job, toggle_job, delete_job,
  validate,
}
use aegis_hosting_control_pa.Api.Jobs.Rows.{foreign, foreign-update, foreign-drop, foreign-append}

-- The ids of the table are a key.
abbrev pub IsKeyed : List CronJob → Type 0
IsKeyed js = (id : ℕ) → count_rows (has_job_id id) js ≤ 1

-- The job j is the row under its id, and belongs to the account.
pub record IsRow (id : ℕ) (j : CronJob) (js : List CronJob) : Type 0 where
  pub found : first (has_job_id j.id) js ≡ some j
  pub own : (j.user_id == id) ≡ true

module _ (d : Crond) (u : User) where
  install-db : (text : String) (t : Tables) → (install d u text t).1.db ≡ t.db
  install-db text t =
      of_if {A = Result (Unit {0}) × Tables} (λ r. r.1.db ≡ t.db) (d.can_install u.username text) _
        _ refl refl

  listed-db : (r : Result (List CronJob)) (t : Tables) → (write_listed d u r t).1.db ≡ t.db
  listed-db (err _) t = refl
  listed-db (ok jobs) t = install-db (crontab_text d u jobs) t

  write-db : (t : Tables) → (write_crontab d u t).1.db ≡ t.db
  unfolding write_crontab
  write-db t = listed-db (list_cron_jobs d.env u.id t.db).0 t

  module _ (id : ℕ) (t : Tables) where
    abbrev pub KeepsForeign : Result (Unit {0}) × Tables → Type 0
    KeepsForeign r = foreign id r.1.db.cron_jobs ≡ foreign id t.db.cron_jobs

    then-KeepsForeign :
        {A : Type 0} (r : Result A) (db : Db)
        → foreign id db.cron_jobs ≡ foreign id t.db.cron_jobs
        → KeepsForeign (then_write d u (r, db) t)
    then-KeepsForeign (err _) db h = h
    then-KeepsForeign (ok _) db h =
        ap (λ (b : Db). foreign id b.cron_jobs) (write-db (record t { db = db })) ∙ h

    update-KeepsForeign :
        (j w : CronJob)
        → w.id ≡ j.id
        → IsKeyed t.db.cron_jobs
        → IsRow id j t.db.cron_jobs
        → KeepsForeign (then_write d u (update_cron_job d.env w t.db) t)
    unfolding update_cron_job
    update-KeepsForeign j w same_id keyed row =
        of_if {A = Result (Unit {0}) × Db} (λ r. KeepsForeign (then_write d u r t))
          (d.env.fault Op.update_cron_job) _ _ refl
          (then-KeepsForeign {A = Unit {0}} (ok tt) _ (
            rw same_id (
              foreign-update (has_job_id j.id) id w j t.db.cron_jobs (keyed j.id) row.found
                row.own)))

    planned-KeepsForeign :
        (j : CronJob) (p : Result Plan)
        → IsKeyed t.db.cron_jobs
        → IsRow id j t.db.cron_jobs
        → KeepsForeign (update_planned d u j p t)
    planned-KeepsForeign j (err _) keyed row = refl
    planned-KeepsForeign j (ok p) keyed row = update-KeepsForeign j (with_plan p j) refl keyed row

    pub update_job-KeepsForeign :
        (j : CronJob) (schedule command : String)
        → IsKeyed t.db.cron_jobs
        → IsRow id j t.db.cron_jobs
        → KeepsForeign (update_job d u j schedule command t)
    unfolding update_job
    update_job-KeepsForeign j schedule command keyed row =
        planned-KeepsForeign j (validate d u schedule command) keyed row

    pub toggle_job-KeepsForeign :
        (j : CronJob) (enabled : Bool)
        → IsKeyed t.db.cron_jobs
        → IsRow id j t.db.cron_jobs
        → KeepsForeign (toggle_job d u j enabled t)
    unfolding toggle_job
    toggle_job-KeepsForeign j enabled keyed row =
        update-KeepsForeign j (record j { enabled = enabled }) refl keyed row

    pub delete_job-KeepsForeign :
        (j : CronJob)
        → IsKeyed t.db.cron_jobs
        → IsRow id j t.db.cron_jobs
        → KeepsForeign (delete_job d u j t)
    unfolding delete_job delete_cron_job
    delete_job-KeepsForeign j keyed row =
        of_if {A = Result (Unit {0}) × Db} (λ r. KeepsForeign (then_write d u r t))
          (d.env.fault Op.delete_cron_job) _ _ refl
          (then-KeepsForeign {A = Unit {0}} (ok tt) _
            (foreign-drop (has_job_id j.id) id j t.db.cron_jobs (keyed j.id) row.found row.own))

  created-KeepsForeign :
      (t : Tables) (p : Result Plan) → KeepsForeign u.id t (create_planned d u p t)
  unfolding create_cron_job
  created-KeepsForeign t (err _) = refl
  created-KeepsForeign t (ok p) =
      of_if {A = Result CronJob × Db} (λ r. KeepsForeign u.id t (then_write d u r t))
        (d.env.fault Op.create_cron_job) _ _ refl
        (then-KeepsForeign u.id t {A = CronJob} (ok (new_job u p)) _
          (foreign-append u.id _ t.db.cron_jobs (==_refl u.id)))

  pub create_job-KeepsForeign :
      (t : Tables) (schedule command : String)
      → KeepsForeign u.id t (create_job d u schedule command t)
  unfolding create_job
  create_job-KeepsForeign t schedule command =
      created-KeepsForeign t (validate d u schedule command)
