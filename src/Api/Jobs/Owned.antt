-- ===== src/Api/Jobs/Owned.antt =====
-- Whose jobs and crontab the handlers of internal/api/handlers_cron.go change.
use aegis_hosting_control_pa.Base.{
  Option-cases, inl, inr, first, ap, ◌∙◌, sym, first, Option-cases, arith, ap, sym, ℕ, String, Bool,
  false, Option, none, some, same, ◌≡◌, refl,
}
use mathlib.Core.Path.{subst}
use aegis_hosting_control_pa.Store.Schema.{User, CronJob, Db, role_admin}
use aegis_hosting_control_pa.Store.Result.{Result, ok, err}
use aegis_hosting_control_pa.Cron.{Crond, Tables}
use aegis_hosting_control_pa.Cron.Installed.{
  CronRequest, create, update, toggle, delete, serve_cron, Outcome, serve_cron-Outcome,
}
use aegis_hosting_control_pa.Api.Users.{Caller, audit_as}
use aegis_hosting_control_pa.Base.Rows.{first-passes}
use aegis_hosting_control_pa.Store.Sessions.{append_audit}
use aegis_hosting_control_pa.Store.Cron.{has_job_id, get_cron_job}
use aegis_hosting_control_pa.Api.Jobs.Rows.{foreign}
use aegis_hosting_control_pa.Api.Jobs.Writes.{
  IsKeyed, IsRow, KeepsForeign, update_job-KeepsForeign, toggle_job-KeepsForeign,
  delete_job-KeepsForeign, create_job-KeepsForeign,
}
use aegis_hosting_control_pa.Api.Jobs.{
  JobReply, JobRequest, conclude, with_job, owns_cron_job, job_owner, update_found, toggle_found,
  handle_cron_list, handle_cron_create, handle_cron_update, handle_cron_toggle, handle_cron_delete,
}

-- A request to one of the handlers.
pub data JobCall : Type 0 where
  list_jobs : JobCall
  create_one : Option JobRequest → JobCall
  update_one : Option ℕ → Option JobRequest → JobCall
  toggle_one : Option ℕ → Option Bool → JobCall
  delete_one : Option ℕ → JobCall

abbrev pub serve_job : Crond → Caller → JobCall → Tables → JobReply × Tables
serve_job d c list_jobs = handle_cron_list d c
serve_job d c (create_one body) = handle_cron_create d c body
serve_job d c (update_one id body) = handle_cron_update d c id body
serve_job d c (toggle_one id body) = handle_cron_toggle d c id body
serve_job d c (delete_one id) = handle_cron_delete d c id

-- The account of a caller who is no administrator.
owner-actor :
    (d : Crond) (actor : User) (j : CronJob) (db : Db)
    → same actor.role role_admin ≡ false
    → job_owner d actor j db ≡ actor
unfolding job_owner
owner-actor d actor j db plain = rw plain

-- `ownsCronJob` gives a caller who is no administrator a job of the caller's own, under its own id.
owns_cron_job-IsRow :
    (d : Crond) (actor : User) (id : Option ℕ) (db : Db) (j : CronJob)
    → same actor.role role_admin ≡ false
    → owns_cron_job d actor id db ≡ some j
    → IsRow actor.id j db.cron_jobs
unfolding owns_cron_job get_cron_job
owns_cron_job-IsRow d actor none db j plain h = absurd (ground (arith, h))
owns_cron_job-IsRow d actor (some id) db j plain h =
    elim (Option-cases (first (has_job_id id) db.cron_jobs)) [
      | inl missing ↦ absurd (ground arith)
      | inr (i, found) ↦
          let same_job : i ≡ j = ground arith in
          let listed : first (has_job_id id) db.cron_jobs ≡ some j = ground arith in
          let own_id : j.id ≡ id =
            ground (arith, first-passes (has_job_id id) db.cron_jobs j listed) in
          record {
            found = ap (λ k. first (has_job_id k) db.cron_jobs) own_id ∙ listed;
            own = ground arith;
          }
    ]

module _ (d : Crond) (c : Caller) (plain : same c.actor.role role_admin ≡ false) (name : String)
    (other : same name c.actor.username ≡ false) where
  -- Nothing of another account is changed: not its crontab, and not its jobs.
  abbrev pub Spares : Tables → JobReply × Tables → Type 0
  Spares t r =
      (r.1.crontabs name ≡ t.crontabs name)
      × (foreign c.actor.id r.1.db.cron_jobs ≡ foreign c.actor.id t.db.cron_jobs)

  audit-jobs :
      (action target : String) (db : Db)
      → (audit_as d.env c action target db).cron_jobs ≡ db.cron_jobs
  unfolding append_audit
  audit-jobs action target db = ground arith

  conclude-Spares :
      (bad good : ℕ) (action target : String) (r : Result (Unit {0}) × Tables) (t : Tables)
      → Outcome d c.actor t.crontabs r
      → foreign c.actor.id r.1.db.cron_jobs ≡ foreign c.actor.id t.db.cron_jobs
      → Spares t (conclude d c bad good action target r)
  conclude-Spares bad good action target (err _, t') t h k = (h name, k)
  conclude-Spares bad good action target (ok _, t') t (installed, others) k =
      (others name other, ap (foreign c.actor.id) (audit-jobs action target t'.db) ∙ k)

  -- The operation of the service on the caller's own account, as the handlers call it.
  served-Spares :
      (bad good : ℕ) (action target : String) (j : CronJob) (r : CronRequest) (t : Tables)
      → KeepsForeign d c.actor c.actor.id t (serve_cron d c.actor r t)
      → Spares t
          (conclude d c bad good action target (serve_cron d (job_owner d c.actor j t.db) r t))
  served-Spares bad good action target j r t h =
      subst (λ u. Spares t (conclude d c bad good action target (serve_cron d u r t)))
        (sym (owner-actor d c.actor j t.db plain))
        (conclude-Spares bad good action target _ t (serve_cron-Outcome d c.actor r t) h)

  with-Spares :
      (o : Option CronJob) (next : CronJob → Tables → JobReply × Tables) (t : Tables)
      → ((j : CronJob) → o ≡ some j → Spares t (next j t))
      → Spares t (with_job o next t)
  with-Spares none next t h = (refl, refl)
  with-Spares (some j) next t h = h j refl

  module _ (t : Tables) (keyed : IsKeyed t.db.cron_jobs) where
    update-Spares :
        (body : Option JobRequest) (j : CronJob)
        → IsRow c.actor.id j t.db.cron_jobs
        → Spares t (update_found d c body j t)
    update-Spares none j row = (refl, refl)
    update-Spares (some q) j row =
        served-Spares 400 200 "cron.update" q.schedule j (update j q.schedule q.command) t
          (update_job-KeepsForeign d c.actor c.actor.id t j q.schedule q.command keyed row)

    toggle-Spares :
        (body : Option Bool) (j : CronJob)
        → IsRow c.actor.id j t.db.cron_jobs
        → Spares t (toggle_found d c body j t)
    toggle-Spares none j row = (refl, refl)
    toggle-Spares (some enabled) j row =
        served-Spares 500 200 "cron.toggle" j.schedule j (toggle j enabled) t
          (toggle_job-KeepsForeign d c.actor c.actor.id t j enabled keyed row)

    create-Spares : (body : Option JobRequest) → Spares t (handle_cron_create d c body t)
    unfolding handle_cron_create
    create-Spares none = (refl, refl)
    create-Spares (some q) =
        conclude-Spares 400 201 "cron.create" q.schedule _ t
          (serve_cron-Outcome d c.actor (create q.schedule q.command) t)
          (create_job-KeepsForeign d c.actor t q.schedule q.command)

    -- No request to the handlers of scheduled jobs, by a caller who is no administrator, changes the
    -- crontab of another system account, or changes, adds or removes a job of another account, if the
    -- ids of the stored jobs are a key.
    pub serve_job-Spares : (r : JobCall) → Spares t (serve_job d c r t)
    unfolding handle_cron_list handle_cron_update handle_cron_toggle handle_cron_delete
    serve_job-Spares list_jobs = (refl, refl)
    serve_job-Spares (create_one body) = create-Spares body
    serve_job-Spares (update_one id body) =
        with-Spares (owns_cron_job d c.actor id t.db) _ t
          (λ j own. update-Spares body j (owns_cron_job-IsRow d c.actor id t.db j plain own))
    serve_job-Spares (toggle_one id body) =
        with-Spares (owns_cron_job d c.actor id t.db) _ t
          (λ j own. toggle-Spares body j (owns_cron_job-IsRow d c.actor id t.db j plain own))
    serve_job-Spares (delete_one id) = with-Spares (owns_cron_job d c.actor id t.db) _ t (λ j own.
        served-Spares 500 200 "cron.delete" j.schedule j (delete j) t (
          delete_job-KeepsForeign d c.actor c.actor.id t j keyed
            (owns_cron_job-IsRow d c.actor id t.db j plain own)))
