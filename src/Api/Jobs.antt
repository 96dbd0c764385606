-- ===== src/Api/Jobs.antt =====
-- The handlers of internal/api/handlers_cron.go. A body is what readJSON made of it, an id what
-- pathID made of it, `none` if it is invalid. A reply leaves out the job that it shows.
pub mod Rows
pub mod Writes
pub mod Owned
use aegis_hosting_control_pa.Base.{
  ℕ, String, Bool, Option, none, some, List, ◌&&◌, ◌||◌, not, ◌==◌, same, if◌then◌else◌,
}
use aegis_hosting_control_pa.Env.{Env}
use aegis_hosting_control_pa.Store.Schema.{User, CronJob, Db, role_admin}
use aegis_hosting_control_pa.Store.Result.{Result, ok, err}
use aegis_hosting_control_pa.Store.Users.{get_user_by_id}
use aegis_hosting_control_pa.Store.Cron.{list_cron_jobs, get_cron_job}
use aegis_hosting_control_pa.Cron.{Crond, Tables, create_job, update_job, toggle_job, delete_job}
use aegis_hosting_control_pa.Api.Users.{Caller, audit_as}

pub data JobReply : Type 0 where
  rejected : ℕ → JobReply
  listing : List CronJob → JobReply
  accepted : ℕ → JobReply

pub record JobRequest : Type 0 where
  pub schedule : String
  pub command : String

abbrev pub listing_or : Result (List CronJob) → JobReply
listing_or (err _) = rejected 500
listing_or (ok jobs) = listing jobs

-- `handleCronList`
unfoldable pub handle_cron_list : Crond → Caller → Tables → JobReply × Tables
handle_cron_list d c t =
    let id = if same c.actor.role role_admin then 0 else c.actor.id in
    (listing_or (list_cron_jobs d.env id t.db).0, t)

-- The end of a handler: the status of an error, or the audit entry and a status.
abbrev pub conclude :
    Crond → Caller → ℕ → ℕ → String → String → Result (Unit {0}) × Tables → JobReply × Tables
conclude d c bad good action target (err _, t) = (rejected bad, t)
conclude d c bad good action target (ok _, t) =
    (accepted good, record t { db = audit_as d.env c action target t.db })

-- `handleCronCreate`
unfoldable pub handle_cron_create : Crond → Caller → Option JobRequest → Tables → JobReply × Tables
handle_cron_create d c none t = (rejected 400, t)
handle_cron_create d c (some q) t =
    conclude d c 400 201 "cron.create" q.schedule (create_job d c.actor q.schedule q.command t)

abbrev pub if_owned : User → Result CronJob → Option CronJob
if_owned actor (err _) = none
if_owned actor (ok j) =
    if not (j.user_id == actor.id) && not (same actor.role role_admin) then none else some j

-- `ownsCronJob`
unfoldable pub owns_cron_job : Crond → User → Option ℕ → Db → Option CronJob
owns_cron_job d actor none db = none
owns_cron_job d actor (some id) db = if_owned actor (get_cron_job d.env id db).0

abbrev pub user_or : User → Result User → User
user_or u (err _) = u
user_or u (ok v) = v

-- The account whose crontab is written.
unfoldable pub job_owner : Crond → User → CronJob → Db → User
job_owner d actor j db =
    if same actor.role role_admin && not (actor.id == j.user_id)
    then user_or actor (get_user_by_id d.env j.user_id db).0
    else actor

abbrev pub with_job :
    Option CronJob → (CronJob → Tables → JobReply × Tables) → Tables → JobReply × Tables
with_job none next t = (rejected 404, t)
with_job (some j) next t = next j t

abbrev pub update_found : Crond → Caller → Option JobRequest → CronJob → Tables → JobReply × Tables
update_found d c none j t = (rejected 400, t)
update_found d c (some q) j t =
    conclude d c 400 200 "cron.update" q.schedule
      (update_job d (job_owner d c.actor j t.db) j q.schedule q.command t)

-- `handleCronUpdate`
unfoldable pub handle_cron_update :
    Crond → Caller → Option ℕ → Option JobRequest → Tables → JobReply × Tables
handle_cron_update d c id body t =
    with_job (owns_cron_job d c.actor id t.db) (update_found d c body) t

abbrev pub toggle_found : Crond → Caller → Option Bool → CronJob → Tables → JobReply × Tables
toggle_found d c none j t = (rejected 400, t)
toggle_found d c (some enabled) j t =
    conclude d c 500 200 "cron.toggle" j.schedule
      (toggle_job d (job_owner d c.actor j t.db) j enabled t)

-- `handleCronToggle`
unfoldable pub handle_cron_toggle :
    Crond → Caller → Option ℕ → Option Bool → Tables → JobReply × Tables
handle_cron_toggle d c id body t =
    with_job (owns_cron_job d c.actor id t.db) (toggle_found d c body) t

abbrev pub delete_found : Crond → Caller → CronJob → Tables → JobReply × Tables
delete_found d c j t =
    conclude d c 500 200 "cron.delete" j.schedule (delete_job d (job_owner d c.actor j t.db) j t)

-- `handleCronDelete`
unfoldable pub handle_cron_delete : Crond → Caller → Option ℕ → Tables → JobReply × Tables
handle_cron_delete d c id t = with_job (owns_cron_job d c.actor id t.db) (delete_found d c) t
