-- ===== src/Cron.antt =====
-- internal/svc/cron.go: the scheduled jobs of the accounts, and the crontab that is written from
-- them. The commands of the host and Files.Resolve are parameters. Home directories are absolute.
pub mod Installed
pub mod Schedules
use Prim.Native.Char.{code}
use aegis_hosting_control_pa.Base.{
  ℕ, String, Bool, true, false, Option, none, some, List, [], ◌∷◌, ◌&&◌, ◌||◌, not, ltb, leb, ◌==◌,
  same, if◌then◌else◌, append, length, is_space, trim_space, has_prefix,
}
use aegis_hosting_control_pa.Env.{Env}
use aegis_hosting_control_pa.Store.Schema.{User, CronJob, Db}
use aegis_hosting_control_pa.Store.Result.{
  Error, Result, ok, err, bad_schedule, no_command, bad_path, command_failed,
}
use aegis_hosting_control_pa.Store.Cron.{
  create_cron_job, list_cron_jobs, update_cron_job, delete_cron_job,
}
use aegis_hosting_control_pa.Htaccess.Text.{trim_prefix, join, clean_rooted}

-- The rest of a word, and the words behind it.
abbrev add_char : String → Bool → List String → List String
add_char c true ws = c ∷ ws
add_char c false [] = c ∷ []
add_char c false (w ∷ ws) = append c w ∷ ws

starts_space : String → Bool
starts_space String.[] = true
starts_space (String.◌∷◌ c s) = is_space (code c)

-- strings.Fields
unfoldable pub fields : String → List String
unfolding starts_space
fields String.[] = []
fields (String.◌∷◌ c s) =
    let rest = fields s in
    if is_space (code c) then rest else add_char (String.◌∷◌ c "") (starts_space s) rest

-- [0-9*/,-]
abbrev is_field_char : ℕ → Bool
is_field_char c = (leb 0x30 c && leb c 0x39) || c == 0x2a || c == 0x2f || c == 0x2c || c == 0x2d

-- `cronFieldRe`, whose `+` the words of strings.Fields always satisfy
unfoldable pub is_cron_field : String → Bool
is_cron_field String.[] = false
is_cron_field (String.◌∷◌ c String.[]) = is_field_char (code c)
is_cron_field (String.◌∷◌ c (String.◌∷◌ d s)) =
    let rest = is_cron_field (String.◌∷◌ d s) in is_field_char (code c) && rest

unfoldable pub all_fields : List String → Bool
all_fields [] = true
all_fields (f ∷ fs) = is_cron_field f && all_fields fs

-- `ValidSchedule`
unfoldable pub valid_schedule : String → Bool
valid_schedule s = length (fields s) == 5 && all_fields (fields s)

-- What the service asks of the panel and of the host.
pub record Crond : Type 0 where
  pub env : Env
  -- `Cfg.HomeRoot`
  pub home_root : String
  -- `Files.Resolve`
  pub resolve_path : User → String → Option String
  -- whether crontab is there, the file can be written and `crontab -u` takes this text
  pub can_install : String → String → Bool
  -- whether `crontab -r -u` succeeds
  pub can_remove : String → Bool

-- The database, and the crontab of each system account, `none` where there is none.
pub record Tables : Type 0 where
  pub db : Db
  pub crontabs : String → Option String

abbrev pub home_of : Crond → User → String
home_of c u =
    if same u.home_dir ""
    then clean_rooted (append c.home_root (append "/" u.username))
    else u.home_dir

abbrev pub default_log : Crond → User → String
default_log c u = clean_rooted (append (home_of c u) "/logs/cron")

abbrev pub replace_first : Option String → List String → Result String
replace_first none fs = err bad_path
replace_first (some path) [] = ok path
replace_first (some path) (f ∷ fs) = ok (join " " (path ∷ fs))

-- A first word that looks like a path is resolved inside the home directory.
abbrev pub resolve_command : Crond → User → String → List String → Result String
resolve_command c u command [] = ok command
resolve_command c u command (f ∷ fs) =
    if has_prefix f "/" || has_prefix f "./"
    then replace_first (c.resolve_path u (trim_prefix f (home_of c u))) (f ∷ fs)
    else ok command

-- What `validate` returns: the schedule, the command and the path of the log.
pub record Plan : Type 0 where
  pub schedule : String
  pub command : String
  pub log_path : String

abbrev pub plan_of : Crond → User → String → Result String → Result Plan
plan_of c u schedule (err error) = err error
plan_of c u schedule (ok command) =
    ok (record { schedule = schedule; command = command; log_path = default_log c u })

unfoldable pub validate : Crond → User → String → String → Result Plan
validate c u raw_schedule raw_command =
    let schedule = trim_space raw_schedule in
    let command = trim_space raw_command in
    if not (valid_schedule schedule)
    then err bad_schedule
    else if same command ""
    then err no_command
    else plan_of c u schedule (resolve_command c u command (fields command))

-- One line for each job that is enabled.
abbrev pub job_line : Crond → User → CronJob → String
job_line c u j =
    let log = if same j.log_path "" then default_log c u else j.log_path in
    append j.schedule (append " " (append j.command (append " >> " (append log " 2>&1\n"))))

unfoldable pub job_lines : Crond → User → List CronJob → String
job_lines c u [] = ""
job_lines c u (j ∷ js) =
    if j.enabled then append (job_line c u j) (job_lines c u js) else job_lines c u js

abbrev pub crontab_text : Crond → User → List CronJob → String
crontab_text c u js =
    append "# Managed by Aegis. Do not edit by hand; changes are overwritten.\n" (job_lines c u js)

abbrev pub set_table : String → Option String → (String → Option String) → String → Option String
set_table name text tables other = if same other name then text else tables other

abbrev pub install : Crond → User → String → Tables → Result (Unit {0}) × Tables
install c u text t =
    if c.can_install u.username text
    then (ok tt, record t { crontabs = set_table u.username (some text) t.crontabs })
    else (err command_failed, t)

abbrev pub write_listed : Crond → User → Result (List CronJob) → Tables → Result (Unit {0}) × Tables
write_listed c u (err error) t = (err error, t)
write_listed c u (ok jobs) t = install c u (crontab_text c u jobs) t

-- `writeCrontab`
unfoldable pub write_crontab : Crond → User → Tables → Result (Unit {0}) × Tables
write_crontab c u t = write_listed c u (list_cron_jobs c.env u.id t.db).0 t

-- The crontab is written when the statement before it has worked.
abbrev pub then_write :
    {A : Type 0} → Crond → User → Result A × Db → Tables → Result (Unit {0}) × Tables
then_write c u (err error, db) t = (err error, record t { db = db })
then_write c u (ok _, db) t = write_crontab c u (record t { db = db })

abbrev pub new_job : User → Plan → CronJob
new_job u p = record {
  id = 0;
  user_id = u.id;
  schedule = p.schedule;
  command = p.command;
  log_path = p.log_path;
  enabled = true;
  created_at = 0;
}

abbrev pub create_planned : Crond → User → Result Plan → Tables → Result (Unit {0}) × Tables
create_planned c u (err error) t = (err error, t)
create_planned c u (ok p) t = then_write c u (create_cron_job c.env (new_job u p) t.db) t

-- `Create`; the job that it returns is left out.
unfoldable pub create_job : Crond → User → String → String → Tables → Result (Unit {0}) × Tables
create_job c u schedule command = create_planned c u (validate c u schedule command)

abbrev pub with_plan : Plan → CronJob → CronJob
with_plan p j = record j { schedule = p.schedule; command = p.command; log_path = p.log_path }

abbrev pub update_planned :
    Crond → User → CronJob → Result Plan → Tables → Result (Unit {0}) × Tables
update_planned c u j (err error) t = (err error, t)
update_planned c u j (ok p) t = then_write c u (update_cron_job c.env (with_plan p j) t.db) t

-- `Update`
unfoldable pub update_job :
    Crond → User → CronJob → String → String → Tables → Result (Unit {0}) × Tables
update_job c u j schedule command = update_planned c u j (validate c u schedule command)

-- `Toggle`
unfoldable pub toggle_job : Crond → User → CronJob → Bool → Tables → Result (Unit {0}) × Tables
toggle_job c u j enabled t =
    then_write c u (update_cron_job c.env (record j { enabled = enabled }) t.db) t

-- `Delete`
unfoldable pub delete_job : Crond → User → CronJob → Tables → Result (Unit {0}) × Tables
delete_job c u j t = then_write c u (delete_cron_job c.env j.id t.db) t

-- `Pause`; the answer of crontab -r is dropped.
unfoldable pub pause : Crond → User → Tables → Result (Unit {0}) × Tables
pause c u t = (
  ok tt,
  if c.can_remove u.username
      then record t { crontabs = set_table u.username none t.crontabs }
      else t,
)

-- `Resume`
unfoldable pub resume_jobs : Crond → User → Tables → Result (Unit {0}) × Tables
resume_jobs c u = write_crontab c u
