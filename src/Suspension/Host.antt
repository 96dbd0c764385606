-- ===== src/Suspension/Host.antt =====
-- What `Suspender` asks of the host (`s.run`, that is usermod, docker and pkill) and of the panel's
-- other services, in the order of the calls. An answer may depend on every call before it; `none` is
-- an error. The services keep state of their own and are not modelled here.
use aegis_hosting_control_pa.Base.{ℕ, String, Bool, Option, none, some, List, [], ◌∷◌, ◌++◌}
use aegis_hosting_control_pa.Store.Result.{Result, ok, err}

pub data Call : Type 0 where
  -- usermod -L, usermod -U, pkill -KILL -u
  lock_login unlock_login kill_processes : String → Call
  -- docker inspect, docker stop, docker start, docker update --restart=policy
  inspect stop start : ℕ → Call
  update_restart : ℕ → String → Call
  revoke_web_ftp apply_domain pause_cron resume_cron : ℕ → Call
  set_locked : ℕ → Bool → Call

pub data Warning : Type 0 where
  list_domains : Warning
  domain mailbox_record mailbox_disable mailbox_enable container_stop container_start : ℕ → Warning
  database : ℕ → Warning
  crontab : Warning

pub record Host : Type 0 where
  pub answer : List Call → Call → Option String
  -- which services are configured (`s.WebFTP != nil` and the like)
  pub has_web_ftp : Bool
  pub has_domains : Bool
  pub has_cron : Bool
  pub has_databases : Bool

-- The calls so far, and the warnings of the report.
pub record Out : Type 0 where
  pub calls : List Call
  pub warnings : List Warning

abbrev pub no_out : Out
no_out = record { calls = []; warnings = [] }

abbrev pub warn : Warning → Out → Out
warn w out = record out { warnings = out.warnings ++ w ∷ [] }

-- The call is made, and its answer dropped.
abbrev pub run : Host → Call → Out → Out
run h c out = record out { calls = out.calls ++ c ∷ [] }

abbrev pub reply : Host → Call → Out → Option String
reply h c out = h.answer out.calls c

abbrev pub warn_on_error : Option String → Warning → Out → Out
warn_on_error none w out = warn w out
warn_on_error (some _) w out = out

-- A call whose error becomes a warning.
unfoldable pub try : Host → Call → Warning → Out → Out
try h c w out = warn_on_error (reply h c out) w (run h c out)

unfoldable pub for_each {ℓ} : {A : Type ℓ} → (A → Out → Out) → List A → Out → Out
for_each f [] out = out
for_each f (x ∷ xs) out = for_each f xs (f x out)

-- The rows of a query, none where it failed.
abbrev pub rows_or_none : {A : Type 0} → Result (List A) → List A
rows_or_none (ok xs) = xs
rows_or_none (err _) = []

abbrev pub warn_on_failure : {A : Type 0} → Result A → Warning → Out → Out
warn_on_failure (ok _) w out = out
warn_on_failure (err _) w out = warn w out
