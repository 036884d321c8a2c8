-- ===== src/Cron/Execute.antt =====
-- `executeCron` and `readCronResult` of cron.go, as a whole.
pub mod Synced
use cloudpanel_gateway.Cron.Schedule.{Schedule}
use cloudpanel_gateway.Cron.Runner.{
  Operation, cron_list, cron_delete, other_operation, CronRequest, CronSite, Host, Runner,
  php_script, site_executable, node_script, http_request, raw_command, other_runner,
}
use cloudpanel_gateway.Cron.Transaction.{
  JobRow, Metadata, CronState, Faults, fail_if, with_metadata, Written,
}
unfoldable use cloudpanel_gateway.Cron.Transaction.{cron_site_for, jobs_of, statement, publish}
unfoldable use cloudpanel_gateway.Cron.Schedule.{validate_cron_schedule}
unfoldable use cloudpanel_gateway.Cron.Runner.{validate_cron_runner, cron_target}
unfoldable use cloudpanel_gateway.Cron.Render.{render_cron_command}
unfoldable use cloudpanel_gateway.Names.{validate_domain}
use cloudpanel_gateway.Base.{
  ℕ, String, not, ◌||◌, Option, none, some, List, [], ◌∷◌, ◌++◌, ◌==◌, if◌then◌else◌, Bytes, codes,
  bytes_eq, Result, refuse_if, ◌>>=◌, ◌>>◌, ok, err,
}

abbrev runner_name : Runner → Bytes
runner_name php_script = codes "php_script"
runner_name site_executable = codes "site_executable"
runner_name node_script = codes "node_script"
runner_name http_request = codes "http_request"
runner_name raw_command = codes "raw_command"
runner_name other_runner = []

-- A job as an answer shows it.
pub record CronJob : Type 0 where
  pub id : ℕ
  pub schedule : Schedule
  pub runner : Bytes
  pub target : Bytes
  pub command : Bytes
  pub created_at : ℕ
  pub updated_at : ℕ

unfoldable pub cron_job : JobRow → Bytes → Bytes → CronJob
cron_job j runner target = record {
  id = j.id;
  schedule = j.schedule;
  runner = if bytes_eq runner [] then codes "raw_command" else runner;
  target = target;
  command =
      if bytes_eq runner [] then codes "raw_command (redacted)" else runner ++ b':' ∷ b' ' ∷ target;
  created_at = j.created_at;
  updated_at = j.updated_at;
}

with_row : JobRow → Bytes → Option Metadata → CronJob
unfolding cron_job
with_row j domain none = cron_job j [] []
with_row j domain (some m) =
    if bytes_eq m.domain domain
    then cron_job j (runner_name m.runner) m.target
    else cron_job j [] []

-- The rows of the site as `readCronResult` shows them; the stored command is left out.
unfoldable pub read_jobs : Bytes → (ℕ → Option Metadata) → List JobRow → List CronJob
unfolding with_row
read_jobs domain metadata [] = []
read_jobs domain metadata (j ∷ jobs) =
    with_row j domain (metadata j.id) ∷ read_jobs domain metadata jobs

pub record CronResult : Type 0 where
  pub jobs : List CronJob
  pub revision : Bytes
  pub job : Option CronJob

find_job : ℕ → List CronJob → Option CronJob
find_job id [] = none
find_job id (j ∷ jobs) = if j.id == id then some j else find_job id jobs

-- `readCronResult`, with the job that the request was about.
unfoldable pub read_cron_result :
    (Bytes → List CronJob → Bytes) → Option ℕ → Bytes → ℕ → CronState → CronResult
unfolding read_jobs find_job jobs_of
read_cron_result revision id domain site s =
    let jobs = read_jobs domain s.metadata (jobs_of site s.jobs) in
    record {
      jobs = jobs;
      revision = revision domain jobs;
      job = elim id [ none ↦ none | some n ↦ find_job n jobs ];
    }

-- What stands between the revision check and `db.BeginTx`: the command of the job.
unfoldable pub check_operation : Operation → Host → CronRequest → CronSite → Result Bytes
check_operation cron_delete host r site =
    refuse_if (not r.confirm) "cron deletion requires confirm=true" >> ok []
check_operation _ host r site =
    validate_cron_schedule r.schedule
    >> (validate_cron_runner host site r >> render_cron_command host site r)

-- The steps up to the transaction's statement; nothing is kept if one of them fails.
unfoldable pub attempt_write :
    Host
    → (Bytes → List CronJob → Bytes)
    → Faults
    → ℕ
    → CronRequest
    → CronSite
    → CronState
    → Result Written
unfolding check_operation
attempt_write host revision f now r site s =
    let before = read_cron_result revision none r.domain site.id s in
    fail_if f.before
    >> (refuse_if
          (bytes_eq r.if_match_revision [] || not (bytes_eq r.if_match_revision before.revision))
          "cron revision conflict"
        >> (check_operation r.operation host r site >>= λ command.
            fail_if f.begin >> (fail_if f.statement >> statement r.operation r site command now s)))

new_metadata : Operation → CronRequest → Option Metadata
new_metadata cron_delete r = none
new_metadata _ r = some (record { domain = r.domain; runner = r.runner; target = cron_target r })

-- The metadata that goes with the job.
unfoldable pub set_metadata : Option String → CronRequest → ℕ → CronState → CronState
unfolding new_metadata
set_metadata (some e) r id s = s
set_metadata none r id s = record s {
  metadata = with_metadata id (new_metadata r.operation r) s.metadata;
}

-- What follows the transaction: the metadata and the answer.
unfoldable pub finish :
    (Bytes → List CronJob → Bytes)
    → Faults
    → CronRequest
    → CronSite
    → ℕ
    → Result (Unit {0}) × CronState
    → Result CronResult × CronState
unfolding set_metadata
finish revision f r site id (err e, s) = (err e, s)
finish revision f r site id (ok _, s) =
    let t = set_metadata f.metadata r id s in
    (fail_if f.after >> ok (read_cron_result revision (some id) r.domain site.id t), t)

unfoldable pub publish_attempt :
    (Bytes → List CronJob → Bytes)
    → Faults
    → CronRequest
    → CronSite
    → CronState
    → Result Written
    → Result CronResult × CronState
unfolding finish
publish_attempt revision f r site s (err e) = (err e, s)
publish_attempt revision f r site s (ok w) = finish revision f r site w.id (publish f site w s)

unfoldable pub execute_at :
    Operation
    → Host
    → (Bytes → List CronJob → Bytes)
    → Faults
    → ℕ
    → CronRequest
    → CronState
    → Result CronSite
    → Result CronResult × CronState
unfolding attempt_write publish_attempt
execute_at _ host revision f now r s (err e) = (err e, s)
execute_at cron_list host revision f now r s (ok site) =
    (fail_if f.before >> ok (read_cron_result revision none r.domain site.id s), s)
execute_at other_operation host revision f now r s (ok site) = (err "unsupported cron operation", s)
execute_at _ host revision f now r s (ok site) =
    publish_attempt revision f r site s (attempt_write host revision f now r site s)

-- `executeCron(ctx, c, s, r)`
unfoldable pub execute_cron :
    Host
    → (Bytes → List CronJob → Bytes)
    → Faults
    → ℕ
    → CronRequest
    → CronState
    → Result CronResult × CronState
unfolding execute_at
execute_cron host revision f now r s =
    execute_at r.operation host revision f now r s
      (validate_domain r.domain >> (fail_if f.connect >> cron_site_for r.domain s.sites))
