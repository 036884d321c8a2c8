-- ===== src/Cron/Transaction.antt =====
-- `executeCron` of cron.go: the checks, the SQL transaction on CloudPanel's `cron_job` table and the
-- rewrite of the file below /etc/cron.d between the statement and the commit. The steps that can
-- fail from outside are the fields of `Faults`. `revision` is `cronRevision` of the rows read.
pub mod Sync
use cloudpanel_gateway.Cron.Schedule.{Schedule}
use cloudpanel_gateway.Cron.Runner.{
  CronRequest, CronSite, Operation, Runner, cron_create, cron_update, cron_delete,
}
use cloudpanel_gateway.Cron.Render.{CronLine}
unfoldable use cloudpanel_gateway.Cron.Render.{render_cron_file}
unfoldable use cloudpanel_gateway.Names.{site_user_re}
use cloudpanel_gateway.Base.{
  ℕ, suc, String, not, ◌&&◌, ◌||◌, Option, none, some, List, [], ◌∷◌, ◌++◌, leb, ◌==◌,
  if◌then◌else◌, Bytes, bytes_eq, length, Result, ◌>>◌, ok, err,
}

-- A row of `cron_job`; the table is kept in the order of `id`.
pub record JobRow : Type 0 where
  pub id : ℕ
  pub site_id : ℕ
  pub schedule : Schedule
  pub command : Bytes
  pub created_at : ℕ
  pub updated_at : ℕ

-- A row of the gateway's `cron_metadata`.
pub record Metadata : Type 0 where
  pub domain : Bytes
  pub runner : Runner
  pub target : Bytes

-- CloudPanel's tables, the gateway's metadata by job, and the file of each site user.
pub record CronState : Type 0 where
  pub sites : List CronSite
  pub jobs : List JobRow
  pub next_id : ℕ
  pub metadata : ℕ → Option Metadata
  pub cron_file : Bytes → Option Bytes

-- The steps that fail, each with its message. `restore` is the write-back of the file after a
-- failed commit, and `metadata` the write
-- of the metadata; the program drops the errors of both.
pub record Faults : Type 0 where
  pub connect : Option String
  pub before : Option String
  pub begin : Option String
  pub statement : Option String
  pub query_jobs : Option String
  pub read_file : Option String
  pub write_file : Option String
  pub commit : Option String
  pub restore : Option String
  pub metadata : Option String
  pub after : Option String

abbrev pub fail_if : Option String → Result (Unit {0})
fail_if none = ok tt
fail_if (some e) = err e

-- A site whose row is `id`.
unfoldable pub user_of : ℕ → List CronSite → Option Bytes
user_of id [] = none
user_of id (s ∷ sites) = if s.id == id then some s.user else user_of id sites

unfoldable pub site_of : Bytes → List CronSite → Option CronSite
site_of domain [] = none
site_of domain (s ∷ sites) = if bytes_eq s.domain domain then some s else site_of domain sites

-- `cronSiteFor(ctx, db, domain)`
unfoldable pub cron_site_for : Bytes → List CronSite → Result CronSite
unfolding site_of
cron_site_for domain sites = elim (site_of domain sites) [
  | none ↦ err "CloudPanel site not found"
  | some s ↦
      if not (site_user_re s.user) || bytes_eq s.root []
      then err "unsupported CloudPanel cron schema or site"
      else ok s
]

unfoldable pub jobs_of : ℕ → List JobRow → List JobRow
jobs_of site [] = []
jobs_of site (j ∷ jobs) =
    let rest = jobs_of site jobs in if j.site_id == site then j ∷ rest else rest

unfoldable pub line_if : Bytes → JobRow → Option Bytes → List CronLine → List CronLine
line_if user j none lines = lines
line_if user j (some u) lines =
    if bytes_eq u user
    then record { schedule = j.schedule; user = u; command = j.command } ∷ lines
    else lines

-- `cronJobsForUser(ctx, tx, user)`
unfoldable pub cron_jobs_for_user : List CronSite → List JobRow → Bytes → List CronLine
unfolding user_of line_if
cron_jobs_for_user sites [] user = []
cron_jobs_for_user sites (j ∷ jobs) user =
    line_if user j (user_of j.site_id sites) (cron_jobs_for_user sites jobs user)

-- `UPDATE … WHERE id=? AND site_id=?`
unfoldable pub update_job : ℕ → ℕ → Schedule → Bytes → ℕ → List JobRow → List JobRow
update_job id site schedule command now [] = []
update_job id site schedule command now (j ∷ jobs) =
    let rest = update_job id site schedule command now jobs in
    if j.id == id && j.site_id == site
    then record j { schedule = schedule; command = command; updated_at = now } ∷ rest
    else j ∷ rest

-- `DELETE … WHERE id=? AND site_id=?`
unfoldable pub delete_job : ℕ → ℕ → List JobRow → List JobRow
delete_job id site [] = []
delete_job id site (j ∷ jobs) =
    let rest = delete_job id site jobs in if j.id == id && j.site_id == site then rest else j ∷ rest

-- `RowsAffected()`
unfoldable pub matching : ℕ → ℕ → List JobRow → ℕ
matching id site [] = 0
matching id site (j ∷ jobs) =
    let rest = matching id site jobs in if j.id == id && j.site_id == site then suc rest else rest

abbrev pub max_cron_jobs : ℕ
max_cron_jobs = 100

abbrev pub with_file : Bytes → Option Bytes → (Bytes → Option Bytes) → Bytes → Option Bytes
with_file user content files u = if bytes_eq user u then content else files u

abbrev pub with_metadata : ℕ → Option Metadata → (ℕ → Option Metadata) → ℕ → Option Metadata
with_metadata id m metadata k = if k == id then m else metadata k

abbrev pub new_job : CronRequest → CronSite → Bytes → ℕ → CronState → JobRow
new_job r site command now s = record {
  id = s.next_id;
  site_id = site.id;
  schedule = r.schedule;
  command = command;
  created_at = now;
  updated_at = now;
}

-- What the transaction wrote: the number of the job, the next number and the rows it sees.
pub record Written : Type 0 where
  pub id : ℕ
  pub next_id : ℕ
  pub jobs : List JobRow

-- The `switch r.Operation` inside the transaction: the number of the job and the rows that the
-- transaction sees.
unfoldable pub statement :
    Operation → CronRequest → CronSite → Bytes → ℕ → CronState → Result Written
unfolding update_job delete_job matching jobs_of
statement cron_create r site command now s =
    if leb max_cron_jobs (length (jobs_of site.id s.jobs))
    then err "site cron job limit (100) reached"
    else ok (record {
      id = s.next_id;
      next_id = suc s.next_id;
      jobs = s.jobs ++ new_job r site command now s ∷ [];
    })
statement cron_update r site command now s =
    if r.job_id == 0
    then err "invalid cron job ID"
    else if not (matching r.job_id site.id s.jobs == 1)
    then err "cron job not found"
    else ok (record {
      id = r.job_id;
      next_id = s.next_id;
      jobs = update_job r.job_id site.id r.schedule command now s.jobs;
    })
statement cron_delete r site command now s =
    if r.job_id == 0
    then err "invalid cron job ID"
    else if not (matching r.job_id site.id s.jobs == 1)
    then err "cron job not found"
    else ok
        (record { id = r.job_id; next_id = s.next_id; jobs = delete_job r.job_id site.id s.jobs })
statement _ r site command now s = err "unsupported cron operation"

-- `tx.Commit()`. The new file is in place; on an error it is put back, or stays if that fails too.
unfoldable pub committed :
    Faults → CronSite → Written → Bytes → CronState → Result (Unit {0}) × CronState
committed f site w text s = elim f.commit [
  | some e ↦ elim f.restore [
    | none ↦ (err e, s)
    | some _ ↦ (err e, record s { cron_file = with_file site.user (some text) s.cron_file })
  ]
  | none ↦ (
    ok tt,
    record s {
      jobs = w.jobs;
      next_id = w.next_id;
      cron_file = with_file site.user (some text) s.cron_file;
    },
  )
]

-- The rows that the transaction leaves, written to the user's file and then committed.
unfoldable pub publish : Faults → CronSite → Written → CronState → Result (Unit {0}) × CronState
publish f site w s =
    let text = render_cron_file (cron_jobs_for_user s.sites w.jobs site.user) in
    elim (fail_if f.query_jobs >> (fail_if f.read_file >> fail_if f.write_file)) [
      | err e ↦ (err e, s)
      | ok _ ↦ committed f site w text s
    ]
