-- ===== src/Cron/Transaction/Sync.antt =====
-- The rows that a user's file is rendered from, across the transaction.
use mathlib.Core.Path.{subst}
use cloudpanel_gateway.Cron.Schedule.{Schedule}
use cloudpanel_gateway.Cron.Runner.{
  CronRequest, CronSite, Operation, cron_list, cron_create, cron_update, cron_delete,
  other_operation,
}
use cloudpanel_gateway.Cron.Render.{CronLine}
unfoldable use cloudpanel_gateway.Cron.Render.{render_cron_file}
use cloudpanel_gateway.Cron.Transaction.{
  JobRow, CronState, Faults, Written, max_cron_jobs, fail_if, with_file, jobs_of, new_job, matching,
}
unfoldable use cloudpanel_gateway.Cron.Transaction.{
  cron_jobs_for_user, line_if, user_of, statement, update_job, delete_job, publish, committed,
}
use cloudpanel_gateway.Base.{
  ℕ, String, ◌≡◌, refl, inl, inr, Bool, true, false, not, ◌&&◌, none, some, List, [], ◌∷◌, ◌++◌,
  arith, leb, ◌==◌, if◌then◌else◌, ==_self, Bool-cases, Option-cases, &&-eq-true, Bytes, bytes_eq,
  bytes_eq→≡, length, ◌>>◌, Result-cases, ok, err,
}

-- The file of a user is what the rows of the user's sites render to.
abbrev pub IsSynced : CronState → Bytes → Type 0
IsSynced s u = s.cron_file u ≡ some (render_cron_file (cron_jobs_for_user s.sites s.jobs u))

module _ (sites : List CronSite) (site : ℕ) (owner u : Bytes)
    (owned : user_of site sites ≡ some owner) (other : bytes_eq owner u ≡ false) where
  own-line :
      (j : JobRow) (lines : List CronLine)
      → (j.site_id == site) ≡ true
      → line_if u j (user_of j.site_id sites) lines ≡ lines
  unfolding line_if
  own-line j lines e = rw (same, owned, other) refl
    where
      same : j.site_id ≡ site
      same = ground arith

  jobs-append :
      (jobs : List JobRow) (j : JobRow)
      → (j.site_id == site) ≡ true
      → cron_jobs_for_user sites (jobs ++ j ∷ []) u ≡ cron_jobs_for_user sites jobs u
  unfolding cron_jobs_for_user
  jobs-append [] j e = own-line j [] e
  jobs-append (k ∷ jobs) j e = rw (jobs-append jobs j e) refl

  jobs-update_job :
      (id : ℕ) (schedule : Schedule) (command : Bytes) (now : ℕ) (jobs : List JobRow)
      → cron_jobs_for_user sites (update_job id site schedule command now jobs) u
        ≡ cron_jobs_for_user sites jobs u
  unfolding cron_jobs_for_user update_job
  jobs-update_job id schedule command now [] = refl
  jobs-update_job id schedule command now (j ∷ jobs) =
      elim (Bool-cases (j.id == id && j.site_id == site)) [
        | inl e ↦
            rw
              (
                e,
                own-line (record j { schedule = schedule; command = command; updated_at = now })
                    (cron_jobs_for_user sites (update_job id site schedule command now jobs) u)
                    (&&-eq-true (j.id == id) (j.site_id == site) e).1,
                own-line j (cron_jobs_for_user sites jobs u)
                    (&&-eq-true (j.id == id) (j.site_id == site) e).1,
              )
              (jobs-update_job id schedule command now jobs)
        | inr e ↦ rw (e, jobs-update_job id schedule command now jobs) refl
      ]

  jobs-delete_job :
      (id : ℕ) (jobs : List JobRow)
      → cron_jobs_for_user sites (delete_job id site jobs) u ≡ cron_jobs_for_user sites jobs u
  unfolding cron_jobs_for_user delete_job
  jobs-delete_job id [] = refl
  jobs-delete_job id (j ∷ jobs) = elim (Bool-cases (j.id == id && j.site_id == site)) [
    | inl e ↦
        rw
          (
            e,
            own-line j (cron_jobs_for_user sites jobs u)
                (&&-eq-true (j.id == id) (j.site_id == site) e).1,
          )
          (jobs-delete_job id jobs)
    | inr e ↦ rw (e, jobs-delete_job id jobs) refl
  ]

ok-injective : (a b : Written) → ok a ≡ ok b → a ≡ b
ok-injective a b h = cc

-- The rows of an answer that passed two guards.
guarded :
    (sites : List CronSite) (u : Bytes) (a b : Bool) (e₁ e₂ : String) (v w : Written)
    (rows : List CronLine)
    → (if a then err e₁ else if b then err e₂ else ok v) ≡ ok w
    → cron_jobs_for_user sites v.jobs u ≡ rows
    → cron_jobs_for_user sites w.jobs u ≡ rows
guarded sites u true b e₁ e₂ v w rows h k = cc
guarded sites u false true e₁ e₂ v w rows h k = cc
guarded sites u false false e₁ e₂ v w rows h k =
    subst (λ x. cron_jobs_for_user sites (Written.jobs x) u ≡ rows) (ok-injective v w h) k

-- A statement on the rows of one site leaves the other users' rows alone.
jobs-statement :
    (op : Operation) (r : CronRequest) (site : CronSite) (command : Bytes) (now : ℕ) (s : CronState)
    (w : Written) (u : Bytes)
    → user_of site.id s.sites ≡ some site.user
    → bytes_eq site.user u ≡ false
    → statement op r site command now s ≡ ok w
    → cron_jobs_for_user s.sites w.jobs u ≡ cron_jobs_for_user s.sites s.jobs u
unfolding statement
jobs-statement cron_create r site command now s w u owned other h =
    guarded s.sites u (leb max_cron_jobs (length (jobs_of site.id s.jobs))) false _ "" _ w _ h (
      jobs-append s.sites site.id site.user u owned other s.jobs (new_job r site command now s)
        (==_self site.id))
jobs-statement cron_update r site command now s w u owned other h =
    guarded s.sites u (r.job_id == 0) (not (matching r.job_id site.id s.jobs == 1)) _ _ _ w _ h (
      jobs-update_job s.sites site.id site.user u owned other r.job_id r.schedule command now
        s.jobs)
jobs-statement cron_delete r site command now s w u owned other h =
    guarded s.sites u (r.job_id == 0) (not (matching r.job_id site.id s.jobs == 1)) _ _ _ w _ h
      (jobs-delete_job s.sites site.id site.user u owned other r.job_id s.jobs)
jobs-statement cron_list r site command now s w u owned other h = cc
jobs-statement other_operation r site command now s w u owned other h = cc

-- The new file in place, of the rows that the transaction leaves.
placed :
    (site : CronSite) (s : CronState) (w : Written) (u : Bytes)
    → (bytes_eq site.user u ≡ false
        → cron_jobs_for_user s.sites w.jobs u ≡ cron_jobs_for_user s.sites s.jobs u)
    → IsSynced s u
    → with_file site.user
        (some (render_cron_file (cron_jobs_for_user s.sites w.jobs site.user)))
        s.cron_file
        u
      ≡ some (render_cron_file (cron_jobs_for_user s.sites w.jobs u))
placed site s w u kept synced = elim (Bool-cases (bytes_eq site.user u)) [
  | inl e ↦ rw (e, bytes_eq→≡ site.user u e) refl
  | inr e ↦ rw (e, kept e) synced
]

committed-IsSynced :
    (f : Faults) (site : CronSite) (s : CronState) (w : Written) (u : Bytes)
    → f.restore ≡ none
    → (bytes_eq site.user u ≡ false
        → cron_jobs_for_user s.sites w.jobs u ≡ cron_jobs_for_user s.sites s.jobs u)
    → IsSynced s u
    → IsSynced
        (committed f site w (render_cron_file (cron_jobs_for_user s.sites w.jobs site.user)) s).1
        u
unfolding committed
committed-IsSynced f site s w u back kept synced = elim (Option-cases f.commit) [
  | inl e ↦ rw e (placed site s w u kept synced)
  | inr (m, e) ↦ rw (e, back) synced
]

-- The file that is in place after `writeCronFile` and the commit, or after the old one is put back,
-- is what the rows render to, for the site's user and for every other one.
pub publish-IsSynced :
    (f : Faults) (op : Operation) (r : CronRequest) (site : CronSite) (command : Bytes) (now : ℕ)
    (s : CronState) (w : Written) (u : Bytes)
    → f.restore ≡ none
    → user_of site.id s.sites ≡ some site.user
    → statement op r site command now s ≡ ok w
    → IsSynced s u
    → IsSynced (publish f site w s).1 u
unfolding publish
publish-IsSynced f op r site command now s w u back owned h synced =
    elim (Result-cases (fail_if f.query_jobs >> (fail_if f.read_file >> fail_if f.write_file))) [
      | inl (_, e) ↦
          rw (e, publish)
            (committed-IsSynced f site s w u back
              (λ other. jobs-statement op r site command now s w u owned other h) synced)
      | inr (_, e) ↦ rw (e, publish) synced
    ]
