-- ===== src/Cron/Execute/Synced.antt =====
-- What `executeCron` keeps of the agreement between CloudPanel's table and the files.
use cloudpanel_gateway.Cron.Runner.{
  CronRequest, CronSite, Host, Operation, cron_list, cron_create, cron_update, cron_delete,
  other_operation,
}
use cloudpanel_gateway.Cron.Transaction.{CronState, Faults}
unfoldable use cloudpanel_gateway.Cron.Transaction.{cron_site_for, user_of, statement, publish}
unfoldable use cloudpanel_gateway.Names.{validate_domain}
use cloudpanel_gateway.Cron.Transaction.Sync.{IsSynced, publish-IsSynced}
use cloudpanel_gateway.Cron.Execute.{CronJob, Written, Operation, fail_if, check_operation}
unfoldable use cloudpanel_gateway.Names.{validate_domain}
unfoldable use cloudpanel_gateway.Cron.Execute.{
  check_operation, attempt_write, set_metadata, finish, publish_attempt, execute_at, execute_cron,
}
use cloudpanel_gateway.Base.{
  ℕ, String, ◌≡◌, refl, inl, inr, Option, none, some, List, Bytes, Result, ◌>>◌, refuse_if->>-eq-ok,
  >>=-eq-ok, Result-cases, ok, err,
}

set_metadata-IsSynced :
    (o : Option String) (r : CronRequest) (id : ℕ) (s : CronState) (u : Bytes)
    → IsSynced s u
    → IsSynced (set_metadata o r id s) u
unfolding set_metadata
set_metadata-IsSynced none r id s u h = h
set_metadata-IsSynced (some e) r id s u h = h

finish-IsSynced :
    (revision : Bytes → List CronJob → Bytes) (f : Faults) (r : CronRequest) (site : CronSite)
    (id : ℕ) (p : Result (Unit {0}) × CronState) (u : Bytes)
    → IsSynced p.1 u
    → IsSynced (finish revision f r site id p).1 u
unfolding finish
finish-IsSynced revision f r site id (err e, s) u h = h
finish-IsSynced revision f r site id (ok _, s) u h = set_metadata-IsSynced f.metadata r id s u h

module _ (host : Host) (revision : Bytes → List CronJob → Bytes) (f : Faults) (now : ℕ)
    (r : CronRequest) (s : CronState) (u : Bytes) (back : f.restore ≡ none)
    (synced : IsSynced s u) where
  wrote :
      (site : CronSite) (w : Written)
      → attempt_write host revision f now r site s ≡ ok w
      → (command : Bytes) × (statement r.operation r site command now s ≡ ok w)
  unfolding attempt_write
  wrote site w h =
      let (_, _, h₁) = >>=-eq-ok (fail_if f.before) _ h in
      let (_, h₂) = refuse_if->>-eq-ok _ "cron revision conflict" _ _ h₁ in
      let (command, _, h₃) = >>=-eq-ok (check_operation r.operation host r site) _ h₂ in
      let (_, _, h₄) = >>=-eq-ok (fail_if f.begin) _ h₃ in
      let (_, _, h₅) = >>=-eq-ok (fail_if f.statement) _ h₄ in (command, h₅)

  attempt-IsSynced :
      (site : CronSite)
      → user_of site.id s.sites ≡ some site.user
      → IsSynced
          (publish_attempt revision f r site s (attempt_write host revision f now r site s)).1
          u
  unfolding publish_attempt
  attempt-IsSynced site owned = elim (Result-cases (attempt_write host revision f now r site s)) [
    | inl (w, e) ↦
        rw (e, publish_attempt)
          (finish-IsSynced revision f r site w.id (publish f site w s) u (
            publish-IsSynced f r.operation r site (wrote site w e).0 now s w u back owned
              (wrote site w e).1 synced))
    | inr (m, e) ↦ rw (e, publish_attempt) synced
  ]

  execute_at-IsSynced :
      (op : Operation) (found : Result CronSite)
      → ((site : CronSite) → found ≡ ok site → user_of site.id s.sites ≡ some site.user)
      → IsSynced (execute_at op host revision f now r s found).1 u
  unfolding execute_at
  execute_at-IsSynced op (err e) owned = synced
  execute_at-IsSynced cron_list (ok site) owned = synced
  execute_at-IsSynced other_operation (ok site) owned = synced
  execute_at-IsSynced cron_create (ok site) owned = attempt-IsSynced site (owned site refl)
  execute_at-IsSynced cron_update (ok site) owned = attempt-IsSynced site (owned site refl)
  execute_at-IsSynced cron_delete (ok site) owned = attempt-IsSynced site (owned site refl)

-- A user's cron file that is what CloudPanel's rows of the user's sites render to is so after every
-- request, whatever step of it fails, unless the file could not be put back after a failed commit:
-- for the site's user and for each other user. The number of the site found must name its user.
pub execute_cron-IsSynced :
    (host : Host) (revision : Bytes → List CronJob → Bytes) (f : Faults) (now : ℕ) (r : CronRequest)
    (s : CronState) (u : Bytes)
    → f.restore ≡ none
    → ((site : CronSite)
        → cron_site_for r.domain s.sites ≡ ok site
        → user_of site.id s.sites ≡ some site.user)
    → IsSynced s u
    → IsSynced (execute_cron host revision f now r s).1 u
unfolding execute_cron
execute_cron-IsSynced host revision f now r s u back owned synced =
    execute_at-IsSynced host revision f now r s u back synced r.operation
      (validate_domain r.domain >> (fail_if f.connect >> cron_site_for r.domain s.sites))
      (λ site e.
        let (_, _, e₁) = >>=-eq-ok (validate_domain r.domain) _ e in
        let (_, _, e₂) = >>=-eq-ok (fail_if f.connect) _ e₁ in owned site e₂)
