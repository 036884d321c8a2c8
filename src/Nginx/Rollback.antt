-- ===== src/Nginx/Rollback.antt =====
-- What a failed commit leaves on disk.
use cloudpanel_gateway.Nginx.Checks.{IsKept, checked-IsKept}
use cloudpanel_gateway.Nginx.{
  NginxCommitRequest, Nginx, NginxFaults, GlobalFault, not_opened, cut_short,
}
unfoldable use cloudpanel_gateway.Nginx.{
  checked, commit_checked, commit_nginx_vhost, write_files, after_global, write_global, write_vhost,
  reload_nginx, back_global, rollback, reload_or_back, validate_and_reload, after_vhost,
}
use cloudpanel_gateway.Base.{
  String, ◌≡◌, refl, sym, ◌∙◌, inl, inr, true, false, Option, none, some, [], Bool-cases,
  Option-cases, Bytes, bytes_eq, Result, is_ok, ok, err,
}

-- An error leaves the files of before.
abbrev pub IsUndone : Bytes → Bytes → Result (Unit {0}) × Nginx → Type 0
IsUndone before global_before p =
    is_ok p.0 ≡ false → (p.1.vhost ≡ some before) × (p.1.global ≡ global_before)

module _ (f : NginxFaults) (req : NginxCommitRequest) (before global_before : Bytes)
    (back : f.back_vhost ≡ none) (back_conf : f.back_global ≡ none) where
  reload_nginx-IsKept : (o : Option String) (t : Nginx) → IsKept t (reload_nginx o t).1
  unfolding reload_nginx
  reload_nginx-IsKept none t = (refl, refl)
  reload_nginx-IsKept (some e) t = (refl, refl)

  back_global-back :
      (t : Nginx)
      → (bytes_eq req.global_content [] ≡ true → t.global ≡ global_before)
      → ((back_global f req global_before t).vhost ≡ t.vhost)
        × ((back_global f req global_before t).global ≡ global_before)
  unfolding back_global write_global
  back_global-back t same = elim (Bool-cases (bytes_eq req.global_content [])) [
    | inl e ↦ rw (e, back_global) (refl, same e)
    | inr e ↦ rw (e, back_conf, back_global) (refl, refl)
  ]

  rollback-back :
      (t : Nginx)
      → (bytes_eq req.global_content [] ≡ true → t.global ≡ global_before)
      → ((rollback f req before global_before t).vhost ≡ some before)
        × ((rollback f req before global_before t).global ≡ global_before)
  unfolding rollback write_vhost
  rollback-back t same =
      rw (back, rollback)
        (let u = record t { vhost = some before } in
          let (v, g) = reload_nginx-IsKept f.back_reload (back_global f req global_before u) in
          let (w, h) = back_global-back u same in (v ∙ w, g ∙ h))

  reload_or_back-IsUndone :
      (p : Result (Unit {0}) × Nginx)
      → (bytes_eq req.global_content [] ≡ true → p.1.global ≡ global_before)
      → IsUndone before global_before (reload_or_back f req before global_before p)
  unfolding reload_or_back
  reload_or_back-IsUndone (ok _, t) same h = cc
  reload_or_back-IsUndone (err e, t) same h = rollback-back t same

  validate_and_reload-IsUndone :
      (t : Nginx)
      → (bytes_eq req.global_content [] ≡ true → t.global ≡ global_before)
      → IsUndone before global_before (validate_and_reload f req before global_before t)
  unfolding validate_and_reload
  validate_and_reload-IsUndone t same = elim (Option-cases f.test) [
    | inl e ↦
        rw (e, validate_and_reload)
          (reload_or_back-IsUndone (reload_nginx f.reload t)
            (λ k. (reload_nginx-IsKept f.reload t).1 ∙ same k))
    | inr (m, e) ↦ rw (e, validate_and_reload) (λ h. rollback-back t same)
  ]

  after_vhost-IsUndone :
      (t : Nginx)
      → t.vhost ≡ some before
      → (bytes_eq req.global_content [] ≡ true → t.global ≡ global_before)
      → IsUndone before global_before
          (after_vhost f req before global_before (write_vhost f.write_vhost req.content t))
  unfolding after_vhost write_vhost
  after_vhost-IsUndone t kept same = elim (Option-cases f.write_vhost) [
    | inl e ↦
        rw (e, after_vhost, write_vhost)
          (validate_and_reload-IsUndone (record t { vhost = some req.content }) same)
    | inr (m, e) ↦
        rw (e, after_vhost, write_vhost)
          (λ h. let (v, g) = back_global-back t same in (v ∙ kept, g))
  ]

-- nginx.conf was not cut off by a write that failed half-way.
abbrev pub NotCutShort : Option GlobalFault → Type 0
NotCutShort none = Unit
NotCutShort (some (not_opened e)) = Unit
NotCutShort (some (cut_short e left)) = ⊥

after_write_global-IsUndone :
    (f : NginxFaults) (req : NginxCommitRequest) (before : Bytes) (s : Nginx)
    (o : Option GlobalFault)
    → f.back_vhost ≡ none
    → f.back_global ≡ none
    → NotCutShort o
    → s.vhost ≡ some before
    → bytes_eq req.global_content [] ≡ false
    → IsUndone before s.global
        (after_global f req before s.global (write_global o req.global_content s))
unfolding after_global write_global
after_write_global-IsUndone f req before s none back back_conf whole kept some_content =
    after_vhost-IsUndone f req before s.global back back_conf
      (record s { global = req.global_content }) kept (λ e. cc)
after_write_global-IsUndone f req before s (some (not_opened e)) back back_conf whole kept
      some_content =
    λ h. (kept, refl)
after_write_global-IsUndone f req before s (some (cut_short e left)) back back_conf whole kept
      some_content =
    absurd whole

write_files-IsUndone :
    (f : NginxFaults) (req : NginxCommitRequest) (before : Bytes) (s : Nginx)
    → f.back_vhost ≡ none
    → f.back_global ≡ none
    → NotCutShort f.write_global
    → s.vhost ≡ some before
    → IsUndone before s.global (write_files f req before s)
unfolding write_files after_global
write_files-IsUndone f req before s back back_conf whole kept =
    elim (Bool-cases (bytes_eq req.global_content [])) [
      | inl e ↦
          rw (e, write_files)
            (after_vhost-IsUndone f req before s.global back back_conf s kept (λ k. refl))
      | inr e ↦
          rw (e, write_files)
            (after_write_global-IsUndone f req before s f.write_global back back_conf whole kept e)
    ]

-- A commit that fails leaves the vhost and nginx.conf as they were, whichever step fails, if the
-- rollback's own writes succeed and no write of nginx.conf fails half-way.
pub commit_nginx_vhost-IsKept :
    (global_config : Bytes → Option Bytes) (f : NginxFaults) (req : NginxCommitRequest) (s : Nginx)
    → f.back_vhost ≡ none
    → f.back_global ≡ none
    → NotCutShort f.write_global
    → is_ok (commit_nginx_vhost global_config f req s).0 ≡ false
    → IsKept s (commit_nginx_vhost global_config f req s).1
unfolding commit_nginx_vhost commit_checked
commit_nginx_vhost-IsKept global_config f req s back back_conf whole h =
    go (checked global_config f req s) refl h
  where
    go :
        (c : Result (Bytes × Nginx))
        → checked global_config f req s ≡ c
        → is_ok (commit_checked f req s c).0 ≡ false
        → IsKept s (commit_checked f req s c).1
    go (err m) e k = (refl, refl)
    go (ok (before, t)) e k =
        let (there, (v, g)) = checked-IsKept global_config f req s t before e in
        let (v₁, g₁) = write_files-IsUndone f req before t back back_conf whole (v ∙ there) k in
        (v₁ ∙ sym there, g₁ ∙ g)
