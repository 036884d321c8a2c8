-- ===== src/Backups/Failed.antt =====
-- What a backup that could not be made leaves.
use cloudpanel_gateway.Backups.Encryption.{Aead, Written, encrypt_file}
use mathlib.Core.Path.{subst}
use cloudpanel_gateway.Zip.{lt_int64}
use cloudpanel_gateway.Backups.Retention.{Backup, Store, Faults, backup_quota}
unfoldable use cloudpanel_gateway.Backups.Retention.{remove_file}
use cloudpanel_gateway.Backups.Operations.{
  failing, BackupResult, create_backup, put_content, Making, make_backup, backup_path,
  after_encryption, prepare, Prepared, new_backup,
}
unfoldable use cloudpanel_gateway.Backups.Operations.{
  databases_of, databases_of, put_backup, after_put, record_backup,
}
use cloudpanel_gateway.Base.{
  ℕ, String, ◌≡◌, refl, ap, ◌∙◌, ◌⊎◌, inl, inr, Option, none, some, arith, Bool-cases, if_both,
  Bytes, bytes_eq, bytes_eq→≡, Result, refuse_if->>-eq-ok, ok-injective, >>=-eq-ok, ok, err,
}

-- The rows are the same, and so are all files but one.
pub record SameBut (path : Bytes) (s s' : Store) : Type 0 where
  pub rows : s'.backups ≡ s.backups
  pub files : (other : Bytes) → (path ≡ other) ⊎ (s'.files other ≡ s.files other)

module _ (e : String) (s' : Store) where
  put_backup-refused :
      (put : Option String) (b : Backup) (m : String) (s t : Store)
      → put_backup put b s ≡ (some m, t)
      → t ≡ s
  unfolding put_backup
  put_backup-refused (some k) b m s t h = cc
  put_backup-refused none b m s t h = ground arith

  remove_file-SameBut :
      (path : Bytes) (s t : Store)
      → SameBut path s t
      → SameBut path s (record t { files = remove_file path t.files })
  unfolding remove_file
  remove_file-SameBut path s t k = record {
    rows = k.rows;
    files = λ other.
        if_both (λ c. (path ≡ other) ⊎ (c ≡ s.files other)) (bytes_eq path other) _ _
          (λ q. inl (bytes_eq→≡ path other q)) (λ q. k.files other);
  }

  left :
      {path : Bytes} {s t : Store} {m : String}
      → SameBut path s t
      → Path (Result BackupResult × Store) (err m, t) (err e, s')
      → SameBut path s s'
  left {path} {s} k h = subst (SameBut path s) (ap (λ z. z.1) h) k

  after_put-SameBut :
      (f : Faults) (put : Option String) (now : ℕ) (b : Backup) (s t : Store)
      (w : Option String × Store)
      → SameBut b.path s t
      → put_backup put b t ≡ w
      → after_put f now b w ≡ (err e, s')
      → SameBut b.path s s'
  unfolding after_put
  after_put-SameBut f put now b s t (none, u) k c h = cc
  after_put-SameBut f put now b s t (some m, u) k c h =
      left (remove_file-SameBut b.path s u (rw (put_backup-refused put b m t u c) k)) h

  record_backup-SameBut :
      (f : Faults) (put : Option String) (now : ℕ) (b : Backup) (s t : Store)
      → SameBut b.path s t
      → record_backup f put now b t ≡ (err e, s')
      → SameBut b.path s s'
  unfolding record_backup
  record_backup-SameBut f put now b s t k h =
      elim (Bool-cases (lt_int64 backup_quota b.encrypted_size)) [
        | inl q ↦ left (remove_file-SameBut b.path s t k) (rw (q, record_backup) at h)
        | inr q ↦
            after_put-SameBut f put now b s t (put_backup put b t) k refl
              (rw (q, record_backup) at h)
      ]

  put_content-SameBut :
      (path : Bytes) (file : Option Bytes) (s : Store) → SameBut path s (put_content path file s)
  put_content-SameBut path none s = record { rows = refl; files = λ other. inr refl }
  put_content-SameBut path (some content) s = record {
    rows = refl;
    files = λ other.
        if_both (λ c. (path ≡ other) ⊎ (c ≡ s.files other)) (bytes_eq path other) _ _
          (λ q. inl (bytes_eq→≡ path other q)) (λ q. inr refl);
  }

  module _ (aead : Bytes → Aead) (hex_sha256 : Bytes → Bytes) (dir : Bytes) {L : Type 0}
      (w : Making L) (now : ℕ) (domain : Bytes) (components : String) (safety_of : Option String)
      (s : Store) where
    after_encryption-SameBut :
        (p : Prepared) (out : Written (Bytes × ℕ))
        → after_encryption aead hex_sha256 dir w now domain components safety_of p s out
          ≡ (err e, s')
        → SameBut (backup_path dir p.id) s s'
    unfolding after_encryption
    after_encryption-SameBut p (err m, file) h =
        left (put_content-SameBut (backup_path dir p.id) file s) h
    after_encryption-SameBut p (ok made, file) h =
        record_backup-SameBut w.prune w.put now
          (new_backup now dir domain components safety_of p made) s
          (put_content (backup_path dir p.id) file s)
          (put_content-SameBut (backup_path dir p.id) file s) h

    prepare_id : (p : Prepared) → prepare w components ≡ ok p → w.id ≡ ok p.id
    unfolding prepare
    prepare_id p h =
        let (valid, a) = refuse_if->>-eq-ok _ _ _ p h in
        let (l, kl, b) = >>=-eq-ok w.layout _ a in
        let (dbs, kd, c) = >>=-eq-ok (databases_of w components) _ b in
        let (u, km, d) = >>=-eq-ok (failing w.mkdir) _ c in
        let (id, ki, g) = >>=-eq-ok w.id _ d in
        let (reads, kr, i) = >>=-eq-ok (w.archive l components dbs) _ g in
        let (key, kk, j) = >>=-eq-ok w.key _ i in ki ∙ ap (λ q. ok (Prepared.id q)) (ok-injective j)

    make_backup-SameBut :
        (p : Result Prepared)
        → prepare w components ≡ p
        → make_backup aead hex_sha256 dir w now domain components safety_of s p ≡ (err e, s')
        → (s'.backups ≡ s.backups)
          × ((other : Bytes)
              → (s'.files other ≡ s.files other)
                ⊎ ((id : String) × (w.id ≡ ok id) × (backup_path dir id ≡ other)))
    unfolding make_backup
    make_backup-SameBut (err m) k h = (cc, λ other. inl cc)
    make_backup-SameBut (ok p) k h =
        let kept =
          after_encryption-SameBut p
            (encrypt_file aead hex_sha256 w.disk w.encrypt p.key w.base p.reads) h in
        (
          kept.rows,
          λ other. elim (kept.files other) [
            | inl q ↦ inr (p.id, prepare_id p k, q)
            | inr q ↦ inl q
          ],
        )

-- When `createBackup` fails, the table of the backups is as it was, no old backup has been pruned,
-- and no file has changed but the one of the new backup's id.
pub create_backup_failed :
    (aead : Bytes → Aead) (hex_sha256 : Bytes → Bytes) (dir : Bytes) {L : Type 0} (w : Making L)
    (now : ℕ) (domain : Bytes) (components : String) (safety_of : Option String) (s s' : Store)
    (e : String)
    → create_backup aead hex_sha256 dir w now domain components safety_of s ≡ (err e, s')
    → (s'.backups ≡ s.backups)
      × ((other : Bytes)
          → (s'.files other ≡ s.files other)
            ⊎ ((id : String) × (w.id ≡ ok id) × (backup_path dir id ≡ other)))
unfolding create_backup
create_backup_failed aead hex_sha256 dir w now domain components safety_of s s' e h =
    make_backup-SameBut e s' aead hex_sha256 dir w now domain components safety_of s
      (prepare w components) refl h
