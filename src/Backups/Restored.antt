-- ===== src/Backups/Restored.antt =====
-- What a restoration that succeeds went through.
use mathlib.Core.Path.{subst}
use cloudpanel_gateway.Auth.Policy.{permits, allowed, permits_only_enabled}
use cloudpanel_gateway.Names.{validate_domain}
use cloudpanel_gateway.Backups.Encryption.{Aead, Written}
use cloudpanel_gateway.Backups.Format.{IsBackup}
use cloudpanel_gateway.Backups.Refinement.{decrypt_file-IsBackup}
use cloudpanel_gateway.Backups.Found.{Holds, find_backup-FoundRow, lacks-Holds}
use cloudpanel_gateway.Backups.Retention.{Backup, Store}
use cloudpanel_gateway.Backups.Operations.{
  BackupResult, BackupRequest, valid_components, create_backup,
}
unfoldable use cloudpanel_gateway.Backups.Decryption.{decrypt_file}
use cloudpanel_gateway.Backups.Restore.{
  Restoring, Outcome, content_of, lacks, find_backup, restore_found, restore_backup, after_safety,
  as_answer, execute_backup, done, answer_restore,
}
unfoldable use cloudpanel_gateway.Backups.Restore.{
  after_decryption, finish_decryption, restore_from,
}
use cloudpanel_gateway.Base.{
  Table, lookup, ℕ, ◌≤◌, String, ◌≡◌, refl, ap, inl, inr, Bool, true, false, not, ◌||◌, Option,
  none, some, arith, ltb, Option-cases, ||-eq-false, if-eq-else, from_rfc3339, Bytes, In, Result,
  is_ok, Result-cases, ok, err,
}

module _ (aead : Bytes → Aead) (hex_sha256 : Bytes → Bytes) (dir : Bytes) where
  -- The backup `b` was unpacked, from the file that was there after the safety backup.
  pub record Unpacked {L : Type 0} (w : Restoring L) (r : BackupRequest) (b : Backup) (s : Store)
      : Type 0 where
    pub key : Bytes
    pub key_of : w.key ≡ ok key
    pub file : Bytes
    pub file_of : s.files b.path ≡ some file
    pub plain : Bytes
    pub authentic : IsBackup (aead key) hex_sha256 b.sha256 file plain
    pub layout : L
    pub layout_of : w.layout ≡ ok layout
    pub unpacked : w.restore_archive plain layout r.components b.databases ≡ none

  module _ {L : Type 0} (w : Restoring L) (r : BackupRequest) (b : Backup) (res : BackupResult)
      (s' : Store) where
    decryption-Unpacked :
        (safety : BackupResult) (s : Store) (key file : Bytes)
        → w.key ≡ ok key
        → s.files b.path ≡ some file
        → (o : Option (Written (Unit {0})))
        → decrypt_file aead hex_sha256 w.read_error w.disk (ok file) w.create key b.sha256 ≡ o
        → finish_decryption aead hex_sha256 dir w r b safety s o ≡ some (ok res, s')
        → Unpacked w r b s
    unfolding finish_decryption after_decryption
    decryption-Unpacked safety s key file k f none e h = cc
    decryption-Unpacked safety s key file k f (some (err m, out)) e h = cc
    decryption-Unpacked safety s key file k f (some (ok tt, none)) e h = cc
    decryption-Unpacked safety s key file k f (some (ok tt, some plain)) e h =
        elim (Result-cases w.layout) [
          | inr (m, c) ↦ absurd (refused (rw (c, after_decryption) at h))
          | inl (l, c) ↦ elim (Option-cases (w.restore_archive plain l r.components b.databases)) [
            | inr (m, d) ↦ absurd (refused (rw (c, d, after_decryption) at h))
            | inl d ↦ record {
              key = key;
              key_of = k;
              file = file;
              file_of = f;
              plain = plain;
              authentic =
                  decrypt_file-IsBackup aead hex_sha256 w.read_error w.disk key b.sha256 plain
                    w.create file e;
              layout = l;
              layout_of = c;
              unpacked = d;
            }
          ]
        ]
      where
        refused : {m : String} → Path Outcome (some (err m, s)) (some (ok res, s')) → ⊥
        refused q = cc

    source-Unpacked :
        (safety : BackupResult) (s : Store) (key : Bytes) (file : Option Bytes)
        → w.key ≡ ok key
        → s.files b.path ≡ file
        → finish_decryption aead hex_sha256 dir w r b safety s (
            decrypt_file aead hex_sha256 w.read_error w.disk
              (content_of file)
              w.create
              key
              b.sha256)
          ≡ some (ok res, s')
        → Unpacked w r b s
    unfolding decrypt_file finish_decryption after_decryption
    source-Unpacked safety s key none k f h = cc
    source-Unpacked safety s key (some file) k f h =
        decryption-Unpacked safety s key file k f _ refl h

    restore_from-Unpacked :
        (safety : BackupResult) (s : Store)
        → restore_from aead hex_sha256 dir w r b safety s ≡ some (ok res, s')
        → Unpacked w r b s
    unfolding restore_from
    restore_from-Unpacked safety s h = elim (Result-cases w.key) [
      | inr (m, k) ↦ absurd (refused (rw (k, restore_from) at h))
      | inl (key, k) ↦ elim (Option-cases w.mkdir_temp) [
        | inr (m, t) ↦ absurd (refused (rw (k, t, restore_from) at h))
        | inl t ↦
            source-Unpacked safety s key (s.files b.path) k refl (rw (k, t, restore_from) at h)
      ]
    ]
      where
        refused : {m : String} → Path Outcome (some (err m, s)) (some (ok res, s')) → ⊥
        refused q = cc

  -- What `restoreBackup` went through: the backup that was asked for, with what it may give, a
  -- safety backup, and the authentic archive.
  pub record Restored {L : Type 0} (w : Restoring L) (now : ℕ) (r : BackupRequest) (s : Store)
      : Type 0 where
    pub row : Backup
    pub listed : In row s.backups
    pub named : row.id ≡ r.backup_id
    pub of_domain : row.domain ≡ r.domain
    pub backup : Backup
    pub read_back : backup ≡ record row {
      created_at = from_rfc3339 row.created_at;
      expires_at = from_rfc3339 row.expires_at;
    }
    pub live : now ≤ backup.expires_at
    pub files_held : Holds "files" r.components → Holds "files" row.components
    pub databases_held : Holds "databases" r.components → Holds "databases" row.components
    pub safety : BackupResult
    pub left : Store
    pub saved :
        create_backup aead hex_sha256 dir w.safety now r.domain r.components (some backup.id) s
        ≡ (ok safety, left)
    pub unpacked : Unpacked w r backup left

  module _ {L : Type 0} (w : Restoring L) (now : ℕ) (r : BackupRequest) (s : Store)
      (res : BackupResult) (s' : Store) where
    safety-Restored :
        (b : Backup)
        → find_backup r.backup_id r.domain s.backups ≡ some b
        → now ≤ b.expires_at
        → lacks aead hex_sha256 dir r.components b.components "files" ≡ false
        → lacks aead hex_sha256 dir r.components b.components "databases" ≡ false
        → (made : Result BackupResult × Store)
        → create_backup aead hex_sha256 dir w.safety now r.domain r.components (some b.id) s ≡ made
        → after_safety aead hex_sha256 dir w r b made ≡ some (ok res, s')
        → Restored w now r s
    unfolding after_safety
    safety-Restored b found live f d (err e, t) saved h = cc
    safety-Restored b found live f d (ok safety, t) saved h =
        let (row, listed, named, of_domain, read_back) =
          find_backup-FoundRow r.backup_id r.domain s.backups b found in
        let same = ap Backup.components read_back in
        record {
          row = row;
          listed = listed;
          named = named;
          of_domain = of_domain;
          backup = b;
          read_back = read_back;
          live = live;
          files_held = λ asked.
              subst (Holds "files") same
                (lacks-Holds aead hex_sha256 dir r.components b.components "files" f asked);
          databases_held = λ asked.
              subst (Holds "databases") same
                (lacks-Holds aead hex_sha256 dir r.components b.components "databases" d asked);
          safety = safety;
          left = t;
          saved = saved;
          unpacked = restore_from-Unpacked w r b res s' safety t h;
        }

    found-Restored :
        (o : Option Backup)
        → find_backup r.backup_id r.domain s.backups ≡ o
        → restore_found aead hex_sha256 dir w now r s o ≡ some (ok res, s')
        → Restored w now r s
    unfolding restore_found
    found-Restored none found h = cc
    found-Restored (some b) found h =
        let (live, k) = if-eq-else (ltb b.expires_at now) _ _ (λ q. cc) h in
        let (held, j) =
          if-eq-else
            (lacks aead hex_sha256 dir r.components b.components "files"
              || lacks aead hex_sha256 dir r.components b.components "databases")
            _ _ (λ q. cc) k in
        let (f, d) = ||-eq-false _ _ held in safety-Restored b found (ground arith) f d _ refl j

    restore_backup-Restored :
        restore_backup aead hex_sha256 dir w now r s ≡ some (ok res, s') → Restored w now r s
    unfolding restore_backup
    restore_backup-Restored h =
        let (valid, k) = if-eq-else (not (valid_components r.components)) _ _ (λ q. cc) h in
        found-Restored _ refl k

as_answer-done :
    (o : Outcome) (res : BackupResult) (s' : Store)
    → as_answer o ≡ some (ok (done res), s')
    → o ≡ some (ok res, s')
unfolding as_answer
as_answer-done none res s' h = cc
as_answer-done (some (err e, s)) res s' h = cc
as_answer-done (some (ok r, s)) res s' h = cc

-- A request to restore a backup succeeds only for a valid domain, with `confirm`, while the table of
-- the policy can be read and holds `backup.restore` as enabled, for a row of the table of backups
-- that has the requested id and that domain, is not expired and holds the components that are asked for, after a safety backup was made, and only if the file that is then there is a
-- backup of the recorded digest, every chunk authentic: exactly its text is unpacked.
pub execute_backup-Restored :
    (aead : Bytes → Aead) (hex_sha256 : Bytes → Bytes) (dir : Bytes) (query : Option String)
    (policy_fault : Option String) (policy : Table Bool) {L : Type 0} (w : Restoring L) (now : ℕ)
    (r : BackupRequest) (s : Store) (res : BackupResult) (s' : Store)
    → r.operation ≡ "restore"
    → execute_backup aead hex_sha256 dir query policy_fault policy w now r s
      ≡ some (ok (done res), s')
    → (is_ok (validate_domain r.domain) ≡ true)
      × (r.confirm ≡ true)
      × (policy_fault ≡ none)
      × (lookup "backup.restore" policy ≡ some true)
      × Restored aead hex_sha256 dir w now r s
unfolding execute_backup answer_restore
execute_backup-Restored aead hex_sha256 dir query policy_fault policy w now r s res s' op h =
    let (valid, k) = if-eq-else (not (is_ok (validate_domain r.domain))) _ _ (λ q. cc) h in
    let (confirmed, j) = if-eq-else (not r.confirm) _ _ (λ q. cc) (rw op at k) in
    let (permitted, i) =
      if-eq-else (not (permits (allowed policy_fault policy "backup.restore"))) _ _ (λ q. cc) j in
    let (answered, enabled) =
      permits_only_enabled policy_fault policy "backup.restore" (ground (arith, permitted)) in
    (
      ground (arith, valid),
      ground (arith, confirmed),
      answered,
      enabled,
      restore_backup-Restored aead hex_sha256 dir w now r s res s'
          (as_answer-done (restore_backup aead hex_sha256 dir w now r s) res s' i),
    )
