-- ===== src/Backups/Restore.antt =====
-- `restoreBackup` and `executeBackup` of internal/gateway/operations.go.
use cloudpanel_gateway.Names.{validate_domain}
use cloudpanel_gateway.Auth.Policy.{permits, allowed}
use cloudpanel_gateway.Backups.Encryption.{Aead, Disk, Written}
use cloudpanel_gateway.Backups.Retention.{Backup, Store, backup_quota, newest_first}
use cloudpanel_gateway.Backups.Operations.{BackupResult, BackupRequest, Retention, Making}
unfoldable use cloudpanel_gateway.Backups.Operations.{valid_components, want, create_backup}
unfoldable use cloudpanel_gateway.Backups.Decryption.{decrypt_file}
use cloudpanel_gateway.Base.{
  Table, ℕ, String, Bool, not, ◌&&◌, ◌||◌, Option, none, some, List, [], ◌∷◌, str_eq, ltb,
  if◌then◌else◌, from_rfc3339, Bytes, bytes_eq, all, Result, is_ok, ok, err,
}

-- What the machine answers while a backup is restored, the safety backup included.
pub record Restoring (L : Type 0) : Type 0 where
  pub safety : Making L
  pub key : Result Bytes
  pub mkdir_temp : Option String
  pub read_error : Bytes → Option String
  pub disk : Disk
  pub create : Option String
  pub layout : Result L
  pub restore_archive : Bytes → L → String → List Bytes → Option String

-- What is listed and what is restored.
pub data Answer : Type 0 where
  done : BackupResult → Answer
  listed : List Backup → Retention → Answer

-- `s.Backup(id, domain)`, with the times as they are read back
unfoldable pub find_backup : String → Bytes → List Backup → Option Backup
find_backup id domain [] = none
find_backup id domain (b ∷ rows) =
    if str_eq b.id id && bytes_eq b.domain domain
    then some (record b {
      created_at = from_rfc3339 b.created_at;
      expires_at = from_rfc3339 b.expires_at;
    })
    else find_backup id domain rows

abbrev pub Outcome : Type 0
Outcome = Option (Result BackupResult × Store)

-- `os.Open(b.Path)`
abbrev pub content_of : Option Bytes → Result Bytes
content_of none = err "no such file or directory"
content_of (some content) = ok content

module _ (aead : Bytes → Aead) (hex_sha256 : Bytes → Bytes) (dir : Bytes) where
  -- `want(r.Components, k) && !want(b.Components, k)`
  unfoldable pub lacks : String → String → String → Bool
  unfolding want
  lacks components held k = want components k && not (want held k)

  -- What follows `decryptFile(key, b.Path, plain, b.SHA256)`: the layout, `restoreArchive`, and the
  -- result
  unfoldable pub after_decryption :
      {L : Type 0}
      → Restoring L
      → BackupRequest
      → Backup
      → BackupResult
      → Store
      → Written (Unit {0})
      → Result BackupResult × Store
  after_decryption w r b safety s (err e, file) = (err e, s)
  after_decryption w r b safety s (ok tt, none) = (err "no such file", s)
  after_decryption w r b safety s (ok tt, some plain) = elim w.layout [
    | err e ↦ (err e, s)
    | ok l ↦ elim (w.restore_archive plain l r.components b.databases) [
      | some e ↦ (err e, s)
      | none ↦ (
        ok (record {
          backup = b;
          retention = record { days = 7; max_bytes = backup_quota; expires_at = none; pruned = 0 };
          safety_backup_id = some safety.backup.id;
          restored_components = some r.components;
        }),
        s,
      )
    ]
  ]

  unfoldable pub finish_decryption :
      {L : Type 0}
      → Restoring L
      → BackupRequest
      → Backup
      → BackupResult
      → Store
      → Option (Written (Unit {0}))
      → Outcome
  unfolding after_decryption
  finish_decryption w r b safety s none = none
  finish_decryption w r b safety s (some out) = some (after_decryption w r b safety s out)

  -- `EnsurePrivateFile(c.BackupKeyFile, 32)`, `os.MkdirTemp(c.BackupDir, ".restore-")` and the
  -- decryption
  unfoldable pub restore_from :
      {L : Type 0} → Restoring L → BackupRequest → Backup → BackupResult → Store → Outcome
  unfolding finish_decryption decrypt_file
  restore_from w r b safety s = elim w.key [
    | err e ↦ some (err e, s)
    | ok key ↦ elim w.mkdir_temp [
      | some e ↦ some (err e, s)
      | none ↦ finish_decryption w r b safety s (
          decrypt_file aead hex_sha256 w.read_error w.disk (content_of (s.files b.path)) w.create
            key b.sha256)
    ]
  ]

  -- What follows the safety backup
  unfoldable pub after_safety :
      {L : Type 0} → Restoring L → BackupRequest → Backup → Result BackupResult × Store → Outcome
  unfolding restore_from
  after_safety w r b (err e, s) = some (err "pre-restore safety backup failed", s)
  after_safety w r b (ok safety, s) = restore_from w r b safety s

  unfoldable pub restore_found :
      {L : Type 0} → Restoring L → ℕ → BackupRequest → Store → Option Backup → Outcome
  unfolding lacks after_safety create_backup
  restore_found w now r s none = some (err "backup not found", s)
  restore_found w now r s (some b) =
      if ltb b.expires_at now
      then some (err "backup expired", s)
      else if lacks r.components b.components "files" || lacks r.components b.components "databases"
      then some (err "requested components are not present in backup", s)
      else after_safety w r b
          (create_backup aead hex_sha256 dir w.safety now r.domain r.components (some b.id) s)

  -- `restoreBackup(c, s, r)`
  unfoldable pub restore_backup : {L : Type 0} → Restoring L → ℕ → BackupRequest → Store → Outcome
  unfolding restore_found find_backup valid_components
  restore_backup w now r s =
      if not (valid_components r.components)
      then some (err "components must be files, databases, or both", s)
      else restore_found w now r s (find_backup r.backup_id r.domain s.backups)

-- `s.Backups(domain)`
unfoldable pub list_backups : Bytes → List Backup → List Backup
unfolding newest_first
list_backups domain rows = of_domain (newest_first rows)
  where
    of_domain : List Backup → List Backup
    of_domain [] = []
    of_domain (b ∷ all) =
        let rest = of_domain all in
        if bytes_eq domain [] || bytes_eq b.domain domain then b ∷ rest else rest

unfoldable pub as_answer : Outcome → Option (Result Answer × Store)
as_answer none = none
as_answer (some (err e, s)) = some (err e, s)
as_answer (some (ok r, s)) = some (ok (done r), s)

module _ (aead : Bytes → Aead) (hex_sha256 : Bytes → Bytes) (dir : Bytes) (query : Option String)
    (policy_fault : Option String) (policy : Table Bool) where
  unfoldable pub answer_list : BackupRequest → Store → Option (Result Answer × Store)
  unfolding list_backups
  answer_list r s = elim query [
    | some e ↦ some (err e, s)
    | none ↦ some (
      ok (
          listed (list_backups r.domain s.backups)
            (record { days = 7; max_bytes = backup_quota; expires_at = none; pruned = 0 })),
      s,
    )
  ]

  unfoldable pub answer_restore :
      {L : Type 0} → Restoring L → ℕ → BackupRequest → Store → Option (Result Answer × Store)
  unfolding as_answer restore_backup permits allowed
  answer_restore w now r s =
      if not r.confirm
      then some (err "restore requires confirm=true", s)
      else if not (permits (allowed policy_fault policy "backup.restore"))
      then some (err "operation disabled by server policy", s)
      else as_answer (restore_backup aead hex_sha256 dir w now r s)

  -- `executeBackup(c, s, r)`
  unfoldable pub execute_backup :
      {L : Type 0} → Restoring L → ℕ → BackupRequest → Store → Option (Result Answer × Store)
  unfolding answer_list answer_restore as_answer create_backup validate_domain
  execute_backup w now r s =
      if not (is_ok (validate_domain r.domain))
      then some (err "invalid domain", s)
      else if str_eq r.operation "create"
      then as_answer
          (some (create_backup aead hex_sha256 dir w.safety now r.domain r.components none s))
      else if str_eq r.operation "list"
      then answer_list r s
      else if str_eq r.operation "restore"
      then answer_restore w now r s
      else some (err "unsupported backup operation", s)
