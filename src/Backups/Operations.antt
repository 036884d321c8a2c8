-- ===== src/Backups/Operations.antt =====
-- The operations on backups: `createBackup`, `restoreBackup` and `executeBackup` of
-- internal/gateway/operations.go. The archive that is written and unpacked (`writeBackupArchive`,
-- `restoreArchive`), the site's layout, the databases' names and the key file are answers of the
-- machine, in a record.
use cloudpanel_gateway.Zip.{lt_int64}
use cloudpanel_gateway.Paths.{join_path}
use cloudpanel_gateway.Backups.Encryption.{Disk, Reads, EncryptFaults, Aead, Written, encrypt_file}
use cloudpanel_gateway.Backups.Retention.{
  Backup, Store, Faults, remove_file, prune_backups, backup_quota,
}
use cloudpanel_gateway.Base.{
  ℕ, ◌+◌, String, Bool, not, ◌||◌, Option, none, some, List, [], ◌∷◌, ◌++◌, str_eq, if◌then◌else◌,
  rfc3339, Bytes, codes, bytes_eq, any, Result, refuse_if, ◌>>=◌, ◌>>◌, ok, err,
}

abbrev pub backup_ttl : ℕ
backup_ttl = 604_800_000_000_000

pub record Retention : Type 0 where
  pub days : ℕ
  pub max_bytes : ℕ
  pub expires_at : Option ℕ
  pub pruned : ℕ

pub record BackupResult : Type 0 where
  pub backup : Backup
  pub retention : Retention
  pub safety_backup_id : Option String
  pub restored_components : Option String

pub record BackupRequest : Type 0 where
  pub operation : String
  pub domain : Bytes
  pub components : String
  pub backup_id : String
  pub confirm : Bool

-- `validComponents(v)`
unfoldable pub valid_components : String → Bool
valid_components v = str_eq v "files" || str_eq v "databases" || str_eq v "both"

-- `want(v, k)`
unfoldable pub want : String → String → Bool
want v k = str_eq v "both" || str_eq v k

-- What the machine answers while a backup is made.
pub record Making (L : Type 0) : Type 0 where
  pub layout : Result L
  pub databases : Result (List Bytes)
  pub mkdir : Option String
  pub id : Result String
  pub archive : L → String → List Bytes → Result Reads
  pub key : Result Bytes
  pub base : Bytes
  pub encrypt : EncryptFaults
  pub disk : Disk
  pub put : Option String
  pub prune : Faults

-- `s.PutBackup(b)`: the row keeps the times in whole seconds, and its id is the primary key.
unfoldable pub put_backup : Option String → Backup → Store → Option String × Store
put_backup (some e) b s = (some e, s)
put_backup none b s =
    if any (λ c. str_eq (Backup.id c) b.id) s.backups
    then (some "UNIQUE constraint failed", s)
    else (
      none,
      record s {
        backups =
            s.backups
            ++ record b { created_at = rfc3339 b.created_at; expires_at = rfc3339 b.expires_at }
              ∷ [];
      },
    )

-- What is known before the encryption begins.
pub record Prepared : Type 0 where
  pub databases : List Bytes
  pub id : String
  pub reads : Reads
  pub key : Bytes

abbrev pub failing : Option String → Result (Unit {0})
failing e = elim e [ some m ↦ err m | none ↦ ok tt ]

-- `if want(components, "databases") { dbs, e = siteDatabases(c, domain) }`
unfoldable pub databases_of : {L : Type 0} → Making L → String → Result (List Bytes)
unfolding want
databases_of w components = if want components "databases" then w.databases else ok []

unfoldable pub prepare : {L : Type 0} → Making L → String → Result Prepared
unfolding valid_components databases_of
prepare w components = do
  refuse_if (not (valid_components components)) "components must be files, databases, or both"
  l ← w.layout
  dbs ← databases_of w components
  _ ← failing w.mkdir
  id ← w.id
  reads ← w.archive l components dbs
  key ← w.key
  ok (record { databases = dbs; id = id; reads = reads; key = key })

-- `filepath.Join(c.BackupDir, id+".cpgb")`
abbrev pub backup_path : Bytes → String → Bytes
backup_path dir id = join_path dir (codes id ++ codes ".cpgb")

abbrev pub put_content : Bytes → Option Bytes → Store → Store
put_content path none s = s
put_content path (some content) s = record s {
  files = λ other. if bytes_eq path other then some content else s.files other;
}

-- The row that a new backup gets.
abbrev pub new_backup : ℕ → Bytes → Bytes → String → Option String → Prepared → Bytes × ℕ → Backup
new_backup now dir domain components safety_of p (sum, size) = record {
  id = p.id;
  domain = domain;
  components = components;
  databases = p.databases;
  sha256 = sum;
  encrypted_size = size;
  status = "completed";
  created_at = now;
  expires_at = now + backup_ttl;
  safety_backup_of = safety_of;
  path = backup_path dir p.id;
}

-- What follows `s.PutBackup(b)`: the file goes when the row was refused; otherwise old backups do,
-- whatever `pruneBackups` answers.
unfoldable pub after_put : Faults → ℕ → Backup → Option String × Store → Result BackupResult × Store
unfolding remove_file prune_backups
after_put f now b (some e, s) = (err e, record s { files = remove_file b.path s.files })
after_put f now b (none, s) =
    let p = prune_backups f now s in
    (
      ok (record {
        backup = b;
        retention = record {
          days = 7;
          max_bytes = backup_quota;
          expires_at = some (rfc3339 b.expires_at);
          pruned = p.removed;
        };
        safety_backup_id = none;
        restored_components = none;
      }),
      p.store,
    )

unfoldable pub record_backup :
    Faults → Option String → ℕ → Backup → Store → Result BackupResult × Store
unfolding after_put put_backup remove_file
record_backup f put now b s =
    if lt_int64 backup_quota b.encrypted_size
    then (
      err "backup exceeds the 10 GiB retention quota",
      record s { files = remove_file b.path s.files },
    )
    else after_put f now b (put_backup put b s)

module _ (aead : Bytes → Aead) (hex_sha256 : Bytes → Bytes) (dir : Bytes) where
  -- What follows `encryptFile(key, plain, path)`
  unfoldable pub after_encryption :
      {L : Type 0}
      → Making L
      → ℕ
      → Bytes
      → String
      → Option String
      → Prepared
      → Store
      → Written (Bytes × ℕ)
      → Result BackupResult × Store
  unfolding record_backup
  after_encryption w now domain components safety_of p s (err e, file) =
      (err e, put_content (backup_path dir p.id) file s)
  after_encryption w now domain components safety_of p s (ok done, file) =
      record_backup w.prune w.put now (new_backup now dir domain components safety_of p done)
        (put_content (backup_path dir p.id) file s)

  unfoldable pub make_backup :
      {L : Type 0}
      → Making L
      → ℕ
      → Bytes
      → String
      → Option String
      → Store
      → Result Prepared
      → Result BackupResult × Store
  unfolding after_encryption encrypt_file
  make_backup w now domain components safety_of s (err e) = (err e, s)
  make_backup w now domain components safety_of s (ok p) =
      after_encryption w now domain components safety_of p s
        (encrypt_file aead hex_sha256 w.disk w.encrypt p.key w.base p.reads)

  -- `createBackup(c, s, domain, components, safetyOf)`
  unfoldable pub create_backup :
      {L : Type 0}
      → Making L
      → ℕ
      → Bytes
      → String
      → Option String
      → Store
      → Result BackupResult × Store
  unfolding make_backup prepare
  create_backup w now domain components safety_of s =
      make_backup w now domain components safety_of s (prepare w components)
