-- ===== src/Backups/Tests.antt =====
-- Runs of the backup's format with a toy cipher, whose tag is 16 times the nonce's last byte.
use cloudpanel_gateway.Backups.Restored.{Restored, execute_backup-Restored}
use cloudpanel_gateway.Backups.Refinement.{decrypt_file_refines}
use cloudpanel_gateway.Backups.Roundtrip.{decrypt_file-encrypt_file}
use cloudpanel_gateway.Backups.Format.{IsBackup}
use cloudpanel_gateway.Backups.Decryption.{decrypt_file}
use cloudpanel_gateway.Backups.Encryption.{Aead, Reads, piece, eof, EncryptFaults, Written}
unfoldable use cloudpanel_gateway.Backups.Encryption.{encrypt_file}
use cloudpanel_gateway.Backups.Returns.{writes_well, reads_well, decrypt_file_returns}
use cloudpanel_gateway.Backups.Sealing.{IsAead, FitsBuffer, text_of}
use cloudpanel_gateway.Backups.Retention.{Backup, Store, Faults}
unfoldable use cloudpanel_gateway.Backups.Retention.{prune_backups}
use cloudpanel_gateway.Backups.Retention.Expiry.{IsPruned, prune_backups-IsPruned}
use cloudpanel_gateway.Backups.Retention.Listing.{DistinctIds}
use cloudpanel_gateway.Backups.Operations.{
  Making, BackupRequest, create_backup, BackupResult, backup_path,
}
use cloudpanel_gateway.Backups.Restore.{Restoring, Answer}
unfoldable use cloudpanel_gateway.Backups.Restore.{execute_backup}
unfoldable use cloudpanel_gateway.Paths.{join_path, is_abs, clean_parts}
use cloudpanel_gateway.Names.{validate_domain}
use cloudpanel_gateway.Auth.Policy.{permits, allowed}
use cloudpanel_gateway.Backups.Restore.{execute_backup}
use cloudpanel_gateway.Backups.Failed.{create_backup_failed}
use cloudpanel_gateway.Base.{
  Table, lookup, ℕ, zero, suc, String, ◌≡◌, refl, ◌↔◌, ◌⊎◌, Bool, true, false, Option, none, some,
  [], ◌∷◌, ◌++◌, map, arith, if◌then◌else◌, Bytes, codes, bytes_eq, bytes_eq_refl, take, drop,
  Result, is_ok, ok, err,
}

abbrev last_byte : Bytes → ℕ
last_byte [] = 0
last_byte (c ∷ []) = c
last_byte (c ∷ d ∷ s) = last_byte (d ∷ s)

abbrev tag : ℕ → Bytes
tag c = c ∷ c ∷ c ∷ c ∷ c ∷ c ∷ c ∷ c ∷ c ∷ c ∷ c ∷ c ∷ c ∷ c ∷ c ∷ c ∷ []

abbrev toy : Aead
toy = record {
  nonce_size = 12;
  overhead = 16;
  seal = λ nonce plain. tag (last_byte nonce) ++ plain;
  open_sealed = λ nonce sealed.
      if bytes_eq (take 16 sealed) (tag (last_byte nonce)) then some (drop 16 sealed) else none;
}

toy-IsAead : IsAead toy
toy-IsAead = record {
  opens = λ nonce plain. rw (bytes_eq_refl (tag (last_byte nonce))) refl;
  sealed_size = λ nonce plain. omega arith;
  tag_size = refl;
}

abbrev zeros : ℕ → Bytes
zeros zero = []
zeros (suc n) = 0 ∷ zeros n

abbrev no_faults : EncryptFaults
no_faults = record { open_source = none; create = none; random = none; stat = none }

abbrev reads : Reads
reads = piece (codes "hello, ") (piece (codes "back") (eof (codes "up")))

run : Written (Bytes × ℕ)
unfolding encrypt_file
run = encrypt_file (λ key. toy) (take 30) writes_well no_faults (zeros 32) (zeros 12) reads

abbrev sum : Bytes
sum = 0 ∷ 0 ∷ 0 ∷ 23 ∷ tag 0 ++ codes "hello, " ++ (0 ∷ 0 ∷ 0 ∷ [])

abbrev file : Bytes
file =
    codes "CPGB1"
    ++ zeros 12
    ++ (0 ∷ 0 ∷ 0 ∷ 23 ∷ tag 0)
    ++ codes "hello, "
    ++ (0 ∷ 0 ∷ 0 ∷ 20 ∷ tag 1)
    ++ codes "back"
    ++ (0 ∷ 0 ∷ 0 ∷ 18 ∷ tag 2)
    ++ codes "up"

encrypt_run : run ≡ (ok (sum, 90), some file)
unfolding run
encrypt_run = refl

decrypt_file-encrypt_file_example :
    decrypt_file (λ key. toy) (take 30) reads_well writes_well (ok file) none (zeros 32) sum
    ≡ some (ok tt, some (text_of reads))
unfolding FitsBuffer run
decrypt_file-encrypt_file_example =
    decrypt_file-encrypt_file (λ key. toy) (take 30) writes_well no_faults (zeros 32) (zeros 12)
      reads sum 90 file toy-IsAead refl (omega arith, (omega arith, omega arith)) encrypt_run

-- A file that ends within a chunk
decrypt_file_returns_example :
    (out : Written (Unit {0})) × (decrypt_file
        (λ key. toy)
        (take 30)
        reads_well
        writes_well
        (ok (take 60 file))
        none
        (zeros 32)
        sum
      ≡ some out)
decrypt_file_returns_example =
    decrypt_file_returns (λ key. toy) (take 30) reads_well writes_well (ok (take 60 file)) none
      (zeros 32) sum

decrypt_cut :
    decrypt_file
      (λ key. toy)
      (take 30)
      reads_well
      writes_well
      (ok (take 60 file))
      none
      (zeros 32)
      sum
    ≡ some (err "unexpected EOF", some (codes "hello, "))
unfolding decrypt_file
decrypt_cut = refl

decrypt_file_refines_example :
    (decrypt_file (λ key. toy) (take 30) reads_well writes_well (ok file) none (zeros 32) sum
      ≡ some (ok tt, some (codes "hello, backup")))
    ↔ IsBackup toy (take 30) sum file (codes "hello, backup")
decrypt_file_refines_example =
    decrypt_file_refines (λ key. toy) (take 30) (zeros 32) sum file (codes "hello, backup")

-- Two backups near the quota, and a third that is expired.
abbrev backup : String → ℕ → ℕ → ℕ → Backup
backup id size created expires = record {
  id = id;
  domain = codes "shop.test";
  components = "files";
  databases = [];
  sha256 = sum;
  encrypted_size = size;
  status = "completed";
  created_at = created;
  expires_at = expires;
  safety_backup_of = none;
  path = codes "/b/" ++ codes id;
}

abbrev no_prune_faults : Faults
no_prune_faults = record { query = none; delete_row = λ id. none; unlink = λ path. false }

abbrev crowded : Store
crowded = record {
  backups =
      backup "old" 90 1 200 ∷ backup "expired" 5 2 50 ∷ backup "large" 10_737_418_200 3 200 ∷ [];
  files = λ path. if bytes_eq path (codes "/b/old") then some file else none;
}

pruned_run :
    (map (λ b. Backup.id b) (prune_backups no_prune_faults 100_000_000_000 crowded).store.backups
      ≡ "large" ∷ [])
    × Path ℕ (prune_backups no_prune_faults 100_000_000_000 crowded).removed 2
unfolding prune_backups
pruned_run = (refl, refl)

distinct : DistinctIds crowded.backups
distinct = ((cc, (cc, tt)), ((cc, tt), (tt, tt)))

prune_backups-IsPruned_example :
    IsPruned 100_000_000_000 crowded.backups
      (prune_backups no_prune_faults 100_000_000_000 crowded).store.backups
unfolding prune_backups
prune_backups-IsPruned_example =
    prune_backups-IsPruned no_prune_faults 100_000_000_000 crowded distinct (omega arith) refl

abbrev making : Making (Unit {0})
making = record {
  layout = ok tt;
  databases = ok [];
  mkdir = none;
  id = ok "new";
  archive = λ l components dbs. ok reads;
  key = ok (zeros 32);
  base = zeros 12;
  encrypt = no_faults;
  disk = writes_well;
  put = none;
  prune = no_prune_faults;
}

abbrev restoring : Restoring (Unit {0})
restoring = record {
  safety = making;
  key = ok (zeros 32);
  mkdir_temp = none;
  read_error = reads_well;
  disk = writes_well;
  create = none;
  layout = ok tt;
  restore_archive = λ plain l components dbs.
      if bytes_eq plain (codes "hello, backup") then none else some "not an archive";
}

abbrev quiet : Store
quiet = record {
  backups = backup "old" 90 1 200 ∷ [];
  files = λ path. if bytes_eq path (codes "/b/old") then some file else none;
}

abbrev request : BackupRequest
request = record {
  operation = "restore";
  domain = codes "shop.test";
  components = "files";
  backup_id = "old";
  confirm = true;
}

abbrev policy : Table Bool
policy = ("backup.restore", true) ∷ []

abbrev answered : Option (Result Answer × Store)
answered =
    execute_backup (λ key. toy) (take 30) (codes "/b") none none policy restoring 100_000_000_000
      request quiet

abbrev store_of : Option (Result Answer × Store) → Store
store_of none = quiet
store_of (some (r, s)) = s

abbrev result : BackupResult
result = record {
  backup = backup "old" 90 1_000_000_000 200_000_000_000;
  retention = record { days = 7; max_bytes = 10_737_418_240; expires_at = none; pruned = 0 };
  safety_backup_id = some "new";
  restored_components = some "files";
}

execute_backup-Restored_example :
    (is_ok (validate_domain (codes "shop.test")) ≡ true)
    × (request.confirm ≡ true)
    × (Path (Option String) none none)
    × (lookup "backup.restore" policy ≡ some true)
    × Restored (λ key. toy) (take 30) (codes "/b") restoring 100_000_000_000 request quiet
unfolding execute_backup allowed permits lookup join_path is_abs clean_parts
execute_backup-Restored_example =
    execute_backup-Restored (λ key. toy) (take 30) (codes "/b") none none policy restoring
      100_000_000_000 request quiet result (store_of answered) refl refl

-- The row of a new backup is refused.
abbrev refusing : Making (Unit {0})
refusing = record making { put = some "disk I/O error" }

abbrev refused : Result BackupResult × Store
refused =
    create_backup (λ key. toy) (take 30) (codes "/b") refusing 100_000_000_000 (codes "shop.test")
      "both" none crowded

create_backup_failed_example :
    (refused.1.backups ≡ crowded.backups)
    × ((other : Bytes)
        → (refused.1.files other ≡ crowded.files other)
          ⊎ ((id : String) × (ok "new" ≡ ok id) × (backup_path (codes "/b") id ≡ other)))
unfolding create_backup
create_backup_failed_example =
    create_backup_failed (λ key. toy) (take 30) (codes "/b") refusing 100_000_000_000
      (codes "shop.test") "both" none crowded refused.1 "disk I/O error" refl

-- A restoration near the quota: the safety backup makes `pruneBackups` delete the very backup that is
-- to be restored.
abbrev full_store : Store
full_store = record {
  backups = backup "old" 90 1 200 ∷ backup "large" 10_737_418_150 3 200 ∷ [];
  files = λ path. if bytes_eq path (codes "/b/old") then some file else none;
}

abbrev unrestored : Option (Result Answer × Store)
unrestored =
    execute_backup (λ key. toy) (take 30) (codes "/b") none none policy restoring 100_000_000_000
      request full_store

error_of : Option (Result Answer × Store) → String
error_of (some (err e, s)) = e
error_of _ = ""

restore_pruned :
    (error_of unrestored ≡ "no such file or directory")
    × (map (λ b. Backup.id b) (store_of unrestored).backups ≡ "large" ∷ "new" ∷ [])
unfolding execute_backup allowed permits lookup join_path is_abs clean_parts error_of
restore_pruned = (refl, refl)
