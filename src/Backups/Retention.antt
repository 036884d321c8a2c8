-- ===== src/Backups/Retention.antt =====
-- The table `backups` and `pruneBackups` of internal/gateway/operations.go. Each row stands in the
-- list once, under its own id, which is the primary key. The deletion of a row and the removal of a
-- file take their errors from `faults`.
pub mod Listing
pub mod Quota
pub mod Expiry
use cloudpanel_gateway.Zip.{lt_int64, add_int64}
use cloudpanel_gateway.Base.{
  ℕ, ◌+◌, ◌-◌, ◌%◌, String, Bool, true, false, Option, none, some, List, [], ◌∷◌, str_eq, ltb, leb,
  if◌then◌else◌, from_rfc3339, Bytes, bytes_eq, all,
}

pub record Backup : Type 0 where
  pub id : String
  pub domain : Bytes
  pub components : String
  pub databases : List Bytes
  pub sha256 : Bytes
  pub encrypted_size : ℕ
  pub status : String
  pub created_at : ℕ
  pub expires_at : ℕ
  pub safety_backup_of : Option String
  pub path : Bytes

pub record Store : Type 0 where
  pub backups : List Backup
  pub files : Bytes → Option Bytes

abbrev pub backup_quota : ℕ
backup_quota = 10_737_418_240

pub record Faults : Type 0 where
  pub query : Option String
  pub delete_row : String → Option String
  pub unlink : Bytes → Bool

-- `ORDER BY created_at DESC`, of rows that came in the order of the table
abbrev pub insert_newest : Backup → List Backup → List Backup
insert_newest b [] = b ∷ []
insert_newest b (c ∷ rows) =
    let rest = insert_newest b rows in
    if leb c.created_at b.created_at then b ∷ c ∷ rows else c ∷ rest

unfoldable pub newest_first : List Backup → List Backup
newest_first [] = []
newest_first (b ∷ rows) = insert_newest b (newest_first rows)

-- `DELETE FROM backups WHERE id=?`
unfoldable pub delete_id : String → List Backup → List Backup
delete_id id [] = []
delete_id id (b ∷ rows) = let rest = delete_id id rows in if str_eq b.id id then rest else b ∷ rest

unfoldable pub remove_file : Bytes → (Bytes → Option Bytes) → Bytes → Option Bytes
remove_file path files other = if bytes_eq path other then none else files other

-- `remove(b)`: the file first, whatever the answer, then the row
unfoldable pub remove : Faults → Backup → Store → Option String × Store
unfolding delete_id remove_file
remove f b s =
    let files = if f.unlink b.path then s.files else remove_file b.path s.files in
    elim (f.delete_row b.id) [
      | some e ↦ (some e, record s { files = files })
      | none ↦ (none, record s { backups = delete_id b.id s.backups; files = files })
    ]

-- `removed`, the error, and the store
pub record Pruned : Type 0 where
  pub removed : ℕ
  pub error : Option String
  pub store : Store

-- `total -= b.EncryptedSize`
abbrev pub sub_int64 : ℕ → ℕ → ℕ
sub_int64 a b = (a + (18_446_744_073_709_551_616 - b)) % 18_446_744_073_709_551_616

-- The error of a removal ends the loop.
unfoldable pub removing : ℕ → (Store → Pruned) → Option String × Store → Pruned
removing removed next (some e, s) = record { removed = removed; error = some e; store = s }
removing removed next (none, s) = next s

module _ (f : Faults) where
  -- `if total > backupQuota { … }` behind the loop
  unfoldable pub within_quota : ℕ → ℕ → Store → Pruned
  within_quota removed total s = record {
    removed = removed;
    error =
        if lt_int64 backup_quota total
        then some "backup retention quota cannot be satisfied"
        else none;
    store = s;
  }

  -- `for i := len(active) - 1; total > backupQuota && i >= 0; i--`, over `active` from its end
  unfoldable pub shrink : List Backup → ℕ → ℕ → Store → Pruned
  unfolding remove removing within_quota
  shrink [] removed total s = within_quota removed total s
  shrink (b ∷ older) removed total s = elim (lt_int64 backup_quota total) [
    | false ↦ within_quota removed total s
    | true ↦ elim (str_eq b.status "completed") [
      | false ↦ shrink older removed total s
      | true ↦
          removing removed (λ s'. shrink older (removed + 1) (sub_int64 total b.encrypted_size) s')
            (remove f b s)
    ]
  ]

  -- `for _, b := range all`, with `active` from its end: expired backups go
  unfoldable pub expire : ℕ → List Backup → ℕ → ℕ → List Backup → Store → Pruned
  unfolding remove removing shrink
  expire now [] removed total active s = shrink active removed total s
  expire now (b ∷ all) removed total active s = elim (ltb now (from_rfc3339 b.expires_at)) [
    | false ↦ removing removed (λ s'. expire now all (removed + 1) total active s') (remove f b s)
    | true ↦ expire now all removed (add_int64 total b.encrypted_size) (b ∷ active) s
  ]

  -- `pruneBackups(s, dir, now)`
  unfoldable pub prune_backups : ℕ → Store → Pruned
  unfolding expire newest_first
  prune_backups now s = elim f.query [
    | some e ↦ record { removed = 0; error = some e; store = s }
    | none ↦ expire now (newest_first s.backups) 0 0 [] s
  ]
