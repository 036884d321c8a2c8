-- ===== src/Backups/Found.antt =====
-- What `Backup(id, domain)` finds, and what its components hold (internal/gateway/operations.go).
use cloudpanel_gateway.Backups.Encryption.{Aead}
use cloudpanel_gateway.Backups.Retention.{Backup}
use cloudpanel_gateway.Backups.Operations.{want}
use cloudpanel_gateway.Backups.Restore.{lacks, find_backup}
use cloudpanel_gateway.Base.{
  String, ◌≡◌, refl, ◌⊎◌, inl, inr, false, ◌&&◌, some, List, [], ◌∷◌, arith, str_eq, eq_iff,
  Bool-cases, &&-eq-true, from_rfc3339, Bytes, bytes_eq, bytes_eq→≡, In,
}

-- The components are `kind` or both.
abbrev pub Holds : String → String → Type 0
Holds kind components = (components ≡ "both") ⊎ (components ≡ kind)

-- What a backup is that was found: a row of the table with that id and that domain.
abbrev pub FoundRow : String → Bytes → List Backup → Backup → Type 0
FoundRow id domain rows backup =
    (row : Backup) × In row rows
    × (row.id ≡ id)
    × (row.domain ≡ domain)
    × (backup ≡ record row {
      created_at = from_rfc3339 row.created_at;
      expires_at = from_rfc3339 row.expires_at;
    })

pub find_backup-FoundRow :
    (id : String) (domain : Bytes) (rows : List Backup) (backup : Backup)
    → find_backup id domain rows ≡ some backup
    → FoundRow id domain rows backup
unfolding find_backup
find_backup-FoundRow id domain [] backup h = cc
find_backup-FoundRow id domain (b ∷ rows) backup h =
    elim (Bool-cases (str_eq b.id id && bytes_eq b.domain domain)) [
      | inl e ↦
          let (same_id, same_domain) = &&-eq-true _ _ e in
          (
            b,
            inl refl,
            (eq_iff b.id id).0 same_id,
            bytes_eq→≡ b.domain domain same_domain,
            some_inj (rw (e, find_backup) at h),
          )
      | inr e ↦
          let (row, listed, named, of_domain, read_back) =
            find_backup-FoundRow id domain rows backup (rw (e, find_backup) at h) in
          (row, inr listed, named, of_domain, read_back)
    ]
  where
    some_inj : {x y : Backup} → some x ≡ some y → y ≡ x
    some_inj p = cc

module _ (aead : Bytes → Aead) (hex_sha256 : Bytes → Bytes) (dir : Bytes) where
  pub lacks-Holds :
      (components held kind : String)
      → lacks aead hex_sha256 dir components held kind ≡ false
      → Holds kind components
      → Holds kind held
  unfolding lacks want
  lacks-Holds components held kind h asked = ground (
    arith,
    eq_iff held "both",
    eq_iff held kind,
    eq_iff components "both",
    eq_iff components kind,
  )
