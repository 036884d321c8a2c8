-- ===== src/Uploads/Cleanup.antt =====
-- `CleanupArtifacts` of internal/gateway/operations.go: first the artifacts, then the uploads. The
-- files of the expired rows go first, and their rows after them; a row whose deletion fails stays
-- without its file.
use cloudpanel_gateway.Base.{
  Table, ℕ, String, Bool, Option, none, some, [], ◌∷◌, leb, if◌then◌else◌, rfc3339, ok, err,
}
use cloudpanel_gateway.Uploads.{Upload, Store, FileName, Artifact, Outcome, Files, put_file}

pub record CleanupFaults : Type 0 where
  pub query_artifacts : Option String
  pub delete_artifacts : Option String
  pub query_uploads : Option String
  pub delete_uploads : Option String

-- `expires_at<=?`, on the texts of whole seconds
abbrev pub is_due : ℕ → ℕ → Bool
is_due now expires_at = leb expires_at (rfc3339 now)

-- `os.Remove` of the file of every row that is due, its errors ignored
module _ {V : Type 0} (expires_at : V → ℕ) (path : V → FileName) where
  unfoldable pub remove_due : ℕ → Table V → Files → Files
  remove_due now [] files = files
  remove_due now ((k, v) ∷ rows) files =
      let rest = remove_due now rows in
      if is_due now (expires_at v) then rest (put_file (path v) none files) else rest files

  unfoldable pub keep_live : ℕ → Table V → Table V
  keep_live now [] = []
  keep_live now ((k, v) ∷ rows) =
      let rest = keep_live now rows in if is_due now (expires_at v) then rest else (k, v) ∷ rest

abbrev pub upload_expiry : Upload → ℕ
upload_expiry u = u.expires_at

abbrev pub upload_path : Upload → FileName
upload_path u = u.path

abbrev pub artifact_expiry : Artifact → ℕ
artifact_expiry a = a.expires_at

abbrev pub artifact_path : Artifact → FileName
artifact_path a = a.path

unfoldable pub clean_uploads : CleanupFaults → ℕ → Store → Outcome (Unit {0})
clean_uploads f now s = elim f.query_uploads [
  | some e ↦ (err e, s)
  | none ↦
      let removed = record s {
        files = remove_due upload_expiry upload_path now s.uploads s.files;
      } in
      elim f.delete_uploads [
        | some e ↦ (err e, removed)
        | none ↦
            (ok tt, record removed { uploads = keep_live upload_expiry upload_path now s.uploads })
      ]
]

-- `CleanupArtifacts(now)`
unfoldable pub cleanup : CleanupFaults → ℕ → Store → Outcome (Unit {0})
unfolding clean_uploads
cleanup f now s = elim f.query_artifacts [
  | some e ↦ (err e, s)
  | none ↦
      let removed = record s {
        files = remove_due artifact_expiry artifact_path now s.artifacts s.files;
      } in
      elim f.delete_artifacts [
        | some e ↦ (err e, removed)
        | none ↦
            clean_uploads f now (record removed {
              artifacts = keep_live artifact_expiry artifact_path now s.artifacts;
            })
      ]
]
