-- ===== src/Uploads/Completion.antt =====
-- `completeArtifactUpload` and `PutArtifact`: the part file is checked, hashed and renamed, and the
-- rows follow.
use cloudpanel_gateway.Base.{
  lookup, upsert, delete, ℕ, ◌+◌, String, not, ◌||◌, Option, none, some, List, str_eq, ltb, ◌==◌,
  if◌then◌else◌, rfc3339, from_rfc3339, Bytes, Result, ok, err,
}
use cloudpanel_gateway.Zip.{Entry, validate_artifact_zip}
use cloudpanel_gateway.Uploads.{
  Upload, Store, FileName, Artifact, Outcome, Files, artifact, artifact_ttl, put_file,
}

pub record CompleteFaults : Type 0 where
  pub read_archive : Option String
  pub read_file : Option String
  pub id : Result String
  pub rename : Option String
  pub put : Option String
  pub rename_back : Option String
  pub delete_row : Option String

-- `PutArtifact(a)`: the id is the primary key.
unfoldable pub put_artifact : Option String → Artifact → Store → Outcome (Unit {0})
put_artifact (some fault) a s = (err fault, s)
put_artifact none a s = elim (lookup a.id s.artifacts) [
  | some _ ↦ (err "UNIQUE constraint failed", s)
  | none ↦ (ok tt, record s { artifacts = upsert a.id a s.artifacts })
]

-- `os.Rename(from, to)` of a file with the given content
abbrev pub rename_file : FileName → FileName → Bytes → Files → Files
rename_file from to content files = put_file to (some content) (put_file from none files)

abbrev pub rename_unless : Option String → FileName → FileName → Bytes → Files → Files
rename_unless (some fault) from to content files = files
rename_unless none from to content files = rename_file from to content files

module _ (sha256 : Bytes → Bytes) (read_zip : Bytes → Option (List Entry)) where
  abbrev pub new_artifact : ℕ → String → Bytes → Upload → Artifact
  new_artifact now id content u = record {
    id = id;
    path = artifact id;
    sha256 = sha256 content;
    size = u.size;
    owner_token_id = u.owner_token_id;
    created_at = rfc3339 now;
    expires_at = rfc3339 (now + artifact_ttl);
  }

  -- A row that cannot be written takes the renaming back; after it, the row of the upload goes.
  unfoldable pub publish_put :
      CompleteFaults → Upload → Bytes → Artifact → Outcome (Unit {0}) → Outcome Artifact
  publish_put f u content a (err e, s) =
      (err e, record s { files = rename_unless f.rename_back a.path u.path content s.files })
  publish_put f u content a (ok _, s) = elim f.delete_row [
    | some e ↦ (err e, s)
    | none ↦ (ok a, record s { uploads = delete u.id s.uploads })
  ]

  -- From the renaming on.
  unfoldable pub publish : CompleteFaults → ℕ → String → Upload → Bytes → Store → Outcome Artifact
  unfolding put_artifact publish_put
  publish f now id u content s = elim f.rename [
    | some e ↦ (err e, s)
    | none ↦
        let moved = record s { files = rename_file u.path (artifact id) content s.files } in
        let a = new_artifact now id content u in
        publish_put f u content a (put_artifact f.put a moved)
  ]

  unfoldable pub complete_file :
      CompleteFaults → ℕ → Upload → Option Bytes → Store → Outcome Artifact
  unfolding publish
  complete_file f now u none s = (err "no such file", s)
  complete_file f now u (some content) s =
      elim (validate_artifact_zip read_zip f.read_archive content) [
        | err e ↦ (err e, s)
        | ok _ ↦ elim f.read_file [
          | some e ↦ (err e, s)
          | none ↦ elim f.id [ err e ↦ (err e, s) | ok id ↦ publish f now id u content s ]
        ]
      ]

  unfoldable pub complete_row :
      CompleteFaults → ℕ → String → Option Upload → Store → Outcome Artifact
  unfolding complete_file
  complete_row f now owner none s = (err "upload not found", s)
  complete_row f now owner (some u) s =
      if not (str_eq u.owner_token_id owner)
      then (err "upload is not owned by this token", s)
      else if ltb (from_rfc3339 u.expires_at) now
          || not (u.next_chunk == u.total_chunks)
          || ltb u.size 4
      then (err "upload is incomplete or expired", s)
      else complete_file f now u (s.files u.path) s

  -- `completeArtifactUpload(t, id)`
  unfoldable pub complete_upload : CompleteFaults → ℕ → String → String → Store → Outcome Artifact
  unfolding complete_row
  complete_upload f now owner id s = complete_row f now owner (lookup id s.uploads) s
