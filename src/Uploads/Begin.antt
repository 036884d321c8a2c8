-- ===== src/Uploads/Begin.antt =====
-- `beginArtifactUpload` of internal/gateway/http.go, with the row that `PutArtifactUpload` of
-- internal/gateway/operations.go writes.
use cloudpanel_gateway.Base.{
  lookup, upsert, ℕ, ◌+◌, String, ◌||◌, Option, none, some, [], ltb, if◌then◌else◌, rfc3339, Result,
  ok, err,
}
use cloudpanel_gateway.Uploads.{
  Upload, Store, part, put_file, Outcome, artifact_ttl, max_artifact_chunks,
}
use cloudpanel_gateway.Uploads.Cleanup.{CleanupFaults}
unfoldable use cloudpanel_gateway.Uploads.Cleanup.{cleanup}

-- `os.OpenFile(path, O_CREATE|O_EXCL)` and its closing, `PutArtifactUpload`
pub record BeginFaults : Type 0 where
  pub make_dir : Option String
  pub clean : CleanupFaults
  pub id : Result String
  pub open_file : Option String
  pub close : Option String
  pub put : Option String

-- `PutArtifactUpload(u)`: the id is the primary key.
unfoldable pub put_upload : Option String → Upload → Store → Outcome (Unit {0})
put_upload (some fault) u s = (err fault, s)
put_upload none u s = elim (lookup u.id s.uploads) [
  | some _ ↦ (err "UNIQUE constraint failed", s)
  | none ↦ (ok tt, record s { uploads = upsert u.id u s.uploads })
]

abbrev pub new_upload : ℕ → String → ℕ → String → Upload
new_upload now owner total id = record {
  id = id;
  path = part id;
  owner_token_id = owner;
  size = 0;
  next_chunk = 0;
  total_chunks = total;
  created_at = rfc3339 now;
  expires_at = rfc3339 (now + artifact_ttl);
}

-- The part file is taken away again if the row cannot be written.
unfoldable pub begin_put : Upload → Outcome (Unit {0}) → Outcome Upload
begin_put u (ok _, s) = (ok u, s)
begin_put u (err e, s) = (err e, record s { files = put_file u.path none s.files })

-- The part file is made empty.
unfoldable pub begin_with : BeginFaults → ℕ → String → ℕ → String → Store → Outcome Upload
unfolding put_upload begin_put
begin_with f now owner total id s = elim (s.files (part id)) [
  | some _ ↦ (err "file exists", s)
  | none ↦ elim f.open_file [
    | some e ↦ (err e, s)
    | none ↦
        let made = record s { files = put_file (part id) (some []) s.files } in
        elim f.close [
          | some e ↦ (err e, made)
          | none ↦ let u = new_upload now owner total id in begin_put u (put_upload f.put u made)
        ]
  ]
]

-- From `newID` on, which is another moment than that of the cleanup
unfoldable pub begin_id : BeginFaults → ℕ → String → ℕ → Store → Outcome Upload
unfolding begin_with
begin_id f now owner total s = elim f.id [
  | err e ↦ (err e, s)
  | ok id ↦ begin_with f now owner total id s
]

-- `beginArtifactUpload(t, totalChunks)`, which drops the error of the cleanup. The count is an
-- `int`; one below 1 is refused, so it is a natural number here.
unfoldable pub begin_upload : BeginFaults → ℕ → ℕ → String → ℕ → Store → Outcome Upload
unfolding begin_id cleanup
begin_upload f cleaned_at now owner total s =
    if ltb total 1 || ltb max_artifact_chunks total
    then (err "total_chunks must be between 1 and 100", s)
    else elim f.make_dir [
      | some e ↦ (err e, s)
      | none ↦ begin_id f now owner total (cleanup f.clean cleaned_at s).1
    ]
