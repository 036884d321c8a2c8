-- ===== src/Uploads/Direct.antt =====
-- POST /v1/artifacts, an artifact sent in one piece: `artifacts` of internal/gateway/http.go. The
-- body is written to the artifact's file while it is read, and the file is checked afterwards.
use cloudpanel_gateway.Base.{
  ℕ, ◌+◌, String, true, false, Option, none, some, List, ltb, rfc3339, Bytes, codes, bytes_eq,
  length, take, Result, ok, err,
}
use cloudpanel_gateway.Zip.{Entry}
unfoldable use cloudpanel_gateway.Zip.{validate_artifact_zip}
use cloudpanel_gateway.Uploads.{
  Store, Artifact, Outcome, artifact, artifact_ttl, put_file, max_zip_compressed,
}
use cloudpanel_gateway.Uploads.Cleanup.{CleanupFaults}
unfoldable use cloudpanel_gateway.Uploads.Cleanup.{cleanup}
unfoldable use cloudpanel_gateway.Uploads.Completion.{put_artifact}

-- What fails: the copy and the closing after the first bytes of the body, the reopening of the file,
-- and the calls of the other parts. A removal fails without a word.
pub record DirectFaults : Type 0 where
  pub make_dir : Option String
  pub id : Result String
  pub open_file : Option String
  pub copy : Option (ℕ × String)
  pub close : Option String
  pub remove : Option String
  pub probe : Option String
  pub read_probe : Option String
  pub read_archive : Option String
  pub put : Option String
  pub clean : CleanupFaults

-- The status and the message of the answer
abbrev pub Refusal : Type 0
Refusal = ℕ × String

abbrev pub Answer : Type 0
Answer = Option Refusal × Store

-- `os.Remove(path)`, its error dropped
abbrev pub remove_artifact : Option String → String → Store → Store
remove_artifact (some e) id s = s
remove_artifact none id s = record s { files = put_file (artifact id) none s.files }

module _ (sha256 : Bytes → Bytes) (read_zip : Bytes → Option (List Entry)) where
  -- An error with the file taken away
  abbrev pub refuse : DirectFaults → String → ℕ → String → Store → Answer
  refuse f id status message s = (some (status, message), remove_artifact f.remove id s)

  abbrev pub direct_artifact : ℕ → String → Bytes → String → Artifact
  direct_artifact now id body owner = record {
    id = id;
    path = artifact id;
    sha256 = sha256 body;
    size = length body;
    owner_token_id = owner;
    created_at = rfc3339 now;
    expires_at = rfc3339 (now + artifact_ttl);
  }

  unfoldable pub direct_put : DirectFaults → ℕ → String → Outcome (Unit {0}) → Answer
  unfolding cleanup
  direct_put f now id (err e, s) = refuse f id 500 "artifact metadata create failed" s
  direct_put f now id (ok _, s) = (none, (cleanup f.clean now s).1)

  -- The file holds the body: the first bytes are read back, and the archive is checked.
  unfoldable pub direct_checked : DirectFaults → ℕ → String → String → Bytes → Store → Answer
  unfolding direct_put put_artifact validate_artifact_zip
  direct_checked f now owner id body s = elim f.probe [
    | some e ↦ (some (500, "artifact validation failed"), s)
    | none ↦ elim f.read_probe [
      | some e ↦ refuse f id 400 "artifact must be a ZIP archive" s
      | none ↦ elim (bytes_eq (take 2 body) (codes "PK")) [
        | false ↦ refuse f id 400 "artifact must be a ZIP archive" s
        | true ↦ elim (validate_artifact_zip read_zip f.read_archive body) [
          | err e ↦ refuse f id 400 e s
          | ok _ ↦ direct_put f now id (put_artifact f.put (direct_artifact now id body owner) s)
        ]
      ]
    ]
  ]

  -- `io.Copy` of the limited body and `f.Close()`: a body over the limit is an error after the
  -- first 100 MiB, and both errors have the same answer.
  unfoldable pub direct_copied : DirectFaults → ℕ → String → String → Bytes → Store → Answer
  unfolding direct_checked
  direct_copied f now owner id body s =
      let stored =
        λ (written : Bytes). record s { files = put_file (artifact id) (some written) s.files } in
      elim f.copy [
        | some (n, e) ↦ refuse f id 400 "artifact upload failed" (stored (take n body))
        | none ↦ elim (ltb max_zip_compressed (length body)) [
          | true ↦ refuse f id 400 "artifact upload failed" (stored (take max_zip_compressed body))
          | false ↦ elim f.close [
            | some e ↦ refuse f id 400 "artifact upload failed" (stored body)
            | none ↦ elim (ltb (length body) 4) [
              | true ↦ refuse f id 400 "artifact must be a ZIP archive" (stored body)
              | false ↦ direct_checked f now owner id body (stored body)
            ]
          ]
        ]
      ]

  -- `artifacts(w, r)` with the method POST, for the token `owner`
  unfoldable pub upload_artifact : DirectFaults → ℕ → String → Bytes → Store → Answer
  unfolding direct_copied
  upload_artifact f now owner body s = elim f.make_dir [
    | some e ↦ (some (500, "artifact storage unavailable"), s)
    | none ↦ elim f.id [
      | err e ↦ (some (500, "randomness unavailable"), s)
      | ok id ↦ elim (s.files (artifact id)) [
        | some _ ↦ (some (500, "artifact create failed"), s)
        | none ↦ elim f.open_file [
          | some e ↦ (some (500, "artifact create failed"), s)
          | none ↦ direct_copied f now owner id body s
        ]
      ]
    ]
  ]
