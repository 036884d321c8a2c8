-- ===== src/Uploads.antt =====
-- Chunked uploads and artifacts: `beginArtifactUpload`, `appendArtifactChunk` and
-- `completeArtifactUpload` of internal/gateway/http.go, with the tables `artifact_uploads` and
-- `artifacts` of internal/gateway/operations.go and the files of the artifact directory.
-- These three hold the upload mutex, so each is one step on the store. `CleanupArtifacts` also runs
-- without it, after an upload in one piece (http.go) and before a deployment (operations.go); it is
-- one step here too, and a cleanup in the middle of another operation is not modelled. Calls that fail
-- for reasons of their own, on the file system or in the database, take their errors from a record
-- of faults, one field for each call; what was changed before an error stays changed.
pub mod Begin
pub mod Direct
pub mod Completion
pub mod Chunks
pub mod Invariant
pub mod Cleanup
mod Tests
use cloudpanel_gateway.Zip.{max_zip_compressed}
use cloudpanel_gateway.Base.{
  Table, lookup, upsert, ℕ, ◌+◌, String, Bool, false, not, ◌||◌, Option, none, some, ◌++◌, str_eq,
  ltb, leb, ◌==◌, if◌then◌else◌, from_rfc3339, Bytes, length, take, Result, ok, err,
}

abbrev pub artifact_ttl : ℕ
artifact_ttl = 3_600_000_000_000

abbrev pub max_artifact_chunk : ℕ
max_artifact_chunk = 1_048_576

abbrev pub max_artifact_chunks : ℕ
max_artifact_chunks = 100

-- A file of the artifact directory: `.ID.part` of an upload, and `ID` of an artifact.
pub data FileName : Type 0 where
  part artifact : String → FileName

abbrev pub file_eq : FileName → FileName → Bool
file_eq (part a) (part b) = str_eq a b
file_eq (artifact a) (artifact b) = str_eq a b
file_eq _ _ = false

abbrev pub Files : Type 0
Files = FileName → Option Bytes

abbrev pub put_file : FileName → Option Bytes → Files → Files
put_file name content files other = if file_eq name other then content else files other

pub record Upload : Type 0 where
  pub id : String
  pub path : FileName
  pub owner_token_id : String
  pub size : ℕ
  pub next_chunk : ℕ
  pub total_chunks : ℕ
  pub created_at : ℕ
  pub expires_at : ℕ

pub record Artifact : Type 0 where
  pub id : String
  pub path : FileName
  pub sha256 : Bytes
  pub size : ℕ
  pub owner_token_id : String
  pub created_at : ℕ
  pub expires_at : ℕ

pub record Store : Type 0 where
  pub uploads : Table Upload
  pub artifacts : Table Artifact
  pub files : Files

abbrev pub Outcome : Type 0 → Type 0
Outcome A = Result A × Store

-- A failing write may have written the first bytes of the chunk.
pub record AppendFaults : Type 0 where
  pub open_file : Option String
  pub write : Option (ℕ × String)
  pub close : Option String
  pub advance : Option String

-- The writing of the chunk and of the row, after all the checks.
unfoldable pub append_file : AppendFaults → Bytes → Upload → Bytes → Store → Outcome Upload
append_file f chunk u content s = elim f.open_file [
  | some e ↦ (err e, s)
  | none ↦ elim f.write [
    | some (n, e) ↦
        (err e, record s { files = put_file u.path (some (content ++ take n chunk)) s.files })
    | none ↦
        let s' = record s { files = put_file u.path (some (content ++ chunk)) s.files } in
        elim f.close [
          | some e ↦ (err e, s')
          | none ↦ elim f.advance [
            | some e ↦ (err e, s')
            | none ↦
                let u' = record u { size = u.size + length chunk; next_chunk = u.next_chunk + 1 } in
                (ok u', record s' { uploads = upsert u.id u' s'.uploads })
          ]
        ]
  ]
]

unfoldable pub append_stat : AppendFaults → Bytes → Upload → Option Bytes → Store → Outcome Upload
unfolding append_file
append_stat f chunk u none s = (err "upload state is inconsistent", s)
append_stat f chunk u (some content) s =
    if not (length content == u.size)
    then (err "upload state is inconsistent", s)
    else if ltb max_zip_compressed (u.size + length chunk)
    then (err "artifact exceeds 100 MiB compressed limit", s)
    else append_file f chunk u content s

unfoldable pub append_row :
    AppendFaults → ℕ → String → ℕ → Bytes → Option Upload → Store → Outcome Upload
unfolding append_stat
append_row f now owner index chunk none s = (err "upload not found", s)
append_row f now owner index chunk (some u) s =
    if not (str_eq u.owner_token_id owner)
    then (err "upload is not owned by this token", s)
    else if ltb (from_rfc3339 u.expires_at) now
    then (err "upload expired", s)
    else if not (index == u.next_chunk) || leb u.total_chunks index
    then (err "unexpected upload chunk index", s)
    else append_stat f chunk u (s.files u.path) s

-- `appendArtifactChunk(t, id, index, data)`. A negative index never equals the row's counter, so
-- the index is a natural number here.
unfoldable pub append_chunk :
    AppendFaults → ℕ → String → String → ℕ → Bytes → Store → Outcome Upload
unfolding append_row
append_chunk f now owner id index chunk s =
    if length chunk == 0 || ltb max_artifact_chunk (length chunk)
    then (err "chunk must be 1 through 1048576 bytes", s)
    else append_row f now owner index chunk (lookup id s.uploads) s
