-- ===== src/Uploads/Invariant/Published.antt =====
-- What `completeArtifactUpload` publishes.
use mathlib.Core.Path.{subst}
use cloudpanel_gateway.Base.{
  lookup-upsert, lookup-delete, lookup, upsert, delete, ℕ, String, ◌≡◌, sym, ap, ◌∙◌, inl, inr,
  Option, none, some, List, arith, eq_iff, eq_refl, Option-cases, Bytes, length, Result-cases, ok,
}
use cloudpanel_gateway.Zip.{Entry}
use cloudpanel_gateway.Uploads.{Upload, Store, Artifact, artifact}
use cloudpanel_gateway.Uploads.Completion.{
  publish, complete_file, complete_row, complete_upload, CompleteFaults, rename_file, new_artifact,
}
use cloudpanel_gateway.Uploads.Invariant.{IsSound, Log, FileOk}

-- What the caller, the store and the tables have when an upload was completed.
pub record Published (sha256 : Bytes → Bytes) (accepted : Bytes) (owner id : String) (a : Artifact)
    (s s' : Store) : Type 0 where
  pub content : s'.files (artifact a.id) ≡ some accepted
  pub hashed : a.sha256 ≡ sha256 accepted
  pub sized : a.size ≡ length accepted
  pub owned : a.owner_token_id ≡ owner
  pub listed : lookup a.id s'.artifacts ≡ some a
  pub ended : lookup id s'.uploads ≡ none

module _ (sha256 : Bytes → Bytes) (read_zip : Bytes → Option (List Entry)) (log : Log) (s : Store)
    (sound : IsSound log s) where
  -- The state after a publication without an error.
  abbrev published_store : ℕ → String → Upload → Bytes → Store
  published_store now new row content = record s {
    files = rename_file row.path (artifact new) content s.files;
    artifacts = upsert new (new_artifact sha256 read_zip now new content row) s.artifacts;
    uploads = delete row.id s.uploads;
  }

  publish-store :
      (f : CompleteFaults) (now : ℕ) (new : String) (row : Upload) (content : Bytes) (a : Artifact)
      (s' : Store)
      → publish sha256 read_zip f now new row content s ≡ (ok a, s')
      → (a ≡ new_artifact sha256 read_zip now new content row)
        × (s' ≡ published_store now new row content)
  unfolding publish
  publish-store f now new row content a s' h = (ground arith, ground arith)

  -- All chunks are there, so the part file is the accepted bytes.
  whole-accepted :
      (id : String) (row : Upload) (content : Bytes)
      → lookup id s.uploads ≡ some row
      → s.files row.path ≡ some content
      → row.next_chunk ≡ row.total_chunks
      → content ≡ log id
  whole-accepted id row content found file all_there =
      let old = sound.at id row found in
      let here : FileOk (log id) row (some content) =
        subst (λ (o : Option Bytes). FileOk (log id) row o) (ap s.files (sym old.at_part) ∙ file)
          old.on_disk in
      ground arith

  publish-Published :
      (f : CompleteFaults) (now : ℕ) (new id owner : String) (row : Upload) (content : Bytes)
      (a : Artifact) (s' : Store)
      → lookup id s.uploads ≡ some row
      → s.files row.path ≡ some content
      → row.next_chunk ≡ row.total_chunks
      → row.owner_token_id ≡ owner
      → publish sha256 read_zip f now new row content s ≡ (ok a, s')
      → Published sha256 (log id) owner id a s s'
  publish-Published f now new id owner row content a s' found file all_there mine h =
      let old = sound.at id row found in
      let same = whole-accepted id row content found file all_there in
      let (e, d) = publish-store f now new row content a s' h in
      rw (e, d)
        (record {
          content = rw (eq_refl new, same);
          hashed = ap sha256 same;
          sized = sym old.counted;
          owned = mine;
          listed = rw (lookup-upsert, eq_refl new);
          ended = rw (lookup-delete, old.named, eq_refl id);
        })

  -- If an upload is completed from a sound store without an error then its published file holds exactly the accepted
  -- chunks, in order; the artifact's row, which the table lists, has their hash, their size and the
  -- owner of the upload, who is the caller; and the upload is gone.
  pub complete_upload-Published :
      (f : CompleteFaults) (now : ℕ) (owner id : String) (a : Artifact) (s' : Store)
      → complete_upload sha256 read_zip f now owner id s ≡ (ok a, s')
      → Published sha256 (log id) owner id a s s'
  unfolding complete_upload complete_row complete_file
  complete_upload-Published f now owner id a s' h = elim (Option-cases (lookup id s.uploads)) [
    | inl missing ↦ ground arith
    | inr (row, found) ↦ elim (Option-cases (s.files row.path)) [
      | inl gone ↦ ground arith
      | inr (content, file) ↦ elim (Result-cases f.id) [
        | inr (e, q) ↦ ground arith
        | inl (new, q) ↦
            publish-Published f now new id owner row content a s' found file (ground arith)
              (ground (arith, eq_iff row.owner_token_id owner)) (ground arith)
      ]
    ]
  ]
