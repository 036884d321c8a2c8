-- ===== src/Uploads/Invariant/Completing.antt =====
-- `completeArtifactUpload` against the invariant of the part files: an upload that cannot be
-- completed keeps its row and its part file, or its row alone.
use cloudpanel_gateway.Base.{
  lookup-delete, delete-IsDistinct, lookup, ℕ, String, ◌≡◌, refl, sym, ap, ◌∙◌, ◌⊎◌, inl, inr, true,
  not, ◌||◌, Option, none, some, List, arith, str_eq, eq_iff, ltb, ◌==◌, Bool-cases, Option-cases,
  from_rfc3339, Bytes, Result-cases, ok, err,
}
use cloudpanel_gateway.Zip.{Entry, validate_artifact_zip}
use cloudpanel_gateway.Uploads.{
  Upload, Store, FileName, Files, Artifact, Outcome, artifact, part, file_eq,
}
use cloudpanel_gateway.Uploads.Completion.{
  CompleteFaults, rename_file, rename_unless, new_artifact, put_artifact, publish_put, publish,
  complete_file, complete_row, complete_upload,
}
use cloudpanel_gateway.Uploads.Invariant.{IsSound, Log}
use cloudpanel_gateway.Uploads.Invariant.Steps.{fewer-IsSound}

pub put_artifact-tables :
    (fault : Option String) (a : Artifact) (s : Store)
    → ((put_artifact fault a s).1.files ≡ s.files)
      × ((put_artifact fault a s).1.uploads ≡ s.uploads)
unfolding put_artifact
put_artifact-tables (some e) a s = (refl, refl)
put_artifact-tables none a s = elim (Option-cases (lookup a.id s.artifacts)) [
  | inl fresh ↦ rw (fresh, put_artifact) (refl, refl)
  | inr (old, p) ↦ rw (p, put_artifact) (refl, refl)
]

file_eq-part : (name : FileName) (j : String) → file_eq name (part j) ≡ true → name ≡ part j
file_eq-part (part i) j h = ap part ((eq_iff i j).0 h)
file_eq-part (artifact i) j h = cc

-- The part file that was renamed is gone, and the others are there.
rename_file-part :
    (name : FileName) (id j : String) (content : Bytes) (files : Files)
    → (rename_file name (artifact id) content files (part j) ≡ none)
      ⊎ (rename_file name (artifact id) content files (part j) ≡ files (part j))
rename_file-part name id j content files = elim (Bool-cases (file_eq name (part j))) [
  | inl here ↦ inl (rw here refl)
  | inr there ↦ inr (rw there refl)
]

-- Renamed back, it holds what it held; if that fails, it is gone.
rename_unless-part :
    (fault : Option String) (name : FileName) (id j : String) (content : Bytes) (files : Files)
    → files name ≡ some content
    → let there =
        rename_unless fault
          (artifact id)
          name
          content
          (rename_file name (artifact id) content files)
          (part j) in
      (there ≡ none) ⊎ (there ≡ files (part j))
rename_unless-part (some e) name id j content files h = rename_file-part name id j content files
rename_unless-part none name id j content files h = elim (Bool-cases (file_eq name (part j))) [
  | inl here ↦ inr (rw here (sym h ∙ ap files (file_eq-part name j here)))
  | inr there ↦ inr (rw there refl)
]

module _ (sha256 : Bytes → Bytes) (read_zip : Bytes → Option (List Entry)) (log : Log) (s : Store)
    (sound : IsSound log s) where
  publish_put-IsSound :
      (f : CompleteFaults) (now : ℕ) (new : String) (row : Upload) (content : Bytes)
      → s.files row.path ≡ some content
      → (o : Outcome (Unit {0})) → o.1.files ≡ rename_file row.path (artifact new) content s.files
      → o.1.uploads ≡ s.uploads
      → IsSound log
          (publish_put sha256 read_zip f row content
            (new_artifact sha256 read_zip now new content row)
            o).1
  unfolding publish_put
  publish_put-IsSound f now new row content file (err e, t) p q =
      fewer-IsSound log s _ sound (rw q sound.distinct) (λ j u h. rw q at h)
        (λ j. rw p (rename_unless-part f.rename_back row.path new j content s.files file))
  publish_put-IsSound f now new row content file (ok tt, t) p q =
      let gone = λ (j : String). rename_file-part row.path new j content s.files in
      elim (Option-cases f.delete_row) [
        | inr (e, r) ↦ rw r (
            fewer-IsSound log s t sound (rw q sound.distinct) (λ j u h. rw q at h)
              (λ j. rw p (gone j)))
        | inl r ↦ rw r (
            fewer-IsSound log s _ sound (rw q (delete-IsDistinct row.id s.uploads sound.distinct))
              (λ j u h. ground (arith, lookup-delete row.id j s.uploads, rw q at h))
              (λ j. rw p (gone j)))
      ]

  publish-IsSound :
      (f : CompleteFaults) (now : ℕ) (new : String) (row : Upload) (content : Bytes)
      → s.files row.path ≡ some content
      → IsSound log (publish sha256 read_zip f now new row content s).1
  unfolding publish
  publish-IsSound f now new row content file = elim (Option-cases f.rename) [
    | inr (e, p) ↦ rw (p, publish) sound
    | inl p ↦
        let a = new_artifact sha256 read_zip now new content row in
        let moved = record s { files = rename_file row.path (artifact new) content s.files } in
        let (q, r) = put_artifact-tables f.put a moved in
        rw (p, publish)
          (publish_put-IsSound f now new row content file (put_artifact f.put a moved) q r)
  ]

  complete_file-IsSound :
      (f : CompleteFaults) (now : ℕ) (row : Upload)
      → IsSound log (complete_file sha256 read_zip f now row (s.files row.path) s).1
  unfolding complete_file
  complete_file-IsSound f now row = elim (Option-cases (s.files row.path)) [
    | inl gone ↦ rw (gone, complete_file) sound
    | inr (content, file) ↦
        elim (Result-cases (validate_artifact_zip read_zip f.read_archive content)) [
          | inr (e, p) ↦ rw (file, p, complete_file) sound
          | inl (v, p) ↦ elim (Option-cases f.read_file) [
            | inr (e, q) ↦ rw (file, p, q, complete_file) sound
            | inl q ↦ elim (Result-cases f.id) [
              | inr (e, r) ↦ rw (file, p, q, r, complete_file) sound
              | inl (new, r) ↦
                  rw (file, p, q, r, complete_file) (publish-IsSound f now new row content file)
            ]
          ]
        ]
  ]

  -- From a sound store every call of `completeArtifactUpload`, whatever fails, leaves a sound store.
  pub complete_upload-IsSound :
      (f : CompleteFaults) (now : ℕ) (owner id : String)
      → IsSound log (complete_upload sha256 read_zip f now owner id s).1
  unfolding complete_upload complete_row
  complete_upload-IsSound f now owner id = elim (Option-cases (lookup id s.uploads)) [
    | inl missing ↦ rw missing sound
    | inr (row, found) ↦ elim (Bool-cases (str_eq row.owner_token_id owner)) [
      | inr other ↦ rw (found, other) sound
      | inl mine ↦
          elim (Bool-cases (
            ltb (from_rfc3339 row.expires_at) now
            || not (row.next_chunk == row.total_chunks)
            || ltb row.size 4)) [
              | inl bad ↦ rw (found, mine, bad) sound
              | inr good ↦ rw (found, mine, good) (complete_file-IsSound f now row)
            ]
    ]
  ]
