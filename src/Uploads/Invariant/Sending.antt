-- ===== src/Uploads/Invariant/Sending.antt =====
-- The upload of an artifact in one piece against the invariant of the part files: it writes and
-- removes files of artifacts alone, and cleans up.
use cloudpanel_gateway.Base.{
  ℕ, String, refl, inl, inr, Option, none, some, List, ltb, Bool-cases, Option-cases, Bytes, codes,
  bytes_eq, length, take, Result-cases, ok, err,
}
use cloudpanel_gateway.Zip.{Entry, validate_artifact_zip}
use cloudpanel_gateway.Uploads.{Store, Artifact, Outcome, artifact, put_file, max_zip_compressed}
use cloudpanel_gateway.Uploads.Completion.{put_artifact}
use cloudpanel_gateway.Uploads.Direct.{
  DirectFaults, remove_artifact, direct_artifact, direct_put, direct_checked, direct_copied,
  upload_artifact,
}
use cloudpanel_gateway.Uploads.Invariant.{IsSound, Log}
use cloudpanel_gateway.Uploads.Invariant.Steps.{fewer-IsSound}
use cloudpanel_gateway.Uploads.Invariant.Removal.{cleanup-IsSound}
use cloudpanel_gateway.Uploads.Invariant.Completing.{put_artifact-tables}

file-IsSound :
    (log : Log) (s : Store)
    → IsSound log s
    → (id : String) (file : Option Bytes)
    → IsSound log (record s { files = put_file (artifact id) file s.files })
file-IsSound log s sound id file =
    fewer-IsSound log s _ sound sound.distinct (λ j u h. h) (λ j. inr refl)

remove_artifact-IsSound :
    (log : Log) (s : Store)
    → IsSound log s
    → (fault : Option String) (id : String) → IsSound log (remove_artifact fault id s)
remove_artifact-IsSound log s sound (some e) id = sound
remove_artifact-IsSound log s sound none id = file-IsSound log s sound id none

put_artifact-IsSound :
    (log : Log) (s : Store)
    → IsSound log s
    → (fault : Option String) (a : Artifact) → IsSound log (put_artifact fault a s).1
put_artifact-IsSound log s sound fault a =
    let (files, rows) = put_artifact-tables fault a s in
    fewer-IsSound log s _ sound (rw rows sound.distinct) (λ j u h. rw rows at h)
      (λ j. inr (rw files refl))

module _ (sha256 : Bytes → Bytes) (read_zip : Bytes → Option (List Entry)) (log : Log)
    (f : DirectFaults) (now : ℕ) where
  direct_put-IsSound :
      (id : String) (o : Outcome (Unit {0}))
      → IsSound log o.1
      → IsSound log (direct_put sha256 read_zip f now id o).1
  unfolding direct_put
  direct_put-IsSound id (err e, s) sound = remove_artifact-IsSound log s sound f.remove id
  direct_put-IsSound id (ok tt, s) sound = cleanup-IsSound log s sound f.clean now

  direct_checked-IsSound :
      (owner id : String) (body : Bytes) (s : Store)
      → IsSound log s
      → IsSound log (direct_checked sha256 read_zip f now owner id body s).1
  unfolding direct_checked
  direct_checked-IsSound owner id body s sound =
      let removed = remove_artifact-IsSound log s sound f.remove id in
      elim (Option-cases f.probe) [
        | inr (e, p) ↦ rw (p, direct_checked) sound
        | inl p ↦ elim (Option-cases f.read_probe) [
          | inr (e, q) ↦ rw (p, q, direct_checked) removed
          | inl q ↦ elim (Bool-cases (bytes_eq (take 2 body) (codes "PK"))) [
            | inr r ↦ rw (p, q, r, direct_checked) removed
            | inl r ↦ elim (Result-cases (validate_artifact_zip read_zip f.read_archive body)) [
              | inr (e, v) ↦ rw (p, q, r, v, direct_checked) removed
              | inl (u, v) ↦
                  rw (p, q, r, v, direct_checked)
                    (direct_put-IsSound id _ (
                      put_artifact-IsSound log s sound f.put
                        (direct_artifact sha256 read_zip now id body owner)))
            ]
          ]
        ]
      ]

  direct_copied-IsSound :
      (owner id : String) (body : Bytes) (s : Store)
      → IsSound log s
      → IsSound log (direct_copied sha256 read_zip f now owner id body s).1
  unfolding direct_copied
  direct_copied-IsSound owner id body s sound =
      let kept = λ (written : Bytes). file-IsSound log s sound id (some written) in
      let removed = λ (written : Bytes). remove_artifact-IsSound log _ (kept written) f.remove id in
      elim (Option-cases f.copy) [
        | inr ((n, e), p) ↦ rw (p, direct_copied) (removed (take n body))
        | inl p ↦ elim (Bool-cases (ltb max_zip_compressed (length body))) [
          | inl q ↦ rw (p, q, direct_copied) (removed (take max_zip_compressed body))
          | inr q ↦ elim (Option-cases f.close) [
            | inr (e, r) ↦ rw (p, q, r, direct_copied) (removed body)
            | inl r ↦ elim (Bool-cases (ltb (length body) 4)) [
              | inl t ↦ rw (p, q, r, t, direct_copied) (removed body)
              | inr t ↦
                  rw (p, q, r, t, direct_copied)
                    (direct_checked-IsSound owner id body _ (kept body))
            ]
          ]
        ]
      ]

-- From a sound store every artifact sent in one piece, accepted or not, leaves a sound store.
pub upload_artifact-IsSound :
    (sha256 : Bytes → Bytes) (read_zip : Bytes → Option (List Entry)) (log : Log) (s : Store)
    → IsSound log s
    → (f : DirectFaults) (now : ℕ) (owner : String) (body : Bytes)
    → IsSound log (upload_artifact sha256 read_zip f now owner body s).1
unfolding upload_artifact
upload_artifact-IsSound sha256 read_zip log s sound f now owner body =
    elim (Option-cases f.make_dir) [
      | inr (e, p) ↦ rw (p, upload_artifact) sound
      | inl p ↦ elim (Result-cases f.id) [
        | inr (e, q) ↦ rw (p, q, upload_artifact) sound
        | inl (id, q) ↦ elim (Option-cases (s.files (artifact id))) [
          | inr (old, r) ↦ rw (p, q, r, upload_artifact) sound
          | inl r ↦ elim (Option-cases f.open_file) [
            | inr (e, t) ↦ rw (p, q, r, t, upload_artifact) sound
            | inl t ↦
                rw (p, q, r, t, upload_artifact)
                  (direct_copied-IsSound sha256 read_zip log f now owner id body s sound)
          ]
        ]
      ]
    ]
