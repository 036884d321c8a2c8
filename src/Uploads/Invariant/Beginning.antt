-- ===== src/Uploads/Invariant/Beginning.antt =====
-- `beginArtifactUpload` against the invariant of the part files.
use cloudpanel_gateway.Base.{
  lookup, upsert, ℕ, String, ◌≡◌, refl, inl, inr, ◌||◌, Option, none, some, [], arith, ltb,
  Bool-cases, Option-cases, Result-cases, ok,
}
use cloudpanel_gateway.Uploads.{Upload, Store, part, put_file, max_artifact_chunks}
use cloudpanel_gateway.Uploads.Begin.{
  BeginFaults, new_upload, put_upload, begin_with, begin_id, begin_upload,
}
use cloudpanel_gateway.Uploads.Cleanup.{cleanup}
use cloudpanel_gateway.Uploads.Invariant.{IsSound, Log}
use cloudpanel_gateway.Uploads.Invariant.Steps.{row-IsSound, log_begin, stray-IsSound}
use cloudpanel_gateway.Uploads.Invariant.Removal.{cleanup-IsSound, cleanup-fresh}

module _ (log : Log) (s : Store) (sound : IsSound log s) where
  put_upload-fresh :
      (fault : Option String) (u : Upload) (t : Store)
      → fault ≡ none
      → lookup u.id t.uploads ≡ none
      → put_upload fault u t ≡ (ok tt, record t { uploads = upsert u.id u t.uploads })
  unfolding put_upload
  put_upload-fresh fault u t p fresh = rw (p, fresh, put_upload)

  begin_with-IsSound :
      (f : BeginFaults) (now : ℕ) (owner : String) (total : ℕ) (id : String)
      → lookup id s.uploads ≡ none
      → IsSound
          (log_begin (begin_with f now owner total id s).0 log)
          (begin_with f now owner total id s).1
  unfolding begin_with
  begin_with-IsSound f now owner total id fresh =
      let made = stray-IsSound log s sound id (some []) fresh in
      elim (Option-cases (s.files (part id))) [
        | inr (old, p) ↦ rw (p, begin_with) sound
        | inl p ↦ elim (Option-cases f.open_file) [
          | inr (e, q) ↦ rw (p, q, begin_with) sound
          | inl q ↦ elim (Option-cases f.close) [
            | inr (e, r) ↦ rw (p, q, r, begin_with) made
            | inl r ↦ elim (Option-cases f.put) [
              | inr (e, t) ↦ rw (p, q, r, t, begin_with) (stray-IsSound log _ made id none fresh)
              | inl t ↦
                  rw (p, q, r, begin_with)
                    (rw
                      (put_upload-fresh f.put (new_upload now owner total id)
                        (record s { files = put_file (part id) (some []) s.files }) t fresh)
                      ((row-IsSound log s sound id (new_upload now owner total id) [] (record {
                        named = refl;
                        at_part = refl;
                        counted = refl;
                        in_range = omega arith;
                        bounded = omega arith;
                        on_disk = inl refl;
                      }))))
            ]
          ]
        ]
      ]

  begin_id-IsSound :
      (f : BeginFaults) (now : ℕ) (owner : String) (total : ℕ)
      → ((id : String) → f.id ≡ ok id → lookup id s.uploads ≡ none)
      → IsSound (log_begin (begin_id f now owner total s).0 log) (begin_id f now owner total s).1
  unfolding begin_id
  begin_id-IsSound f now owner total fresh = elim (Result-cases f.id) [
    | inr (e, q) ↦ rw (q, begin_id) sound
    | inl (id, q) ↦ rw (q, begin_id) (begin_with-IsSound f now owner total id (fresh id q))
  ]

-- From a sound store every call of `beginArtifactUpload`, its cleanup included, whatever fails,
-- leaves a sound store, in which a new upload has no accepted bytes yet; the id that `newID` draws
-- must be fresh.
pub begin_upload-IsSound :
    (log : Log) (s : Store)
    → IsSound log s
    → (f : BeginFaults) (cleaned_at now : ℕ) (owner : String) (total : ℕ)
    → ((id : String) → f.id ≡ ok id → lookup id s.uploads ≡ none)
    → IsSound
        (log_begin (begin_upload f cleaned_at now owner total s).0 log)
        (begin_upload f cleaned_at now owner total s).1
unfolding begin_upload
begin_upload-IsSound log s sound f cleaned_at now owner total fresh =
    elim (Bool-cases (ltb total 1 || ltb max_artifact_chunks total)) [
      | inl b ↦ rw (b, begin_upload) sound
      | inr b ↦ elim (Option-cases f.make_dir) [
        | inr (e, p) ↦ rw (b, p, begin_upload) sound
        | inl p ↦
            rw (b, p, begin_upload)
              (begin_id-IsSound log (cleanup f.clean cleaned_at s).1
                (cleanup-IsSound log s sound f.clean cleaned_at) f now owner total
                (λ id q. cleanup-fresh s f.clean cleaned_at id (fresh id q)))
      ]
    ]
