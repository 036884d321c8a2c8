-- ===== src/Uploads/Invariant/Removal.antt =====
-- `CleanupArtifacts` against the invariant of the part files: it takes rows and files away, and
-- changes none that it leaves.
use cloudpanel_gateway.Base.{
  Table, IsDistinct, lookup, ℕ, String, ◌≡◌, refl, ◌⊎◌, inl, inr, none, some, [], ◌∷◌, arith,
  eq_iff, Bool-cases, Option-cases,
}
use cloudpanel_gateway.Uploads.{Store, FileName, Files, part, file_eq, put_file}
use cloudpanel_gateway.Uploads.Cleanup.{
  CleanupFaults, is_due, upload_expiry, upload_path, artifact_expiry, artifact_path, keep_live,
  remove_due, clean_uploads, cleanup,
}
use cloudpanel_gateway.Uploads.Invariant.{IsSound, Log}
use cloudpanel_gateway.Uploads.Invariant.Steps.{fewer-IsSound}

module _ {V : Type 0} (expires_at : V → ℕ) (path : V → FileName) (now : ℕ) where
  remove_due-gone :
      (rows : Table V) (files : Files) (name : FileName)
      → (remove_due expires_at path now rows files name ≡ none)
        ⊎ (remove_due expires_at path now rows files name ≡ files name)
  unfolding remove_due
  remove_due-gone [] files name = inr refl
  remove_due-gone ((k, v) ∷ rows) files name = elim (Bool-cases (is_due now (expires_at v))) [
    | inr live ↦ rw live (remove_due-gone rows files name)
    | inl due ↦ elim (remove_due-gone rows (put_file (path v) none files) name) [
      | inl gone ↦ inl (rw due gone)
      | inr same ↦ elim (Bool-cases (file_eq (path v) name)) [
        | inl here ↦ inl (rw (due, same, here) refl)
        | inr there ↦ inr (rw (due, same, there) refl)
      ]
    ]
  ]

  keep_live-fresh :
      (rows : Table V) (k : String)
      → lookup k rows ≡ none
      → lookup k (keep_live expires_at path now rows) ≡ none
  unfolding keep_live lookup
  keep_live-fresh [] k h = refl
  keep_live-fresh ((j, v) ∷ rows) k h = ground (arith, keep_live-fresh rows k)

  keep_live-found :
      (rows : Table V)
      → IsDistinct rows
      → (k : String) (v : V) → lookup k (keep_live expires_at path now rows) ≡ some v
      → lookup k rows ≡ some v
  unfolding keep_live lookup
  keep_live-found [] d k v h = h
  keep_live-found ((j, w) ∷ rows) (fresh, d) k v h = ground (
    arith,
    eq_iff j k,
    keep_live-found rows d k v,
    keep_live-fresh rows j fresh,
    keep_live-fresh rows k,
  )

  keep_live-IsDistinct :
      (rows : Table V) → IsDistinct rows → IsDistinct (keep_live expires_at path now rows)
  unfolding keep_live lookup
  keep_live-IsDistinct [] d = tt
  keep_live-IsDistinct ((j, w) ∷ rows) (fresh, d) = elim (Bool-cases (is_due now (expires_at w))) [
    | inl due ↦ rw due (keep_live-IsDistinct rows d)
    | inr live ↦ rw live (keep_live-fresh rows j fresh, keep_live-IsDistinct rows d)
  ]

module _ (log : Log) (s : Store) (sound : IsSound log s) where
  clean_uploads-IsSound : (f : CleanupFaults) (now : ℕ) → IsSound log (clean_uploads f now s).1
  unfolding clean_uploads
  clean_uploads-IsSound f now =
      let files =
        λ (j : String). remove_due-gone upload_expiry upload_path now s.uploads s.files (part j) in
      elim (Option-cases f.query_uploads) [
        | inr (e, p) ↦ rw p sound
        | inl p ↦ elim (Option-cases f.delete_uploads) [
          | inr (e, q) ↦ rw (p, q) (fewer-IsSound log s _ sound sound.distinct (λ j u h. h) files)
          | inl q ↦
              rw (p, q)
                (fewer-IsSound log s _ sound
                  (keep_live-IsDistinct upload_expiry upload_path now s.uploads sound.distinct)
                  (keep_live-found upload_expiry upload_path now s.uploads sound.distinct) files)
        ]
      ]

-- From a sound store every call of `CleanupArtifacts`, whatever fails, leaves a sound store.
pub cleanup-IsSound :
    (log : Log) (s : Store)
    → IsSound log s
    → (f : CleanupFaults) (now : ℕ) → IsSound log (cleanup f now s).1
unfolding cleanup
cleanup-IsSound log s sound f now =
    let files = λ (j : String).
      remove_due-gone artifact_expiry artifact_path now s.artifacts s.files (part j) in
    elim (Option-cases f.query_artifacts) [
      | inr (e, p) ↦ rw p sound
      | inl p ↦ elim (Option-cases f.delete_artifacts) [
        | inr (e, q) ↦ rw (p, q) (fewer-IsSound log s _ sound sound.distinct (λ j u h. h) files)
        | inl q ↦
            rw (p, q)
              (clean_uploads-IsSound log _
                (fewer-IsSound log s _ sound sound.distinct (λ j u h. h) files) f now)
      ]
    ]

clean_uploads-fresh :
    (s : Store) (f : CleanupFaults) (now : ℕ) (id : String)
    → lookup id s.uploads ≡ none
    → lookup id (clean_uploads f now s).1.uploads ≡ none
unfolding clean_uploads
clean_uploads-fresh s f now id fresh = elim (Option-cases f.query_uploads) [
  | inr (e, p) ↦ rw p fresh
  | inl p ↦ elim (Option-cases f.delete_uploads) [
    | inr (e, q) ↦ rw (p, q) fresh
    | inl q ↦ rw (p, q) (keep_live-fresh upload_expiry upload_path now s.uploads id fresh)
  ]
]

pub cleanup-fresh :
    (s : Store) (f : CleanupFaults) (now : ℕ) (id : String)
    → lookup id s.uploads ≡ none
    → lookup id (cleanup f now s).1.uploads ≡ none
unfolding cleanup
cleanup-fresh s f now id fresh = elim (Option-cases f.query_artifacts) [
  | inr (e, p) ↦ rw p fresh
  | inl p ↦ elim (Option-cases f.delete_artifacts) [
    | inr (e, q) ↦ rw (p, q) fresh
    | inl q ↦ rw (p, q) (clean_uploads-fresh _ f now id fresh)
  ]
]
