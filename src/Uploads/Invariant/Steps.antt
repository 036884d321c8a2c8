-- ===== src/Uploads/Invariant/Steps.antt =====
-- The changes of rows and part files that the operations make, against the invariant.
use mathlib.Core.Path.{subst}
use cloudpanel_gateway.Base.{
  Table, IsDistinct, lookup-upsert, upsert-IsDistinct, lookup, upsert, ℕ, ◌<◌, String, ◌≡◌, sym, ap,
  ◌∙◌, ◌⊎◌, inl, inr, false, Option, none, some, [], ◌++◌, append-nil, arith, str_eq, eq_iff, ◌==◌,
  ==_iff, Bool-cases, Bytes, length, take, length-append, length-zero, Result, ok, err,
}
use cloudpanel_gateway.Uploads.{Upload, Store, put_file, Files, part}
use cloudpanel_gateway.Uploads.Invariant.{IsSound, Log, log_set, UploadOk, FileOk}

-- What the log becomes by an operation's answer.
abbrev pub log_chunk : String → Bytes → Result Upload → Log → Log
log_chunk id chunk (err e) log = log
log_chunk id chunk (ok u) log = log_set id (log id ++ chunk) log

abbrev pub log_begin : Result Upload → Log → Log
log_begin (err e) log = log
log_begin (ok u) log = log_set u.id [] log

-- A change of the part file of one upload, seen from any upload.
FileOk-put :
    (accepted : Bytes) (id j : String) (row u : Upload) (file : Option Bytes) (files : Files)
    → (id ≡ j → row ≡ u)
    → (id ≡ j → FileOk accepted row file)
    → FileOk accepted u (files (part j))
    → FileOk accepted u (put_file (part id) file files (part j))
FileOk-put accepted id j row u file files same here there = elim (Bool-cases (str_eq id j)) [
  | inl e ↦
      let p = (eq_iff id j).0 e in rw e (subst (λ x. FileOk accepted x file) (same p) (here p))
  | inr e ↦ rw e there
]

same_row :
    (m : Table Upload) (id j : String) (row u : Upload)
    → lookup id m ≡ some row
    → lookup j m ≡ some u
    → id ≡ j
    → row ≡ u
same_row m id j row u found e p = let q = ap (λ k. lookup k m) p in cc

module _ (log : Log) (s : Store) (sound : IsSound log s) where
  -- Only the part file of one upload changes.
  pub file-IsSound :
      (id : String) (row : Upload) (file : Option Bytes)
      → lookup id s.uploads ≡ some row
      → FileOk (log id) row file
      → IsSound log (record s { files = put_file row.path file s.files })
  file-IsSound id row file found h = record {
    distinct = sound.distinct;
    at = λ j u e.
        let old = sound.at id row found in
        let here = sound.at j u e in
        record {
          named = here.named;
          at_part = here.at_part;
          counted = here.counted;
          in_range = here.in_range;
          bounded = here.bounded;
          on_disk = rw old.at_part (
              FileOk-put (log j) id j row u file s.files (same_row s.uploads id j row u found e)
                (λ p. subst (λ k. FileOk (log k) row file) p h) here.on_disk);
        };
  }

  -- A row and its part file change together, with the log.
  pub row-IsSound :
      (id : String) (row : Upload) (bytes : Bytes)
      → UploadOk bytes id row (some bytes)
      → IsSound (log_set id bytes log) (record s {
        files = put_file (part id) (some bytes) s.files;
        uploads = upsert id row s.uploads;
      })
  row-IsSound id row bytes ok_row = record {
    distinct = upsert-IsDistinct id row s.uploads sound.distinct;
    at = λ j u e. elim (Bool-cases (str_eq id j)) [
      | inl t ↦
          let p = (eq_iff id j).0 t in
          let q : row ≡ u = ground (arith, lookup-upsert id j row s.uploads) in
          rw t (
            subst (λ k. UploadOk bytes k u (some bytes)) p
              (subst (λ x. UploadOk bytes id x (some bytes)) q ok_row))
      | inr t ↦ rw t (sound.at j u (ground (arith, lookup-upsert id j row s.uploads)))
    ];
  }

  -- The partial write of a failing `Write`.
  pub partial-FileOk :
      (id : String) (row : Upload) (content chunk : Bytes) (n : ℕ)
      → length content ≡ row.size
      → content ≡ log id
      → row.next_chunk < row.total_chunks
      → FileOk (log id) row (some (content ++ take n chunk))
  partial-FileOk id row content chunk n size same more =
      elim (Bool-cases (length (take n chunk) == 0)) [
        | inl e ↦ inl (rw (length-zero (take n chunk) ((==_iff _ _).0 e), append-nil) same)
        | inr e ↦ inr (ground (arith, length-append content (take n chunk)), more)
      ]

  pub whole-FileOk :
      (id : String) (row : Upload) (content chunk : Bytes)
      → length content ≡ row.size
      → 0 < length chunk
      → row.next_chunk < row.total_chunks
      → FileOk (log id) row (some (content ++ chunk))
  whole-FileOk id row content chunk size some_bytes more =
      inr ((λ e. omega (arith, length-append content chunk)), more)

  -- A part file that has the recorded size holds the accepted bytes.
  pub size-accepted :
      (id : String) (row : Upload) (content : Bytes)
      → lookup id s.uploads ≡ some row
      → s.files row.path ≡ some content
      → length content ≡ row.size
      → content ≡ log id
  size-accepted id row content found file size =
      let old = sound.at id row found in
      let here : FileOk (log id) row (some content) =
        subst (λ (o : Option Bytes). FileOk (log id) row o) (ap s.files (sym old.at_part) ∙ file)
          old.on_disk in
      ground arith

  -- A part file that belongs to no row may come and go.
  pub stray-IsSound :
      (id : String) (file : Option Bytes)
      → lookup id s.uploads ≡ none
      → IsSound log (record s { files = put_file (part id) file s.files })
  stray-IsSound id file fresh = record {
    distinct = sound.distinct;
    at = λ j u e.
        let here = sound.at j u e in
        let other : str_eq id j ≡ false =
          ground (arith, eq_iff id j, ap (λ k. lookup k s.uploads) {x = id} {y = j}) in
        rw other here;
  }

-- Rows may go, and part files may go: what is left is sound.
pub fewer-IsSound :
    (log : Log) (s s' : Store)
    → IsSound log s
    → IsDistinct s'.uploads
    → ((j : String) (u : Upload) → lookup j s'.uploads ≡ some u → lookup j s.uploads ≡ some u)
    → ((j : String) → (s'.files (part j) ≡ none) ⊎ (s'.files (part j) ≡ s.files (part j)))
    → IsSound log s'
fewer-IsSound log s s' sound distinct rows files = record {
  distinct = distinct;
  at = λ j u e.
      let here = sound.at j u (rows j u e) in
      record {
        named = here.named;
        at_part = here.at_part;
        counted = here.counted;
        in_range = here.in_range;
        bounded = here.bounded;
        on_disk = elim (files j) [ inl gone ↦ rw gone tt | inr same ↦ rw same here.on_disk ];
      };
}
