-- ===== src/Zip/Extraction.antt =====
-- `extractZIP`: the loop that unpacks the entries below `dest`. What it asks of the file system is a
-- list of actions, in order, the last of which may have failed; `io` says with which error an action fails, if it does.
use cloudpanel_gateway.Base.{
  ℕ, ◌+◌, ◌≤◌, String, ◌≡◌, refl, inl, inr, true, false, not, Option, none, some, List, [], ◌∷◌,
  ◌++◌, arith, ltb, if◌then◌else◌, Bool-cases, Bytes, has_prefix, length, All, All-append, Result,
  ok, err,
}
use cloudpanel_gateway.Zip.{
  Entry, unsafe_name, over_limit, validate_entries, validate_artifact_zip, validate_read, add_int64,
  max_zip_compressed, max_zip_entries,
}
use cloudpanel_gateway.Paths.{clean, join_path, dir_of, is_abs}
use cloudpanel_gateway.Paths.Rooted.{IsDirect, join_path-IsDirect}

-- `os.MkdirAll(path)`, and the exclusive creation of a file with the copy of the entry into it.
pub data Action : Type 0 where
  make_dirs create_file : Bytes → Action

-- One action, which is on the list though it fails, since a copy may stop half-way; after an error
-- nothing more is done.
abbrev attempt :
    (Action → Option String)
    → Action
    → List Action
    → (List Action → Result ℕ × List Action)
    → Result ℕ × List Action
attempt io a done go_on = elim (io a) [
  | some e ↦ (err e, done ++ a ∷ [])
  | none ↦ go_on (done ++ a ∷ [])
]

module _ (io : Action → Option String) (dest : Bytes) where
  unfoldable pub extract_entries :
      List Entry → List Bytes → ℕ → ℕ → List Action → Result ℕ × List Action
  unfolding unsafe_name over_limit
  extract_entries [] seen total count done = (ok count, done)
  extract_entries (e ∷ entries) seen total count done =
      let total' = add_int64 total e.uncompressed in
      let go_on = extract_entries entries (clean e.name ∷ seen) total' in
      let out = join_path dest (clean e.name) in
      if unsafe_name e.name seen
      then (err "ZIP contains unsafe or duplicate path", done)
      else if e.symlink
      then (err "ZIP symlinks are not permitted", done)
      else if over_limit total' e
      then (err "ZIP expansion limit exceeded", done)
      else if not (has_prefix out (dest ++ b'/' ∷ []))
      then (err "ZIP path escapes target", done)
      else if e.directory
      then attempt io (make_dirs out) done (go_on count)
      else if not e.regular
      then (err "ZIP special files are not permitted", done)
      else attempt io (make_dirs (dir_of out)) done
          λ made. attempt io (create_file out) made (go_on (count + 1))

  -- `extractZIP(path, dest)`; `size` is the size of the archive, `entries` what its reader found
  unfoldable pub extract_zip : ℕ → Option (List Entry) → Result ℕ × List Action
  unfolding extract_entries
  extract_zip size none =
      if ltb max_zip_compressed size
      then (err "ZIP exceeds 100 MiB compressed limit", [])
      else (err "artifact must be a valid ZIP", [])
  extract_zip size (some entries) =
      if ltb max_zip_compressed size
      then (err "ZIP exceeds 100 MiB compressed limit", [])
      else if ltb max_zip_entries (length entries)
      then (err "ZIP has too many entries", [])
      else extract_entries entries [] 0 0 []

  -- A file lies below `dest`: its path begins with it, and no component of the path is `..`.
  abbrev pub IsWithin : Action → Type 0
  IsWithin (make_dirs p) = Unit
  IsWithin (create_file p) = (has_prefix p (dest ++ b'/' ∷ []) ≡ true) × IsDirect p

  entries-IsWithin :
      is_abs dest ≡ true
      → (entries : List Entry) (seen : List Bytes) (total count : ℕ) (done : List Action)
      → All IsWithin done
      → All IsWithin (extract_entries entries seen total count done).1
  unfolding extract_entries
  entries-IsWithin rooted [] seen total count done h = h
  entries-IsWithin rooted (e ∷ entries) seen total count done h =
      let total' = add_int64 total e.uncompressed in
      let out = join_path dest (clean e.name) in
      let next = entries-IsWithin rooted entries (clean e.name ∷ seen) total' in
      let dirs = done ++ make_dirs out ∷ [] in
      let made = done ++ make_dirs (dir_of out) ∷ [] in
      ground (
        arith,
        next count dirs,
        All-append IsWithin done (make_dirs out ∷ []) h (tt, tt),
        All-append IsWithin done (make_dirs (dir_of out) ∷ []) h (tt, tt),
        All-append IsWithin made (create_file out ∷ []),
        join_path-IsDirect dest (clean e.name) rooted,
        next (count + 1) (made ++ create_file out ∷ []),
      )

  -- Whatever the archive holds and wherever the unpacking stops, each file that was created, or
  -- whose creation failed, lies below the directory, if that is an absolute path: its path begins
  -- with the directory, and none of its components is `..`.
  pub extract_zip-IsWithin :
      is_abs dest ≡ true
      → (size : ℕ) (entries : Option (List Entry)) → All IsWithin (extract_zip size entries).1
  unfolding extract_zip
  extract_zip-IsWithin rooted size none = ground arith
  extract_zip-IsWithin rooted size (some entries) =
      ground (arith, entries-IsWithin rooted entries [] 0 0 [] tt)

  -- The number of entries that are no directories.
  abbrev pub files : List Entry → ℕ
  files [] = 0
  files (e ∷ entries) = (if e.directory then 0 else 1) + files entries

  -- The loop of the unpacking refuses whatever the loop of the upload check does.
  extract_entries-validates :
      (entries : List Entry) (seen : List Bytes) (total count n : ℕ) (done : List Action)
      → (extract_entries entries seen total count done).0 ≡ ok n
      → (validate_entries seen total entries ≡ ok tt) × (n ≡ count + files entries)
  unfolding extract_entries validate_entries
  extract_entries-validates [] seen total count n done h = (refl, ground arith)
  extract_entries-validates (e ∷ entries) seen total count n done h =
      let total' = add_int64 total e.uncompressed in
      let out = join_path dest (clean e.name) in
      let next = extract_entries-validates entries (clean e.name ∷ seen) total' in
      ground (
        arith,
        next count n (done ++ make_dirs out ∷ []),
        next (count + 1) n ((done ++ make_dirs (dir_of out) ∷ []) ++ create_file out ∷ []),
      )

  extract_zip-ok :
      (size : ℕ) (entries : List Entry) (n : ℕ)
      → (extract_zip size (some entries)).0 ≡ ok n
      → (ltb max_zip_compressed size ≡ false)
        × (ltb max_zip_entries (length entries) ≡ false)
        × ((extract_entries entries [] 0 0 []).0 ≡ ok n)
  unfolding extract_zip
  extract_zip-ok size entries n h = elim (Bool-cases (ltb max_zip_compressed size)) [
    | inl big ↦ absurd (ground (arith, big))
    | inr small ↦ elim (Bool-cases (ltb max_zip_entries (length entries))) [
      | inl many ↦ absurd (ground (arith, small, many))
      | inr few ↦ (small, few, rw (small, few, extract_zip) at h)
    ]
  ]

  -- An archive with an entry that is unpacked without an error also passes the upload check, if it
  -- has the four bytes that the check asks for; and the number that comes back is that of its
  -- entries which are no directories.
  pub extract_zip-validates :
      (read_zip : Bytes → Option (List Entry)) (content : Bytes) (e : Entry) (entries : List Entry)
      (n : ℕ)
      → read_zip content ≡ some (e ∷ entries)
      → 4 ≤ length content
      → (extract_zip (length content) (read_zip content)).0 ≡ ok n
      → (validate_artifact_zip read_zip none content ≡ ok tt) × (n ≡ files (e ∷ entries))
  unfolding extract_zip validate_artifact_zip validate_read
  extract_zip-validates read_zip content e entries n found long h =
      let (small, few, j) = extract_zip-ok (length content) (e ∷ entries) n (rw found at h) in
      let (valid, count) = extract_entries-validates (e ∷ entries) [] 0 0 n [] j in
      (accepted small few valid, omega (arith, count))
    where
      accepted :
          ltb max_zip_compressed (length content) ≡ false
          → ltb max_zip_entries (length (e ∷ entries)) ≡ false
          → validate_entries [] 0 (e ∷ entries) ≡ ok tt
          → validate_artifact_zip read_zip none content ≡ ok tt
      accepted small few valid =
          rw (found, small, validate_artifact_zip, validate_read) (ground (arith, few, valid, long))
