-- ===== src/Zip.antt =====
-- The ZIP checks of internal/gateway/operations.go: `validateArtifactZIP`, which decides at upload
-- whether an archive may be kept, and `extractZIP`, which unpacks it into a staging directory.
-- The archive reader (`zip.NewReader`) is the argument `read_zip`; an entry carries what its header
-- declares. The `int64` and `uint64` values are written as the numbers below 2^64 that have their
-- bits.
pub mod Safety
pub mod Bounds
pub mod Extraction
mod Tests
use cloudpanel_gateway.Paths.{clean, dot, is_abs}
use cloudpanel_gateway.Base.{
  ℕ, ◌+◌, ◌*◌, ◌%◌, String, Bool, not, ◌&&◌, ◌||◌, Option, none, some, List, [], ◌∷◌, ltb, ◌==◌,
  if◌then◌else◌, Bytes, codes, bytes_eq, has_prefix, length, any, Result, ok, err,
}

pub record Entry : Type 0 where
  pub name : Bytes
  pub symlink : Bool
  pub directory : Bool
  pub regular : Bool
  pub uncompressed : ℕ
  pub compressed : ℕ

abbrev pub max_zip_compressed : ℕ
max_zip_compressed = 104_857_600

abbrev pub max_zip_expanded : ℕ
max_zip_expanded = 536_870_912

abbrev pub max_zip_entries : ℕ
max_zip_entries = 10_000

abbrev pub max_zip_ratio : ℕ
max_zip_ratio = 100

abbrev pub word : ℕ
word = 18_446_744_073_709_551_616

-- `a < b` on `int64`: the sign bit, flipped, orders the bits.
abbrev pub lt_int64 : ℕ → ℕ → Bool
lt_int64 a b =
    ltb ((a + 9_223_372_036_854_775_808) % 18_446_744_073_709_551_616)
      ((b + 9_223_372_036_854_775_808) % 18_446_744_073_709_551_616)

-- `a + b` on `int64`
abbrev pub add_int64 : ℕ → ℕ → ℕ
add_int64 a b = (a + b) % 18_446_744_073_709_551_616

-- `a * b` on `int64`
abbrev pub mul_int64 : ℕ → ℕ → ℕ
mul_int64 a b = (a * b) % 18_446_744_073_709_551_616

-- `name == "." || filepath.IsAbs(v.Name) || strings.HasPrefix(name, "../") || seen[name]`
unfoldable pub unsafe_name : Bytes → List Bytes → Bool
unsafe_name raw seen =
    bytes_eq (clean raw) dot
    || is_abs raw
    || has_prefix (clean raw) (codes "../")
    || any (bytes_eq (clean raw)) seen

-- `total > maxZIPExpanded || (v.CompressedSize64 > 0 && int64(v.UncompressedSize64) >
-- int64(v.CompressedSize64)*maxZIPRatio)`, of the total that includes the entry
unfoldable pub over_limit : ℕ → Entry → Bool
over_limit total e =
    lt_int64 max_zip_expanded total
    || (ltb 0 e.compressed && lt_int64 (mul_int64 e.compressed max_zip_ratio) e.uncompressed)

-- The loop of `validateArtifactZIP` over the entries.
unfoldable pub validate_entries : List Bytes → ℕ → List Entry → Result (Unit {0})
unfolding unsafe_name over_limit
validate_entries seen total [] = ok tt
validate_entries seen total (e ∷ entries) =
    let rest = validate_entries (clean e.name ∷ seen) (add_int64 total e.uncompressed) entries in
    if unsafe_name e.name seen
    then err "ZIP contains unsafe or duplicate path"
    else if e.symlink || (not e.directory && not e.regular)
    then err "ZIP contains unsupported file type"
    else if over_limit (add_int64 total e.uncompressed) e
    then err "ZIP expansion limit exceeded"
    else rest

unfoldable pub validate_read : Option (List Entry) → Result (Unit {0})
unfolding validate_entries
validate_read none = err "artifact must be a valid ZIP"
validate_read (some entries) =
    if length entries == 0 || ltb max_zip_entries (length entries)
    then err "ZIP has invalid entry count"
    else validate_entries [] 0 entries

-- `validateArtifactZIP(path)`, of the file's content; `fault` is a failure to open or stat it.
unfoldable pub validate_artifact_zip :
    (Bytes → Option (List Entry)) → Option String → Bytes → Result (Unit {0})
unfolding validate_read
validate_artifact_zip read_zip (some fault) content = err fault
validate_artifact_zip read_zip none content =
    if ltb (length content) 4 || ltb max_zip_compressed (length content)
    then err "ZIP exceeds permitted size"
    else validate_read (read_zip content)
