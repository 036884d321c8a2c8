-- ===== src/Zip/Tests.antt =====
-- Runs of the archive checks.
use cloudpanel_gateway.Zip.{Entry, max_zip_expanded}
unfoldable use cloudpanel_gateway.Zip.{
  validate_artifact_zip, validate_entries, unsafe_name, over_limit,
}
unfoldable use cloudpanel_gateway.Paths.{clean, clean_parts, is_abs, join_path}
use cloudpanel_gateway.Zip.Bounds.{
  expanded, InRatio, validate_entries_bounds, validate_entries_wraps,
}
use cloudpanel_gateway.Zip.Extraction.{
  Action, IsWithin, files, extract_zip-IsWithin, extract_zip-validates,
}
unfoldable use cloudpanel_gateway.Zip.Extraction.{extract_entries, extract_zip}
use cloudpanel_gateway.Base.{
  ◌+◌, ◌≤◌, ◌<◌, String, ◌≡◌, refl, true, false, Option, none, some, List, [], ◌∷◌, arith, Bytes,
  codes, All, ok,
}

abbrev page : Entry
page = record {
  name = codes "a/b.html";
  symlink = false;
  directory = false;
  regular = true;
  uncompressed = 50;
  compressed = 10;
}

abbrev folder : Entry
folder = record {
  name = codes "a/";
  symlink = false;
  directory = true;
  regular = false;
  uncompressed = 0;
  compressed = 0;
}

abbrev archive : List Entry
archive = folder ∷ page ∷ []

abbrev huge : Entry
huge = record page { uncompressed = 9_223_372_036_854_775_808 }

validate_entries_bounds_example : (0 + expanded archive ≤ max_zip_expanded) × All InRatio archive
unfolding validate_entries unsafe_name over_limit clean clean_parts is_abs
validate_entries_bounds_example =
    validate_entries_bounds [] 0 archive (omega arith)
      ((omega arith, omega arith), ((omega arith, omega arith), tt)) refl

validate_entries_wraps_example :
    (validate_entries [] 0 (huge ∷ []) ≡ ok tt) × (max_zip_expanded < expanded (huge ∷ []))
unfolding unsafe_name clean clean_parts is_abs
validate_entries_wraps_example =
    validate_entries_wraps huge refl (refl, refl) (omega arith) (omega arith) (omega arith)

abbrev no_error : Action → Option String
no_error a = none

abbrev dest : Bytes
dest = codes "/srv/stage"

extract_zip-IsWithin_example :
    All (IsWithin no_error dest) (extract_zip no_error dest 900 (some archive)).1
unfolding is_abs
extract_zip-IsWithin_example = extract_zip-IsWithin no_error dest refl 900 (some archive)

abbrev any_archive : Bytes → Option (List Entry)
any_archive content = some archive

extract_zip-validates_example :
    (validate_artifact_zip any_archive none (codes "PK..") ≡ ok tt)
    × (1 ≡ files no_error dest archive)
unfolding extract_zip extract_entries unsafe_name over_limit clean clean_parts is_abs join_path
extract_zip-validates_example =
    extract_zip-validates no_error dest any_archive (codes "PK..") folder (page ∷ []) 1 refl
      (omega arith) refl

-- The upload check lets the entry `..` through, and refuses an archive without an entry, which is
-- unpacked as nothing.
abbrev up : Entry
up = record folder { name = codes ".." }

odd_archives :
    (validate_entries [] 0 (up ∷ []) ≡ ok tt) × ((extract_zip no_error dest 900 (some [])).0 ≡ ok 0)
unfolding validate_entries unsafe_name over_limit clean clean_parts is_abs extract_zip
    extract_entries
odd_archives = (refl, refl)
