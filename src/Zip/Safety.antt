-- ===== src/Zip/Safety.antt =====
-- What an accepted archive cannot hold.
use cloudpanel_gateway.Paths.Safety.{AllDown}
use cloudpanel_gateway.Base.{◌≡◌, ◌⊎◌, true, false, List, [], ◌∷◌, Bytes, bytes_eq, any}
use cloudpanel_gateway.Zip.{Entry}
use cloudpanel_gateway.Paths.{clean, is_abs, dotdot, dot, clean_parts}

-- An entry's name stays below the directory into which it is unpacked, but for the one name `..`
-- that the check lets through, and the entry is a file or a directory.
pub record IsSafe (e : Entry) : Type 0 where
  pub relative : is_abs e.name ≡ false
  pub not_root : bytes_eq (clean e.name) dot ≡ false
  pub below : AllDown (clean_parts e.name) ⊎ (bytes_eq (clean e.name) dotdot ≡ true)
  pub plain : (e.symlink ≡ false) × ((e.directory ≡ true) ⊎ (e.regular ≡ true))

-- No name of the list is among those that were seen, or comes twice.
abbrev pub IsFresh : List Bytes → List Entry → Type 0
IsFresh seen [] = Unit
IsFresh seen (e ∷ entries) =
    (any (bytes_eq (clean e.name)) seen ≡ false) × IsFresh (clean e.name ∷ seen) entries
