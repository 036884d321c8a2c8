-- ===== src/Zip/Bounds.antt =====
-- The expansion limits, and the sizes at which the 64-bit arithmetic defeats them.
use cloudpanel_gateway.Base.{
  ℕ, ◌+◌, ◌*◌, ◌≤◌, ◌<◌, ◌≡◌, ◌⊎◌, true, false, List, [], ◌∷◌, arith, Bytes, All, ok,
}
use cloudpanel_gateway.Zip.{
  Entry, unsafe_name, over_limit, validate_entries, add_int64, max_zip_expanded, clean,
}

abbrev pub expanded : List Entry → ℕ
expanded [] = 0
expanded (e ∷ entries) = e.uncompressed + expanded entries

-- Declared sizes at which neither conversion to `int64` nor the product with the ratio wraps.
abbrev pub IsSmall : Entry → Type 0
IsSmall e = (e.uncompressed < 4_611_686_018_427_387_904) × (e.compressed < 46_116_860_184_273_879)

abbrev pub InRatio : Entry → Type 0
InRatio e = (e.compressed ≡ 0) ⊎ (e.uncompressed ≤ 100 * e.compressed)

step_bounds :
    (total : ℕ) (e : Entry)
    → total ≤ 536_870_912
    → IsSmall e
    → over_limit (add_int64 total e.uncompressed) e ≡ false
    → (add_int64 total e.uncompressed ≡ total + e.uncompressed)
      × (total + e.uncompressed ≤ 536_870_912)
      × InRatio e
unfolding over_limit
step_bounds total e t small h = (omega arith, ground arith, ground arith)

-- If no declared size is so large that the 64-bit arithmetic wraps, then the declared sizes of an
-- accepted archive add up to at most 512 MiB, beyond what was counted before, and no entry expands
-- more than a hundredfold.
pub validate_entries_bounds :
    (seen : List Bytes) (total : ℕ) (entries : List Entry)
    → total ≤ max_zip_expanded
    → All IsSmall entries
    → validate_entries seen total entries ≡ ok tt
    → (total + expanded entries ≤ max_zip_expanded) × All InRatio entries
unfolding validate_entries
validate_entries_bounds seen total [] t small h = (omega arith, tt)
validate_entries_bounds seen total (e ∷ entries) t (s, small) h =
    let (whole, fits, ratio) = step_bounds total e t s (ground arith) in
    let (sum, ratios) =
      validate_entries_bounds (clean e.name ∷ seen) (add_int64 total e.uncompressed) entries
        (omega arith) small (ground arith) in
    (omega arith, (ratio, ratios))

-- A declared size of 2^63 bytes or more is negative as an `int64`. So an archive with one such
-- entry, otherwise in order, is accepted, though it declares far more than 512 MiB.
pub validate_entries_wraps :
    (e : Entry)
    → unsafe_name e.name [] ≡ false
    → (e.symlink ≡ false) × (e.regular ≡ true)
    → 9_223_372_036_854_775_808 ≤ e.uncompressed
    → e.uncompressed < 18_446_744_073_709_551_616
    → e.compressed < 46_116_860_184_273_879
    → (validate_entries [] 0 (e ∷ []) ≡ ok tt) × (max_zip_expanded < expanded (e ∷ []))
unfolding validate_entries over_limit
validate_entries_wraps e name plain low high packed = (ground arith, omega arith)
