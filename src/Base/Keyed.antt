-- ===== src/Base/Keyed.antt =====
-- A table with a text for its primary key, as the list of its rows: the rows' keys are written
-- beside them. `upsert` is `INSERT … ON CONFLICT(key) DO UPDATE`, `delete` is `DELETE … WHERE key=?`.
use Prim.Native.String.{String}
use mathlib.Core.Path.{◌≡◌, refl}
use mathlib.Core.Logic.{inl, inr}
use mathlib.Core.Option.{Option, none, some}
use mathlib.Core.List.{List, [], ◌∷◌}
use native.Mathlib.Omega.{arith}
use text.Mathlib.Text.{◌==◌}
use text.Mathlib.TextEquality.{eq_iff}
use cloudpanel_gateway.Base.Tests.{if◌then◌else◌, Bool-cases}

abbrev pub Table {ℓ} : Type ℓ → Type ℓ
Table V = List (String × V)

module _ {ℓ} {V : Type ℓ} where
  unfoldable pub lookup : String → Table V → Option V
  lookup k [] = none
  lookup k ((j, v) ∷ m) = if j == k then some v else lookup k m

  unfoldable pub upsert : String → V → Table V → Table V
  upsert k v [] = (k, v) ∷ []
  upsert k v ((j, w) ∷ m) = if j == k then (k, v) ∷ m else (j, w) ∷ upsert k v m

  unfoldable pub delete : String → Table V → Table V
  delete k [] = []
  delete k ((j, v) ∷ m) = let rest = delete k m in if j == k then rest else (j, v) ∷ rest

  pub lookup-upsert :
      (k j : String) (v : V) (m : Table V)
      → lookup j (upsert k v m) ≡ (if k == j then some v else lookup j m)
  unfolding lookup upsert
  lookup-upsert k j v [] = refl
  lookup-upsert k j v ((i, w) ∷ m) =
      ground (arith, eq_iff k j, eq_iff i k, eq_iff i j, lookup-upsert k j v m)

  pub lookup-delete :
      (k j : String) (m : Table V) → lookup j (delete k m) ≡ (if k == j then none else lookup j m)
  unfolding lookup delete
  lookup-delete k j [] = ground arith
  lookup-delete k j ((i, w) ∷ m) =
      ground (arith, eq_iff k j, eq_iff i k, eq_iff i j, lookup-delete k j m)

  -- No key stands in two rows.
  abbrev pub IsDistinct : Table V → Type ℓ
  IsDistinct [] = Unit
  IsDistinct ((k, v) ∷ m) = (lookup k m ≡ none) × IsDistinct m

  pub upsert-IsDistinct :
      (k : String) (v : V) (m : Table V) → IsDistinct m → IsDistinct (upsert k v m)
  unfolding lookup upsert
  upsert-IsDistinct k v [] h = (refl, tt)
  upsert-IsDistinct k v ((j, w) ∷ m) (fresh, h) = elim (Bool-cases (j == k)) [
    | inl e ↦ rw e (rw ((eq_iff j k).0 e) at fresh, h)
    | inr e ↦ rw e (
      ground (arith, lookup-upsert k j v m, eq_iff j k, eq_iff k j, fresh),
      upsert-IsDistinct k v m h,
    )
  ]

  pub delete-IsDistinct : (k : String) (m : Table V) → IsDistinct m → IsDistinct (delete k m)
  unfolding lookup delete
  delete-IsDistinct k [] h = tt
  delete-IsDistinct k ((j, w) ∷ m) (fresh, h) = elim (Bool-cases (j == k)) [
    | inl e ↦ rw e (delete-IsDistinct k m h)
    | inr e ↦ rw e (ground (arith, lookup-delete k j m, eq_iff k j, fresh), delete-IsDistinct k m h)
  ]
