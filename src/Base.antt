-- ===== src/Base.antt =====
-- The names that the modules of the gateway share: the libraries', passed on, and those of the
-- children: tests on numbers, lists over the native numbers, Go's errors as values, byte texts,
-- and the clock.
mod Tests
mod Lists
mod Outcome
mod Text
mod Clock
mod Keyed
pub use Tests.*
pub use Lists.*
pub use Outcome.*
pub use Text.*
pub use Clock.*
pub use Keyed.{
  Table, IsDistinct, lookup-upsert, lookup-delete, upsert-IsDistinct, delete-IsDistinct,
}
unfoldable pub use Keyed.{lookup, upsert, delete}
pub use Prim.Native.Nat.{ℕ, zero, suc, ◌+◌, ◌-◌, ◌*◌, ◌/◌, ◌%◌, ◌^◌, ◌≤◌, ◌<◌}
pub use Prim.Native.String.{String, len}
pub use mathlib.Core.Path.{◌≡◌, refl, sym, ap, ◌∙◌}
pub use mathlib.Core.Logic.{◌≢◌, ◌↔◌, ◌⊎◌, inl, inr}
pub use mathlib.Core.Bool.{Bool, true, false, not, ◌&&◌, ◌||◌}
pub use mathlib.Core.Option.{Option, none, some}
pub use mathlib.Core.List.{List, [], ◌∷◌, ◌++◌, map, append_assoc, append-nil}
pub use native.Mathlib.Omega.{arith}
pub use text.Mathlib.Text.{◌==◌ as str_eq, starts_with}
pub use text.Mathlib.TextEquality.{eq_iff}
pub use text.Mathlib.TextPositions.{eq_refl}
