-- ===== src/Base/Text.antt =====
-- Byte texts: what the program walks character by character is the list of its bytes, with the
-- functions of Go's `strings` that the program calls. A text that the program only compares, such
-- as a key of a table, is a native `String`.
use Prim.Native.Char.{code}
use Prim.Native.Nat.{ℕ, suc}
use Prim.Native.String.{String}
use mathlib.Core.Path.{◌≡◌, refl}
use mathlib.Core.Logic.{◌≢◌}
use mathlib.Core.Bool.{Bool, true, false, ◌&&◌, ◌||◌}
use mathlib.Core.Option.{Option, none, some}
use mathlib.Core.Option
use mathlib.Core.List.{List, [], ◌∷◌, ◌++◌}
use native.Mathlib.Omega.{arith}
use cloudpanel_gateway.Base.Tests.{◌==◌, if◌then◌else◌}

abbrev pub Bytes : Type 0
Bytes = List ℕ

-- The bytes of a literal; the program's literals are ASCII.
abbrev pub codes : String → Bytes
codes String.[] = []
codes (String.◌∷◌ c s) = code c ∷ codes s

-- `a == b` on texts
abbrev pub bytes_eq : Bytes → Bytes → Bool
bytes_eq [] [] = true
bytes_eq (c ∷ a) (d ∷ b) = c == d && bytes_eq a b
bytes_eq _ _ = false

pub bytes_eq→≡ : (a b : Bytes) → bytes_eq a b ≡ true → a ≡ b
bytes_eq→≡ [] [] h = refl
bytes_eq→≡ (c ∷ a) (d ∷ b) h = ground (arith, bytes_eq→≡ a b)
bytes_eq→≡ [] (d ∷ b) h = cc
bytes_eq→≡ (c ∷ a) [] h = cc

pub bytes_eq_refl : (a : Bytes) → bytes_eq a a ≡ true
bytes_eq_refl [] = refl
bytes_eq_refl (c ∷ a) = ground (arith, bytes_eq_refl a)

-- `strings.HasPrefix(s, p)`
abbrev pub has_prefix : Bytes → Bytes → Bool
has_prefix s [] = true
has_prefix [] (p ∷ ps) = false
has_prefix (c ∷ s) (p ∷ ps) = c == p && has_prefix s ps

pub has_prefix-append : (p s : Bytes) → has_prefix (p ++ s) p ≡ true
has_prefix-append [] [] = refl
has_prefix-append [] (c ∷ s) = refl
has_prefix-append (c ∷ p) s = ground (arith, has_prefix-append p s)

-- `strings.IndexByte(s, c) >= 0`
abbrev pub has_byte : ℕ → Bytes → Bool
has_byte c [] = false
has_byte c (d ∷ s) = d == c || has_byte c s

-- `strings.ContainsAny(s, set)`
abbrev pub contains_any : Bytes → Bytes → Bool
contains_any [] set = false
contains_any (c ∷ s) set = has_byte c set || contains_any s set

-- `strings.Count(s, c)` for a text of one byte
abbrev pub count_byte : ℕ → Bytes → ℕ
count_byte c [] = 0
count_byte c (d ∷ s) = let n = count_byte c s in if d == c then suc n else n

-- `strings.Index(s, t)`, `none` for -1
abbrev pub index_of : Bytes → Bytes → Option ℕ
index_of [] t = if has_prefix [] t then some 0 else none
index_of (c ∷ s) t =
    let rest = Option.map suc (index_of s t) in if has_prefix (c ∷ s) t then some 0 else rest

-- `strings.Contains(s, t)`
abbrev pub contains : Bytes → Bytes → Bool
contains s t = elim (index_of s t) [ none ↦ false | some _ ↦ true ]

-- A first piece put in front of the pieces of a split.
abbrev pub push_head : ℕ → List Bytes → List Bytes
push_head c [] = (c ∷ []) ∷ []
push_head c (p ∷ ps) = (c ∷ p) ∷ ps

-- `strings.Split(s, sep)` for a separator of one byte: never empty
abbrev pub split : ℕ → Bytes → List Bytes
split sep [] = [] ∷ []
split sep (c ∷ s) = let rest = split sep s in if c == sep then [] ∷ rest else push_head c rest

-- `strings.Join(parts, sep)` for a separator of one byte
abbrev pub join : ℕ → List Bytes → Bytes
join sep [] = []
join sep (p ∷ []) = p
join sep (p ∷ q ∷ ps) = p ++ sep ∷ join sep (q ∷ ps)

join-push_head : (sep c : ℕ) (ps : List Bytes) → join sep (push_head c ps) ≡ c ∷ join sep ps
join-push_head sep c [] = refl
join-push_head sep c (p ∷ []) = refl
join-push_head sep c (p ∷ q ∷ ps) = refl

split-ne-nil : (sep : ℕ) (s : Bytes) → split sep s ≢ []
split-ne-nil sep [] = cc
split-ne-nil sep (c ∷ s) = ground (arith, push_head-ne-nil c (split sep s))
  where
    push_head-ne-nil : (c : ℕ) (ps : List Bytes) → push_head c ps ≢ []
    push_head-ne-nil c [] = cc
    push_head-ne-nil c (p ∷ ps) = cc

join-nil-cons : (sep : ℕ) (ps : List Bytes) → ps ≢ [] → join sep ([] ∷ ps) ≡ sep ∷ join sep ps
join-nil-cons sep [] h = absurd (h refl)
join-nil-cons sep (p ∷ ps) h = refl

-- The pieces of a split, joined again, are the text.
pub join-split : (sep : ℕ) (s : Bytes) → join sep (split sep s) ≡ s
join-split sep [] = refl
join-split sep (c ∷ s) = ground (
  arith,
  join-push_head sep c (split sep s),
  join-nil-cons sep (split sep s),
  split-ne-nil sep s,
  join-split sep s,
)
