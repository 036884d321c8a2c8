-- ===== src/Paths/Rooted.antt =====
-- A cleaned absolute path leads nowhere up: it is its components, each the name of an entry.
use cloudpanel_gateway.Base.{
  ℕ, ◌≡◌, refl, inl, inr, true, false, List, [], ◌∷◌, ◌++◌, arith, ◌==◌, Bool-cases, Bytes,
  bytes_eq, has_byte, push_head, split, join, All, All-append,
}
use mathlib.Core.List.{reverse, reverse-cons}
use cloudpanel_gateway.Paths.{dotdot, is_abs, push_part, push_parts, clean_parts, clean, join_path}

-- The name of an entry of a directory
abbrev pub IsPlainPart : Bytes → Type 0
IsPlainPart part = (bytes_eq part dotdot ≡ false) × (has_byte b'/' part ≡ false)

-- `/a/b/c`, where no component is `..`
abbrev pub IsDirect : Bytes → Type 0
IsDirect p = (parts : List Bytes) × (p ≡ b'/' ∷ join b'/' parts) × All IsPlainPart parts

abbrev Lacks : ℕ → Bytes → Type 0
Lacks sep piece = has_byte sep piece ≡ false

push_head-Lacks :
    (sep c : ℕ) (pieces : List Bytes)
    → (c == sep) ≡ false
    → All (Lacks sep) pieces
    → All (Lacks sep) (push_head c pieces)
push_head-Lacks sep c [] e h = (ground arith, tt)
push_head-Lacks sep c (p ∷ ps) e (d, h) = (ground arith, h)

split-Lacks : (sep : ℕ) (s : Bytes) → All (Lacks sep) (split sep s)
split-Lacks sep [] = (refl, tt)
split-Lacks sep (c ∷ s) = elim (Bool-cases (c == sep)) [
  | inl e ↦ rw e (refl, split-Lacks sep s)
  | inr e ↦ rw e (push_head-Lacks sep c (split sep s) e (split-Lacks sep s))
]

push_part-IsPlainPart :
    (stack : List Bytes) (part : Bytes)
    → All IsPlainPart stack
    → has_byte b'/' part ≡ false
    → All IsPlainPart (push_part true stack part)
unfolding push_part
push_part-IsPlainPart [] part h e = ground arith
push_part-IsPlainPart (top ∷ stack) part h e = ground arith

push_parts-IsPlainPart :
    (stack parts : List Bytes)
    → All IsPlainPart stack
    → All (Lacks b'/') parts
    → All IsPlainPart (push_parts true stack parts)
unfolding push_parts
push_parts-IsPlainPart stack [] h e = h
push_parts-IsPlainPart stack (part ∷ parts) h (d, e) =
    push_parts-IsPlainPart (push_part true stack part) parts (push_part-IsPlainPart stack part h d)
      e

reverse-IsPlainPart : (stack : List Bytes) → All IsPlainPart stack → All IsPlainPart (reverse stack)
reverse-IsPlainPart [] h = tt
reverse-IsPlainPart (top ∷ stack) (d, h) =
    rw (reverse-cons top stack)
      (All-append IsPlainPart (reverse stack) (top ∷ []) (reverse-IsPlainPart stack h) (d, tt))

clean-IsDirect : (p : Bytes) → is_abs p ≡ true → IsDirect (clean p)
unfolding clean clean_parts
clean-IsDirect p rooted = (
  clean_parts p,
  rw (rooted, clean) refl,
  rw (rooted, clean_parts)
      (reverse-IsPlainPart _ (push_parts-IsPlainPart [] (split b'/' p) tt (split-Lacks b'/' p))),
)

-- `filepath.Join` of an absolute path and any text
pub join_path-IsDirect : (a b : Bytes) → is_abs a ≡ true → IsDirect (join_path a b)
unfolding join_path is_abs
join_path-IsDirect [] b h = cc
join_path-IsDirect (c ∷ a) [] h = clean-IsDirect (c ∷ a) h
join_path-IsDirect (c ∷ a) (d ∷ b) h = clean-IsDirect ((c ∷ a) ++ b'/' ∷ d ∷ b) h
