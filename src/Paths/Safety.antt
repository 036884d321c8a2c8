-- ===== src/Paths/Safety.antt =====
-- What the textual tests on a cleaned relative path say of its components.
use mathlib.Core.List.{reverse-cons}
use cloudpanel_gateway.Base.{
  ◌≡◌, ap, ◌⊎◌, inl, inr, true, false, List, [], ◌∷◌, ◌++◌, arith, Bytes, codes, bytes_eq,
  bytes_eq→≡, has_prefix, split, All, All-append,
}
use cloudpanel_gateway.Paths.{dotdot, is_abs, push_part, push_parts, clean_parts, clean, reverse}

-- The component names an entry of a directory, and does not lead up.
abbrev pub IsDown : Bytes → Type 0
IsDown part = bytes_eq part dotdot ≡ false

abbrev pub AllDown : List Bytes → Type 0
AllDown = All IsDown

abbrev AllUp : List Bytes → Type 0
AllUp = All (λ part. bytes_eq part dotdot ≡ true)

-- The stack of a relative path: components that lead down, over nothing but `..`.
abbrev IsShaped : List Bytes → Type 0
IsShaped [] = Unit
IsShaped (top ∷ stack) =
    (IsDown top × IsShaped stack) ⊎ ((bytes_eq top dotdot ≡ true) × AllUp stack)

push_part-IsShaped :
    (stack : List Bytes) (part : Bytes) → IsShaped stack → IsShaped (push_part false stack part)
unfolding push_part
push_part-IsShaped [] part h = ground arith
push_part-IsShaped (top ∷ stack) part h = ground arith

push_parts-IsShaped :
    (stack parts : List Bytes) → IsShaped stack → IsShaped (push_parts false stack parts)
unfolding push_parts
push_parts-IsShaped stack [] h = h
push_parts-IsShaped stack (part ∷ parts) h =
    push_parts-IsShaped (push_part false stack part) parts (push_part-IsShaped stack part h)

-- A path that begins with `..`.
abbrev LeadsUp : List Bytes → Type 0
LeadsUp parts = (rest : List Bytes) × (parts ≡ dotdot ∷ rest)

LeadsUp-append : (parts : List Bytes) (p : Bytes) → LeadsUp parts → LeadsUp (parts ++ p ∷ [])
LeadsUp-append parts p (rest, e) = (rest ++ p ∷ [], rw e)

AllUp-reverse :
    (top : Bytes) (stack : List Bytes) → AllUp (top ∷ stack) → LeadsUp (reverse (top ∷ stack))
AllUp-reverse top [] (up, _) = ([], ap (λ t. t ∷ []) (bytes_eq→≡ top dotdot up))
AllUp-reverse top (next ∷ stack) (_, h) =
    rw (reverse-cons top (next ∷ stack)) (LeadsUp-append _ top (AllUp-reverse next stack h))

AllDown-reverse : (stack : List Bytes) → AllDown stack → AllDown (reverse stack)
AllDown-reverse [] h = tt
AllDown-reverse (top ∷ stack) (d, h) =
    rw (reverse-cons top stack)
      (All-append IsDown (reverse stack) (top ∷ []) (AllDown-reverse stack h) (d, tt))

reverse-cases :
    (stack : List Bytes) → IsShaped stack → AllDown (reverse stack) ⊎ LeadsUp (reverse stack)
reverse-cases [] h = inl tt
reverse-cases (top ∷ stack) (inr (up, rest)) = inr (AllUp-reverse top stack (up, rest))
reverse-cases (top ∷ stack) (inl (d, h)) = elim (reverse-cases stack h) [
  | inl below ↦
      inl (rw (reverse-cons top stack) (All-append IsDown (reverse stack) (top ∷ []) below (d, tt)))
  | inr up ↦ inr (rw (reverse-cons top stack) (LeadsUp-append (reverse stack) top up))
]

clean_parts-cases :
    (p : Bytes) → is_abs p ≡ false → AllDown (clean_parts p) ⊎ LeadsUp (clean_parts p)
unfolding clean_parts
clean_parts-cases p rel = rw rel (reverse-cases _ (push_parts-IsShaped [] (split b'/' p) tt))

-- The text of a relative path that leads up.
clean-LeadsUp :
    (p : Bytes) (rest : List Bytes)
    → is_abs p ≡ false
    → clean_parts p ≡ dotdot ∷ rest
    → (bytes_eq (clean p) dotdot ≡ true) ⊎ (has_prefix (clean p) (codes "../") ≡ true)
unfolding clean
clean-LeadsUp p [] rel e = inl (rw (rel, e))
clean-LeadsUp p (q ∷ rest) rel e = inr (rw (rel, e) (ground arith))

-- A relative path whose cleaned form is neither `..` nor begins with `../` has no component that
-- leads up: under any directory it names something in that directory.
pub clean_parts-AllDown :
    (p : Bytes)
    → is_abs p ≡ false
    → bytes_eq (clean p) dotdot ≡ false
    → has_prefix (clean p) (codes "../") ≡ false
    → AllDown (clean_parts p)
clean_parts-AllDown p rel not_up no_prefix = elim (clean_parts-cases p rel) [
  | inl down ↦ down
  | inr up ↦ elim (clean-LeadsUp p up.0 rel up.1) [ inl e ↦ cc | inr e ↦ cc ]
]
