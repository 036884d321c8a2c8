-- ===== src/Auth/Scopes.antt =====
-- `scopeRE` and `HasScope` of core.go
use cloudpanel_gateway.Base.{
  ℕ, String, Bool, false, ◌&&◌, ◌||◌, List, [], ◌∷◌, str_eq, leb, ◌==◌, Bytes, codes, bytes_eq, any,
}

abbrev is_lower : ℕ → Bool
is_lower c = leb b'a' c && leb c b'z'

abbrev is_digit : ℕ → Bool
is_digit c = leb b'0' c && leb c b'9'

-- `[a-z0-9-]`
abbrev is_area : ℕ → Bool
is_area c = is_lower c || is_digit c || c == b'-'

-- The seven verbs that may stand behind the colon.
abbrev pub verbs : List Bytes
verbs =
    codes "read"
    ∷ codes "write"
    ∷ codes "admin"
    ∷ codes "purge"
    ∷ codes "permissions"
    ∷ codes "transfer"
    ∷ codes "deploy"
    ∷ codes "build"
    ∷ []

-- What is left behind the characters of the area: `:verb`. The area has no colon, so there is one
-- way to cut the text.
abbrev matches_verb : Bytes → Bool
matches_verb [] = false
matches_verb (c ∷ s) = c == b':' && any (bytes_eq s) verbs

abbrev matches_area : Bytes → Bool
matches_area [] = false
matches_area (c ∷ s) = (is_area c && matches_area s) || matches_verb (c ∷ s)

abbrev matches_scope : Bytes → Bool
matches_scope [] = false
matches_scope (c ∷ s) = is_lower c && matches_area s

-- `scopeRE.MatchString(v)`
unfoldable pub is_scope : String → Bool
is_scope v = str_eq v "admin" || matches_scope (codes v)

-- `HasScope(t, needed)`, over the token's scopes
unfoldable pub has_scope : List String → String → Bool
has_scope [] needed = false
has_scope (s ∷ scopes) needed = str_eq s "admin" || str_eq s needed || has_scope scopes needed
