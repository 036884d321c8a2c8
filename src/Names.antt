-- ===== src/Names.antt =====
-- The names that reach paths and commands: `domainRE` and `ValidateDomain` of
-- internal/gateway/core.go, `siteUserRE` of internal/gateway/logs.go, read off the regular
-- expressions.
pub mod Plain
mod Tests
use cloudpanel_gateway.Base.{
  ℕ, ◌≡◌, refl, Bool, true, false, not, ◌&&◌, ◌||◌, [], ◌∷◌, ltb, leb, ◌==◌, if◌then◌else◌, Bytes,
  codes, has_prefix, split, length, all, Result, is_ok, refuse_if,
}

-- `[a-z0-9-]`
abbrev pub lower_alnum : ℕ → Bool
lower_alnum c = (leb b'a' c && leb c b'z') || (leb b'0' c && leb c b'9')

abbrev pub upper : ℕ → Bool
upper c = leb b'A' c && leb c b'Z'

-- `(?i)[a-z0-9-]` on bytes below 128
abbrev pub host_byte : ℕ → Bool
host_byte c = lower_alnum c || upper c || c == b'-'

-- Where the fold of the letter case stands: `(?i)` also lets the long s (U+017F) through as an
-- `s`, and the Kelvin sign (U+212A) as a `k`.
pub data Fold : Type 0 where
  plain long_s kelvin kelvin_end : Fold

abbrev pub fold_char : Fold → ℕ → (Fold → Bytes) → Bytes
fold_char plain c next =
    if c == 197 then next long_s else if c == 226 then next kelvin else c ∷ next plain
fold_char long_s c next = if c == 191 then b's' ∷ next plain else 197 ∷ c ∷ next plain
fold_char kelvin c next = if c == 132 then next kelvin_end else 226 ∷ c ∷ next plain
fold_char kelvin_end c next = if c == 170 then b'k' ∷ next plain else 226 ∷ 132 ∷ c ∷ next plain

unfoldable pub fold_case : Fold → Bytes → Bytes
fold_case plain [] = []
fold_case long_s [] = 197 ∷ []
fold_case kelvin [] = 226 ∷ []
fold_case kelvin_end [] = 226 ∷ 132 ∷ []
fold_case m (c ∷ v) = fold_char m c (λ n. fold_case n v)

abbrev pub last_is : ℕ → Bytes → Bool
last_is c [] = false
last_is c (d ∷ []) = d == c
last_is c (d ∷ e ∷ v) = last_is c (e ∷ v)

-- `[a-z0-9](?:[a-z0-9-]{0,61}[a-z0-9])?`
abbrev pub valid_label : Bytes → Bool
valid_label v =
    ltb 0 (length v)
    && ltb (length v) 64
    && all host_byte v
    && not (has_prefix v (b'-' ∷ []))
    && not (last_is b'-' v)

-- `domainRE.MatchString(v)`
abbrev pub domain_re : Bytes → Bool
domain_re v =
    leb 2 (length (split b'.' (fold_case plain v)))
    && all valid_label (split b'.' (fold_case plain v))

-- `ValidateDomain(v)`
unfoldable pub validate_domain : Bytes → Result (Unit {0})
unfolding fold_case
validate_domain v = refuse_if (ltb 253 (length v) || not (domain_re v)) "invalid domain"

-- `[a-z_]`, `[a-z0-9_-]`
abbrev pub user_byte : ℕ → Bool
user_byte c = lower_alnum c || c == b'_' || c == b'-'

abbrev user_start : ℕ → Bool
user_start c = (leb b'a' c && leb c b'z') || c == b'_'

-- `siteUserRE.MatchString(v)`
unfoldable pub site_user_re : Bytes → Bool
site_user_re [] = false
site_user_re (c ∷ v) = user_start c && ltb (length v) 32 && all user_byte v

name_tests :
    (is_ok (validate_domain (codes "shop.Example.com")) ≡ true)
    × (is_ok (validate_domain (codes "../etc")) ≡ false)
    × (is_ok (validate_domain (codes "a..b")) ≡ false)
    × (is_ok (validate_domain (codes "-a.b")) ≡ false)
    × (is_ok (validate_domain (codes "localhost")) ≡ false)
    × (is_ok (validate_domain (197 ∷ 191 ∷ codes ".com")) ≡ true)
unfolding validate_domain fold_case
name_tests = (refl, refl, refl, refl, refl, refl)
