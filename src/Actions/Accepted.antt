-- ===== src/Actions/Accepted.antt =====
-- What an accepted action holds.
use mathlib.Core.Path.{subst}
use cloudpanel_gateway.Actions.{
  ActionSpec, Library, is_file_key, port_number, below, proxy_url, ProxyUrl,
}
unfoldable use cloudpanel_gateway.Actions.{
  actions, check_argument, check_arguments, check_required, argument, validate_spec,
  validate_action, optional_arguments, valid_port, valid_url, safe_artifact_path,
}
unfoldable use cloudpanel_gateway.Names.{validate_domain}
use cloudpanel_gateway.Base.{
  Table, lookup, ℕ, ◌≤◌, ◌<◌, String, ◌≡◌, refl, ap, ◌⊎◌, inl, inr, Bool, true, false, not, ◌&&◌,
  Option, none, some, List, [], ◌∷◌, ◌++◌, arith, str_eq, Bool-cases, Option-cases, Bytes, codes,
  bytes_eq, bytes_eq→≡, has_prefix, contains_any, any, All, is_ok, is_ok-refuse_if,
  refuse_if->>-eq-ok, ok-injective, >>=-eq-ok, ok,
}

-- A number from 1 to 65535, as `fmt.Sscan` reads it
abbrev pub PortOk : Library → Bytes → Type 0
PortOk lib v = (p : ℕ) × (lib.scan_int v ≡ some p) × (0 < p) × (p ≤ 65535)

-- An absolute `http` or `https` URL with a host and without a user
abbrev pub UrlOk : Library → Bytes → Type 0
UrlOk lib v =
    (u : ProxyUrl) × (lib.parse_url v ≡ some u)
    × (u.absolute ≡ true)
    × ((u.scheme ≡ codes "http") ⊎ (u.scheme ≡ codes "https"))
    × (bytes_eq u.host [] ≡ false)
    × (u.has_user ≡ false)

-- A path whose absolute form begins with that of the directory and a slash
abbrev pub PathOk : Library → Bytes → Bytes → Type 0
PathOk lib v dir =
    (p base : Bytes) × (lib.abs v ≡ some p)
    × (lib.abs dir ≡ some base)
    × (has_prefix p (base ++ b'/' ∷ []) ≡ true)

valid_port-PortOk : (lib : Library) (v : Bytes) → valid_port lib v ≡ true → PortOk lib v
unfolding valid_port port_number
valid_port-PortOk lib v h = elim (Option-cases (lib.scan_int v)) [
  | inl e ↦ absurd (ground (arith, e))
  | inr (p, e) ↦ (p, e, ground (arith, e), ground (arith, e))
]

valid_url-UrlOk : (lib : Library) (v : Bytes) → valid_url lib v ≡ true → UrlOk lib v
unfolding valid_url proxy_url
valid_url-UrlOk lib v h = elim (Option-cases (lib.parse_url v)) [
  | inl e ↦ absurd (ground (arith, e))
  | inr (u, e) ↦ (
    u,
    e,
    ground (arith, e),
    elim (Bool-cases (bytes_eq u.scheme (codes "http"))) [
      | inl s ↦ inl (bytes_eq→≡ u.scheme (codes "http") s)
      | inr s ↦ inr (bytes_eq→≡ u.scheme (codes "https") (ground (arith, e, s)))
    ],
    ground (arith, e),
    ground (arith, e),
  )
]

safe_artifact_path-PathOk :
    (lib : Library) (v dir : Bytes) → safe_artifact_path lib v dir ≡ true → PathOk lib v dir
unfolding safe_artifact_path below
safe_artifact_path-PathOk lib v dir h = elim (Option-cases (lib.abs v)) [
  | inl e ↦ absurd (ground (arith, e))
  | inr (p, e) ↦ elim (Option-cases (lib.abs dir)) [
    | inl k ↦ absurd (ground (arith, e, k))
    | inr (base, k) ↦ (p, base, e, k, ground (arith, e, k))
  ]
]

-- An argument is one of the known ones, holds no NUL and no line end, and has the form that its key
-- asks for.
abbrev pub ArgumentOk : Library → List String → Bytes → String × Bytes → Type 0
ArgumentOk lib known artifact_dir (k, v) =
    (any (str_eq k) known ≡ true)
    × (contains_any v (0 ∷ 13 ∷ 10 ∷ []) ≡ false)
    × ((str_eq k "domainName" ≡ false) ⊎ (is_ok (validate_domain v) ≡ true))
    × ((str_eq k "appPort" ≡ false) ⊎ PortOk lib v)
    × ((str_eq k "reverseProxyUrl" ≡ false) ⊎ UrlOk lib v)
    × ((is_file_key k ≡ false) ⊎ PathOk lib v artifact_dir)

true_of_not : (b : Bool) → not b ≡ false → b ≡ true
true_of_not b h = ground arith

unless : (a b : Bool) → (a && not b) ≡ false → (a ≡ false) ⊎ (b ≡ true)
unless false b h = inl refl
unless true false h = cc
unless true true h = inr refl

unless_then : {P : Type 0} {A B : Type 0} → (A → B) → P ⊎ A → P ⊎ B
unless_then f (inl p) = inl p
unless_then f (inr a) = inr (f a)

argument-ArgumentOk :
    (lib : Library) (known : List String) (artifact_dir : Bytes) (k : String) (v : Bytes)
    → check_argument lib known artifact_dir k v ≡ ok tt
    → ArgumentOk lib known artifact_dir (k, v)
unfolding check_argument
argument-ArgumentOk lib known artifact_dir k v h =
    let (a, h₁) = refuse_if->>-eq-ok (not (any (str_eq k) known)) _ _ _ h in
    let (b, h₂) = refuse_if->>-eq-ok (contains_any v (0 ∷ 13 ∷ 10 ∷ [])) _ _ _ h₁ in
    let (c, h₃) =
      refuse_if->>-eq-ok (str_eq k "domainName" && not (is_ok (validate_domain v))) _ _ _ h₂ in
    let (d, h₄) = refuse_if->>-eq-ok (str_eq k "appPort" && not (valid_port lib v)) _ _ _ h₃ in
    let (e, h₅) =
      refuse_if->>-eq-ok (str_eq k "reverseProxyUrl" && not (valid_url lib v)) _ _ _ h₄ in
    let f =
      is_ok-refuse_if (is_file_key k && not (safe_artifact_path lib v artifact_dir)) _
        (ap (λ x. is_ok x) h₅) in
    (
      true_of_not (any (str_eq k) known) a,
      b,
      unless _ _ c,
      unless_then (valid_port-PortOk lib v) (unless (str_eq k "appPort") _ d),
      unless_then (valid_url-UrlOk lib v) (unless (str_eq k "reverseProxyUrl") _ e),
      unless_then (safe_artifact_path-PathOk lib v artifact_dir) (unless (is_file_key k) _ f),
    )

arguments-ArgumentOk :
    (lib : Library) (known : List String) (artifact_dir : Bytes) (args : Table Bytes)
    → check_arguments lib known artifact_dir args ≡ ok tt
    → All (ArgumentOk lib known artifact_dir) args
unfolding check_arguments
arguments-ArgumentOk lib known artifact_dir [] h = tt
arguments-ArgumentOk lib known artifact_dir ((k, v) ∷ args) h =
    let (_, e, r) = >>=-eq-ok (check_argument lib known artifact_dir k v) _ h in
    (
      argument-ArgumentOk lib known artifact_dir k v e,
      arguments-ArgumentOk lib known artifact_dir args r,
    )

required_given :
    (lib : Library) (required : List String) (args : Table Bytes)
    → check_required lib required args ≡ ok tt
    → All (λ k. lib.is_blank (argument k args) ≡ false) required
unfolding check_required
required_given lib [] args h = tt
required_given lib (k ∷ required) args h =
    let (e, r) = refuse_if->>-eq-ok (lib.is_blank (argument k args)) _ _ _ h in
    (e, required_given lib required args r)

spec-accepted :
    (lib : Library) (o : Option ActionSpec) (name : String) (args : Table Bytes)
    (artifact_dir : Bytes) (a : ActionSpec)
    → validate_spec lib o name args artifact_dir ≡ ok a
    → (o ≡ some a)
      × All (λ k. lib.is_blank (argument k args) ≡ false) a.required
      × All (ArgumentOk lib (a.required ++ optional_arguments name) artifact_dir) args
unfolding validate_spec
spec-accepted lib none name args artifact_dir a h = cc
spec-accepted lib (some b) name args artifact_dir a h =
    let (_, e, h₁) = >>=-eq-ok (check_required lib b.required args) _ h in
    let (_, k, h₂) =
      >>=-eq-ok (check_arguments lib (b.required ++ optional_arguments name) artifact_dir args) _
        h₁ in
    subst
      (λ c.
        (some b ≡ some c)
        × All (λ k. lib.is_blank (argument k args) ≡ false) (ActionSpec.required c)
        × All (ArgumentOk lib (ActionSpec.required c ++ optional_arguments name) artifact_dir) args)
      (ok-injective h₂)
      (refl, required_given lib b.required args e, arguments-ArgumentOk lib _ artifact_dir args k)

-- An action that `ValidateAction` accepts is one of the table, and is given with its row. Every
-- required argument is there and not blank. Every argument that is there is a required or an
-- optional one of the action, holds no NUL and no line end, and is a valid domain, port, URL or path
-- below the artifact directory where its key asks for one.
pub validate_action-ArgumentOk :
    (lib : Library) (name : String) (args : Table Bytes) (artifact_dir : Bytes) (a : ActionSpec)
    → validate_action lib name args artifact_dir ≡ ok a
    → (lookup name actions ≡ some a)
      × All (λ k. lib.is_blank (argument k args) ≡ false) a.required
      × All (ArgumentOk lib (a.required ++ optional_arguments name) artifact_dir) args
unfolding validate_action
validate_action-ArgumentOk lib name args artifact_dir a h =
    spec-accepted lib (lookup name actions) name args artifact_dir a h
