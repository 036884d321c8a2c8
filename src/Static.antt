-- ===== src/Static.antt =====
-- internal/gateway/static.go: `patchSPAFallback`, `staticRevision` and `executeStatic`. The state is
-- the content of the vhost file; `mac` stands for the keyed hash with its prefix and encoding,
-- `site_type` is what `readCloudPanelSite` answers, and `commit` the error of `CallNginxCommit`,
-- which otherwise puts the new content in place.
pub mod Readback
mod Tests
use mathlib.Core.Option
unfoldable use cloudpanel_gateway.Names.{validate_domain}
use cloudpanel_gateway.Base.{
  ℕ, ◌+◌, String, Bool, true, false, not, ◌||◌, Option, none, some, [], ◌∷◌, ◌++◌, if◌then◌else◌,
  Bytes, codes, bytes_eq, index_of, contains, length, take, drop, Result, refuse_if, ◌>>=◌, ◌>>◌,
  ok, err,
}

abbrev pub marker : Bytes
marker = codes "# cloudpanel-gateway-spa-fallback"

abbrev pub needle : Bytes
needle = codes "location / {"

abbrev line_break : Bytes
line_break = 10 ∷ []

-- `"\n        " + marker + "\n        try_files $uri $uri/ /index.html;\n"`
abbrev pub fallback_head : Bytes
fallback_head = 10 ∷ codes "        "

abbrev pub fallback_tail : Bytes
fallback_tail = 10 ∷ codes "        try_files $uri $uri/ /index.html;" ++ 10 ∷ []

-- The managed block from `start` on: the line of the marker and the line behind it.
unfoldable pub patch_managed : Bytes → Bool → ℕ → Result Bytes
patch_managed vhost enable start = elim (index_of (drop start vhost) line_break) [
  | none ↦ err "invalid managed SPA fallback block"
  | some line ↦
      let line_end = line + (start + 1) in
      elim (index_of (drop line_end vhost) line_break) [
        | none ↦ err "invalid managed SPA fallback block"
        | some try_line ↦
            if enable
            then ok vhost
            else ok (take start vhost ++ drop (try_line + (line_end + 1)) vhost)
      ]
]

-- The insertion into the block `location / {` that begins at `idx`.
unfoldable pub insert_fallback : Bytes → ℕ → Result Bytes
insert_fallback vhost idx = elim (index_of (drop idx vhost) (codes "}")) [
  | none ↦ err "unsupported CloudPanel static vhost: malformed location block"
  | some block ↦
      let insert = idx + length needle in
      if contains (take block (drop idx vhost)) (codes "try_files")
      then err "static vhost already has unmanaged try_files routing"
      else ok
          (take insert vhost ++ (fallback_head ++ marker ++ (fallback_tail ++ drop insert vhost)))
]

unfoldable pub patch_unmanaged : Bytes → Bool → Result Bytes
unfolding insert_fallback
patch_unmanaged vhost false = ok vhost
patch_unmanaged vhost true = elim (index_of vhost needle) [
  | none ↦ err "unsupported CloudPanel static vhost: location / block not found"
  | some idx ↦ insert_fallback vhost idx
]

-- `patchSPAFallback(vhost, enable)`
unfoldable pub patch_spa_fallback : Bytes → Bool → Result Bytes
unfolding patch_managed patch_unmanaged
patch_spa_fallback vhost enable = elim (index_of vhost marker) [
  | some start ↦ patch_managed vhost enable start
  | none ↦ patch_unmanaged vhost enable
]

pub data StaticOperation : Type 0 where
  get_routing update_routing other_routing : StaticOperation

pub record StaticRequest : Type 0 where
  pub operation : StaticOperation
  pub domain : Bytes
  pub spa_fallback : Bool
  pub if_match_revision : Bytes

pub record StaticSettings : Type 0 where
  pub domain : Bytes
  pub spa_fallback : Bool
  pub revision : Bytes

-- `staticRevision(domain, content, pepper)`
unfoldable pub static_revision : (Bytes → Bytes) → Bytes → Bytes → Bytes
static_revision mac domain content = mac (domain ++ 0 ∷ content)

-- What the file says.
unfoldable pub read_settings : (Bytes → Bytes) → Bytes → Bytes → StaticSettings
unfolding static_revision
read_settings mac domain content = record {
  domain = domain;
  spa_fallback = contains content marker;
  revision = static_revision mac domain content;
}

unfoldable pub commit_update :
    (Bytes → Bytes)
    → Option String
    → StaticRequest
    → Bytes
    → Result Bytes
    → Result StaticSettings × Option Bytes
unfolding static_revision
commit_update mac commit r content (err e) = (err e, some content)
commit_update mac (some e) r content (ok updated) = (err e, some content)
commit_update mac none r content (ok updated) = (
  ok (record {
    domain = r.domain;
    spa_fallback = r.spa_fallback;
    revision = static_revision mac r.domain updated;
  }),
  some updated,
)

unfoldable pub execute_routing :
    StaticOperation
    → (Bytes → Bytes)
    → Option String
    → StaticRequest
    → Bytes
    → Result StaticSettings × Option Bytes
unfolding read_settings patch_spa_fallback commit_update
execute_routing get_routing mac commit r content =
    (ok (read_settings mac r.domain content), some content)
execute_routing other_routing mac commit r content =
    (err "unsupported static operation", some content)
execute_routing update_routing mac commit r content =
    if bytes_eq r.if_match_revision []
      || not (bytes_eq r.if_match_revision (static_revision mac r.domain content))
    then (err "settings revision conflict", some content)
    else commit_update mac commit r content (patch_spa_fallback content r.spa_fallback)

unfoldable pub routing_of :
    (Bytes → Bytes)
    → Option String
    → StaticRequest
    → Option Bytes
    → Result StaticSettings × Option Bytes
unfolding execute_routing
routing_of mac commit r none = (err "CloudPanel vhost not found", none)
routing_of mac commit r (some content) = execute_routing r.operation mac commit r content

unfoldable pub check_static : Result Bytes → StaticRequest → Result (Unit {0})
check_static site_type r =
    validate_domain r.domain
    >> (site_type >>= λ type_name.
        refuse_if (not (bytes_eq type_name (codes "static")))
          "static settings are only applicable to CloudPanel static sites")

unfoldable pub after_check :
    (Bytes → Bytes)
    → Option String
    → StaticRequest
    → Option Bytes
    → Result (Unit {0})
    → Result StaticSettings × Option Bytes
unfolding routing_of
after_check mac commit r vhost (err e) = (err e, vhost)
after_check mac commit r vhost (ok _) = routing_of mac commit r vhost

-- `executeStatic(ctx, c, s, r)`
unfoldable pub execute_static :
    (Bytes → Bytes)
    → Result Bytes
    → Option String
    → StaticRequest
    → Option Bytes
    → Result StaticSettings × Option Bytes
unfolding check_static after_check
execute_static mac site_type commit r vhost =
    after_check mac commit r vhost (check_static site_type r)
