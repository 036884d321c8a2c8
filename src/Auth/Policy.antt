-- ===== src/Auth/Policy.antt =====
-- The tables `policy` and `domains` of core.go.
use cloudpanel_gateway.Base.{
  Table, lookup-upsert, lookup, upsert, delete, ℕ, String, ◌≡◌, refl, ◌≢◌, ◌↔◌, ◌⊎◌, Bool, true,
  false, Option, none, some, [], arith, str_eq, eq_iff, if◌then◌else◌, rfc3339, Bytes, Result, ok,
  err,
}

-- `Allowed(operation)`. A fault of the database comes back with `false` beside it, so every caller
-- that looks only at the Boolean refuses then.
unfoldable pub allowed : Option String → Table Bool → String → Bool × Option String
allowed (some fault) policy operation = (false, some fault)
allowed none policy operation = elim (lookup operation policy) [
  | none ↦ (false, none)
  | some enabled ↦ (enabled, none)
]

-- The callers' test: `e != nil || !allowed` is its negation.
unfoldable pub permits : Bool × Option String → Bool
permits (enabled, none) = enabled
permits (enabled, some fault) = false

-- `SetPolicy(operation, enabled)`
unfoldable pub set_policy : String → Bool → Table Bool → Table Bool
set_policy operation enabled policy = upsert operation enabled policy

pub record Domain : Type 0 where
  pub site_user : String
  pub secret : Bytes
  pub created_at : ℕ

abbrev updated : String → ℕ → Option Domain → Domain
updated user now none = record { site_user = user; secret = []; created_at = rfc3339 now }
updated user now (some d) = record d { site_user = user; secret = [] }

-- `StoreDomain(domain, user, secret)`: the secret is dropped, and a row that is there keeps the time
-- of its creation.
unfoldable pub store_domain : ℕ → String → String → String → Table Domain → Table Domain
store_domain now domain user secret m = upsert domain (updated user now (lookup domain m)) m

-- `DeleteDomain(domain)`
unfoldable pub delete_domain : String → Table Domain → Table Domain
delete_domain domain m = delete domain m

-- `Domain(domain)`: the user and the secret
unfoldable pub domain : String → Table Domain → Result (String × Bytes)
domain name m = elim (lookup name m) [
  | none ↦ err "sql: no rows in result set"
  | some d ↦ ok (d.site_user, d.secret)
]

-- An operation passes the policy only if the database answers and holds the operation as enabled:
-- an operation without a row is refused, and so is every operation while the database fails.
pub permits_only_enabled :
    (fault : Option String) (policy : Table Bool) (operation : String)
    → permits (allowed fault policy operation) ≡ true
    → (fault ≡ none) × (lookup operation policy ≡ some true)
unfolding allowed permits
permits_only_enabled none policy operation h = (refl, ground arith)
permits_only_enabled (some f) policy operation h = cc

-- After `SetPolicy` the callers' test passes an operation exactly if the database answers and it is
-- the operation that was set, and to `true`, or another one that was enabled before.
pub permits-set_policy :
    (fault : Option String) (policy : Table Bool) (operation other : String) (enabled : Bool)
    → (permits (allowed fault (set_policy operation enabled policy) other) ≡ true) ↔ (
        (fault ≡ none)
        × (((operation ≡ other) × (enabled ≡ true))
            ⊎ ((operation ≢ other) × (lookup other policy ≡ some true))))
unfolding allowed permits set_policy
permits-set_policy (some f) policy operation other enabled = ground arith
permits-set_policy none policy operation other enabled =
    ground (arith, lookup-upsert operation other enabled policy, eq_iff operation other)

-- After `StoreDomain` the domain has the given user and no secret, whatever secret was passed and
-- whatever row was there, and every other domain is what it was.
pub domain-store_domain :
    (now : ℕ) (name other user secret : String) (m : Table Domain)
    → domain other (store_domain now name user secret m)
      ≡ (if str_eq name other then ok (user, []) else domain other m)
unfolding domain store_domain
domain-store_domain now name other user secret m =
    ground (arith, lookup-upsert name other (updated user now (lookup name m)) m, eq_iff name other)
