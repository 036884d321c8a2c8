-- ===== src/Routes/Authorised.antt =====
-- What a request that reaches the helper asks of its sender, by what it does, and the agreement of
-- the routes' tables with it.
use cloudpanel_gateway.Routes.Scope.{job_scope}
use mathlib.Core.Path.{subst}
use cloudpanel_gateway.Auth.Tokens.{Token}
use cloudpanel_gateway.Auth.Scopes.{has_scope}
use cloudpanel_gateway.Names.{validate_domain}
use cloudpanel_gateway.Static.{StaticRequest, get_routing}
use cloudpanel_gateway.Routes.Requests.{
  HelperRequest, log_request, settings_request, tls_request, deploy_request, backup_request,
  node_request, build_request, static_request, cron_request, deliver, deliver-sent,
}
use cloudpanel_gateway.Base.{
  ℕ, String, ◌≡◌, ◌⊎◌, Bool, true, false, ◌||◌, Option, none, some, str_eq, if◌then◌else◌, Bytes,
  is_ok,
}

-- The scope for an operation on the Node.js runtime: reading it, changing it, or replacing its code.
abbrev pub node_scope : String → String
node_scope op =
    if str_eq op "get_settings" || str_eq op "status" || str_eq op "list_releases"
    then "node:read"
    else if str_eq op "deploy_release" || str_eq op "rollback_release"
    then "node:deploy"
    else "node:write"

-- The scope for an operation on the settings, by the part of the site.
abbrev pub settings_scope : String → String
settings_scope op =
    if str_eq op "get"
    then "sites:read"
    else if str_eq op "update_root"
    then "sites:write"
    else if str_eq op "rotate_password"
    then "site-users:write"
    else if str_eq op "get_php"
    then "php:read"
    else if str_eq op "update_php"
    then "php:write"
    else if str_eq op "get_pagespeed"
    then "pagespeed:read"
    else if str_eq op "update_pagespeed"
    then "pagespeed:write"
    else "cache:purge"

abbrev static_scope : StaticRequest → String
static_scope q = elim q.operation [ get_routing ↦ "sites:read" | _ ↦ "sites:write" ]

abbrev pub required_scope : HelperRequest → String
required_scope (log_request q) = "logs:read"
required_scope (settings_request q) = settings_scope q.operation
required_scope (tls_request d) = "tls:read"
required_scope (deploy_request q) = "files:write"
required_scope (backup_request q) =
    if str_eq q.operation "list" then "backups:read" else "backups:write"
required_scope (node_request q) = node_scope q.operation
required_scope (build_request q) = "node:build"
required_scope (static_request q) = static_scope q
required_scope (cron_request q) = job_scope q.operation

abbrev pub domain_of : HelperRequest → Bytes
domain_of (log_request q) = q.domain
domain_of (settings_request q) = q.domain
domain_of (tls_request d) = d
domain_of (deploy_request q) = q.domain
domain_of (backup_request q) = q.domain
domain_of (node_request q) = q.domain
domain_of (build_request q) = q.domain
domain_of (static_request q) = q.domain
domain_of (cron_request q) = q.domain

-- The requests that use an artifact name the token that owns it.
abbrev pub OwnedBy : String → HelperRequest → Type 0
OwnedBy id (deploy_request q) = q.owner_token_id ≡ id
OwnedBy id (node_request q) = q.owner_token_id ≡ id
OwnedBy id (build_request q) = q.owner_token_id ≡ id
OwnedBy id _ = Unit

-- Unredacted logs are for administrators.
abbrev pub RawAllowed : Token → HelperRequest → Type 0
RawAllowed t (log_request q) = (q.raw ≡ false) ⊎ (has_scope t.scopes "admin" ≡ true)
RawAllowed t _ = Unit

-- A request was sent for a token with the scope that it asks for, for the domain of the path, a
-- valid one, and in the name of that token.
pub record IsAuthorised (token : Option Token) (name : Bytes) (q : HelperRequest) : Type 0 where
  pub sender : Token
  pub token_of : token ≡ some sender
  pub scope : has_scope sender.scopes (required_scope q) ≡ true
  pub valid : is_ok (validate_domain name) ≡ true
  pub domain : domain_of q ≡ name
  pub owner : OwnedBy sender.id q
  pub raw : RawAllowed sender q

-- The scope in an entry of a route's table is the one that its operation asks for.
abbrev pub ScopeFits : (String → String) → Option (String × String) → Type 0
ScopeFits scope_of none = Unit
ScopeFits scope_of (some (operation, scope)) = scope_of operation ≡ scope

-- A delivered request that was checked for its scope is authorised.
pub deliver-IsAuthorised :
    (helper : HelperRequest → Option String) (denied : ℕ) (tells : Bool) (action : String)
    (q r : HelperRequest) (token : Option Token) (t : Token) (name : Bytes)
    → token ≡ some t
    → has_scope t.scopes (required_scope q) ≡ true
    → is_ok (validate_domain name) ≡ true
    → domain_of q ≡ name
    → OwnedBy t.id q
    → RawAllowed t q
    → (deliver helper denied tells action q).sent ≡ some r
    → IsAuthorised token name r
deliver-IsAuthorised helper denied tells action q r token t name k s v d o w h =
    subst (IsAuthorised token name) (deliver-sent helper denied tells action q r h)
      (record { sender = t; token_of = k; scope = s; valid = v; domain = d; owner = o; raw = w })
