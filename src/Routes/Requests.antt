-- ===== src/Routes/Requests.antt =====
-- What the routes below /v1/sites/ share: `HelperRequest` of internal/gateway/core.go with the
-- requests in it, and the steps that every handler of internal/gateway/http.go takes: the scope, the
-- body, the call of the helper with its audit.
use Prim.Native.String.{◌++◌ as text_append}
use cloudpanel_gateway.Names.{validate_domain}
use cloudpanel_gateway.Auth.Tokens.{Token}
use cloudpanel_gateway.Auth.Scopes.{has_scope}
use cloudpanel_gateway.Cron.Runner.{CronRequest}
use cloudpanel_gateway.Static.{StaticRequest}
use cloudpanel_gateway.Backups.Operations.{BackupRequest}
use cloudpanel_gateway.Base.{
  Table, ℕ, ◌+◌, String, ◌≡◌, refl, inl, inr, Bool, true, false, not, ◌&&◌, Option, none, some,
  List, if◌then◌else◌, Bool-cases, Option-cases, Bytes, codes, contains, Result, is_ok, ok, err,
}

pub record NodeRequest : Type 0 where
  pub operation : String
  pub domain : Bytes
  pub artifact_id : String
  pub owner_token_id : String
  pub framework : Bytes
  pub entrypoint : Bytes
  pub args : List Bytes
  pub node_version : Bytes
  pub app_port : ℕ
  pub health_path : Bytes
  pub if_match_revision : Bytes
  pub confirm : Bool

pub record BuildRequest : Type 0 where
  pub domain : Bytes
  pub artifact_id : String
  pub owner_token_id : String
  pub framework : Bytes
  pub output_dir : Bytes

pub record DeployRequest : Type 0 where
  pub domain : Bytes
  pub artifact_id : String
  pub target_dir : Bytes
  pub replace : Bool
  pub confirm : Bool
  pub owner_token_id : String
  pub root : Bool
  pub static_site : Bool

pub record PageSpeedUpdate : Type 0 where
  pub enabled : Bool
  pub preset : Bytes
  pub enable_filters : List Bytes
  pub disable_filters : List Bytes

pub record SettingsRequest : Type 0 where
  pub operation : String
  pub domain : Bytes
  pub if_match_revision : Bytes
  pub confirm : Bool
  pub root_directory : Bytes
  pub php_values : Table Bytes
  pub pagespeed : Option PageSpeedUpdate

pub record LogRequest : Type 0 where
  pub domain : Bytes
  pub sources : List Bytes
  pub app_log_path : Bytes
  pub from_time : Bytes
  pub to_time : Bytes
  pub contains_text : Bytes
  pub statuses : List ℕ
  pub max_lines : ℕ
  pub raw : Bool
  pub symptom : Bytes
  pub list_sources : Bool

-- `HelperRequest`: each request carries one of its fields.
pub data HelperRequest : Type 0 where
  log_request : LogRequest → HelperRequest
  settings_request : SettingsRequest → HelperRequest
  tls_request : Bytes → HelperRequest
  deploy_request : DeployRequest → HelperRequest
  backup_request : BackupRequest → HelperRequest
  node_request : NodeRequest → HelperRequest
  build_request : BuildRequest → HelperRequest
  static_request : StaticRequest → HelperRequest
  cron_request : CronRequest → HelperRequest

-- What a request came to: the status, the counter of denials, the request that the helper was sent,
-- and the action that was audited, with its outcome.
pub record Reply : Type 0 where
  pub status : ℕ
  pub denied : ℕ
  pub sent : Option HelperRequest
  pub audited : Option (String × Bool)

-- `prefix+operation`, the action that is audited
abbrev pub action_name : String → String → String
action_name prefix operation = text_append prefix operation

-- `jsonError(w, status, …)` before anything is sent
abbrev pub refuse : ℕ → ℕ → Reply
refuse status denied = record { status = status; denied = denied; sent = none; audited = none }

-- The answer to an error of the helper: some handlers tell a conflict of revisions.
abbrev pub error_status : Bool → String → ℕ
error_status tells e = if tells && contains (codes e) (codes "revision conflict") then 409 else 400

module _ (helper : HelperRequest → Option String) (denied : ℕ) where
  -- `CallTypedHelper`, the audit of its outcome, and the answer
  unfoldable pub deliver : Bool → String → HelperRequest → Reply
  deliver tells action q = elim (helper q) [
    | none ↦ record { status = 200; denied = denied; sent = some q; audited = some (action, true) }
    | some e ↦ record {
      status = error_status tells e;
      denied = denied;
      sent = some q;
      audited = some (action, false);
    }
  ]

  -- `if t == nil || !HasScope(t, scope) { a.denied.Add(1); … 403 }`
  unfoldable pub with_scope : Option Token → String → (Token → Reply) → Reply
  unfolding has_scope
  with_scope none scope next = refuse 403 (denied + 1)
  with_scope (some t) scope next =
      if not (has_scope t.scopes scope) then refuse 403 (denied + 1) else next t

  -- `if d.Decode(&in) != nil { … 400 }`
  unfoldable pub with_body {ℓ} : {A : Type ℓ} → Result A → (A → Reply) → Reply
  with_body (err e) next = refuse 400 denied
  with_body (ok body) next = next body

  pub deliver-sent :
      (tells : Bool) (action : String) (q r : HelperRequest)
      → (deliver tells action q).sent ≡ some r
      → q ≡ r
  unfolding deliver
  deliver-sent tells action q r h = elim (Option-cases (helper q)) [
    | inl e ↦ same (rw (e, deliver) at h)
    | inr (m, e) ↦ same (rw (e, deliver) at h)
  ]
    where
      same : some q ≡ some r → q ≡ r
      same k = cc

  pub with_scope-sent :
      (token : Option Token) (scope : String) (next : Token → Reply) (r : HelperRequest)
      → (with_scope token scope next).sent ≡ some r
      → (t : Token) × (token ≡ some t)
        × (has_scope t.scopes scope ≡ true)
        × ((next t).sent ≡ some r)
  unfolding with_scope
  with_scope-sent none scope next r h = cc
  with_scope-sent (some t) scope next r h = elim (Bool-cases (has_scope t.scopes scope)) [
    | inl e ↦ (t, refl, e, rw (e, with_scope) at h)
    | inr e ↦ absurd (refused (rw (e, with_scope) at h))
  ]
    where
      refused : Path (Option HelperRequest) none (some r) → ⊥
      refused k = cc

  pub with_body-sent {ℓ} :
      {A : Type ℓ} (body : Result A) (next : A → Reply) (r : HelperRequest)
      → (with_body body next).sent ≡ some r
      → (a : A) × (body ≡ ok a) × ((next a).sent ≡ some r)
  unfolding with_body
  with_body-sent (err e) next r h = cc
  with_body-sent (ok a) next r h = (a, refl, h)

-- A handler that answers 404 for an invalid domain sends a request only for a valid one.
pub valid_domain-sent :
    (denied : ℕ) (name : Bytes) (next : Reply) (r : HelperRequest)
    → (if not (is_ok (validate_domain name)) then refuse 404 denied else next).sent ≡ some r
    → (is_ok (validate_domain name) ≡ true) × (next.sent ≡ some r)
valid_domain-sent denied name next r h = cases (is_ok (validate_domain name)) h
  where
    cases :
        (b : Bool)
        → (if not b then refuse 404 denied else next).sent ≡ some r
        → (b ≡ true) × (next.sent ≡ some r)
    cases true k = (refl, k)
    cases false k = cc
