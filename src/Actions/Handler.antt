-- ===== src/Actions/Handler.antt =====
-- `action` and `executeAction` of internal/gateway/http.go: the route of the privileged actions. The
-- decoded body and the helper's answer are arguments.
use mathlib.Core.Path.{subst}
use cloudpanel_gateway.Actions.Accepted.{ArgumentOk, validate_action-ArgumentOk}
use cloudpanel_gateway.Auth.Tokens.{Token}
use cloudpanel_gateway.Auth.Scopes.{has_scope}
use cloudpanel_gateway.Routes.{Method, post, get, patch, delete_method, other_method}
use cloudpanel_gateway.Actions.{
  ActionSpec, Library, validate_action, actions, argument, optional_arguments,
}
use cloudpanel_gateway.Base.{
  Table, lookup, ℕ, String, ◌≡◌, refl, sym, ap, Bool, true, false, not, Option, none, some, ◌++◌,
  if◌then◌else◌, Bytes, All, Result, ok, err,
}

-- `HelperResponse`
pub record HelperResponse : Type 0 where
  pub succeeded : Bool
  pub stdout : Bytes
  pub stderr : Bytes
  pub exit_code : ℕ
  pub error : Bytes

-- The status, what the helper was sent, and what was audited
pub record ActionReply : Type 0 where
  pub status : ℕ
  pub sent : Option (String × Table Bytes)
  pub audited : Option (String × Bool)

abbrev unsent : ℕ → ActionReply
unsent status = record { status = status; sent = none; audited = none }

-- What follows `CallHelper(ctx, c, name, args)`
unfoldable pub called : String → Table Bytes → Result HelperResponse → ActionReply
called name args (err e) = record {
  status = 502;
  sent = some (name, args);
  audited = some (name, false);
}
called name args (ok res) = record {
  status = if res.succeeded then 200 else 400;
  sent = some (name, args);
  audited = some (name, res.succeeded);
}

-- What follows `ValidateAction(name, args, a.Config.ArtifactDir)`
unfoldable pub checked :
    (String → Table Bytes → Result HelperResponse)
    → Token
    → String
    → Table Bytes
    → Result ActionSpec
    → ActionReply
unfolding called has_scope
checked helper t name args (err e) = unsent 400
checked helper t name args (ok spec) =
    if not (has_scope t.scopes spec.scope) then unsent 403 else called name args (helper name args)

module _ (lib : Library) (artifact_dir : Bytes)
    (helper : String → Table Bytes → Result HelperResponse) (t : Token) where
  -- `executeAction(w, r, name, args)`
  unfoldable pub execute_action : String → Table Bytes → ActionReply
  unfolding checked validate_action
  execute_action name args = checked helper t name args (validate_action lib name args artifact_dir)

  -- `action(w, r)`, of the name behind /v1/actions/
  unfoldable pub action : Method → String → Result (Table Bytes) → ActionReply
  unfolding execute_action
  action post name (err e) = unsent 400
  action post name (ok args) = execute_action name args
  action method name body = unsent 405

  checked-sent :
      (name : String) (args : Table Bytes) (r : Result ActionSpec) (q : String × Table Bytes)
      → (checked helper t name args r).sent ≡ some q
      → (a : ActionSpec) × (r ≡ ok a) × (has_scope t.scopes a.scope ≡ true) × (q ≡ (name, args))
  unfolding checked
  checked-sent name args (err e) q h = cc
  checked-sent name args (ok a) q h = cases (has_scope t.scopes a.scope) refl h
    where
      answered :
          (x : Result HelperResponse)
          → (called name args x).sent ≡ some q
          → Path (String × Table Bytes) q (name, args)
      answered (err e) k = cc
      answered (ok res) k = cc

      cases :
          (b : Bool)
          → has_scope t.scopes a.scope ≡ b
          → (if not b then unsent 403 else called name args (helper name args)).sent ≡ some q
          → (c : ActionSpec) × (Path (Result ActionSpec) (ok a) (ok c))
            × (has_scope t.scopes c.scope ≡ true)
            × (q ≡ (name, args))
      cases true e k = (a, refl, e, answered (helper name args) k)
      cases false e k = cc

-- The helper is sent an action only for a POST, only under the name of the route, only if it is one
-- of the table's actions whose scope the token has, and only with the arguments of the body, of which
-- each required one is there and each one is known to the action, holds no NUL and no line end, and
-- has the form that its key asks for: a domain that `ValidateDomain` accepts, a port that `fmt.Sscan`
-- reads as 1 to 65535, an absolute `http` or `https` URL with a host and no user, or a path whose
-- absolute form begins with the artifact directory.
pub action-sent :
    (lib : Library) (artifact_dir : Bytes) (helper : String → Table Bytes → Result HelperResponse)
    (t : Token) (method : Method) (name : String) (body : Result (Table Bytes))
    (sent : String × Table Bytes)
    → (action lib artifact_dir helper t method name body).sent ≡ some sent
    → (method ≡ post)
      × (sent.0 ≡ name)
      × (body ≡ ok sent.1)
      × ((a : ActionSpec) × (lookup name actions ≡ some a)
          × (has_scope t.scopes a.scope ≡ true)
          × All (λ k. lib.is_blank (argument k sent.1) ≡ false) a.required
          × All (ArgumentOk lib (a.required ++ optional_arguments name) artifact_dir) sent.1)
unfolding action execute_action
action-sent lib artifact_dir helper t post name (err e) sent h = cc
action-sent lib artifact_dir helper t post name (ok args) sent h =
    let (a, valid, scope, same) =
      checked-sent lib artifact_dir helper t name args (validate_action lib name args artifact_dir)
        sent h in
    let (found, required, each) = validate_action-ArgumentOk lib name args artifact_dir a valid in
    let back = sym (ap (λ (p : String × Table Bytes). p.1) same) in
    (
      refl,
      ap (λ (p : String × Table Bytes). p.0) same,
      ap (λ (x : Table Bytes). ok x) back,
      (
        a,
        found,
        scope,
        subst (λ x. All (λ k. lib.is_blank (argument k x) ≡ false) a.required) back required,
        subst (All (ArgumentOk lib (a.required ++ optional_arguments name) artifact_dir)) back each,
      ),
    )
action-sent lib artifact_dir helper t get name body sent h = cc
action-sent lib artifact_dir helper t patch name body sent h = cc
action-sent lib artifact_dir helper t delete_method name body sent h = cc
action-sent lib artifact_dir helper t other_method name body sent h = cc
