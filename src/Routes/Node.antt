-- ===== src/Routes/Node.antt =====
-- `siteNode` of internal/gateway/http.go: the routes of the Node.js runtime and of the builds. The
-- JSON decoder's answers are arguments.
use mathlib.Core.Path.{subst}
use cloudpanel_gateway.Routes.Authorised.{ScopeFits, IsAuthorised, node_scope}
use cloudpanel_gateway.Auth.Tokens.{Token}
unfoldable use cloudpanel_gateway.Names.{validate_domain}
use cloudpanel_gateway.Routes.{Method, get, post, patch, has_scope, delete_method, other_method}
use cloudpanel_gateway.Routes.Requests.{
  valid_domain-sent, action_name, HelperRequest, node_request, build_request, NodeRequest,
  BuildRequest, Reply, refuse, with_body-sent, deliver-sent, with_scope-sent,
}
unfoldable use cloudpanel_gateway.Routes.Requests.{deliver, with_scope, with_body}
use cloudpanel_gateway.Base.{
  ℕ, String, ◌≡◌, refl, Bool, true, false, not, Option, none, some, List, [], ◌∷◌, if◌then◌else◌,
  if_both, Bytes, codes, bytes_eq, Result, is_ok, ok,
}

-- `mcpNodeInput`
pub record NodeInput : Type 0 where
  pub domain : Bytes
  pub artifact_id : String
  pub framework : Bytes
  pub entrypoint : Bytes
  pub args : List Bytes
  pub node_version : Bytes
  pub app_port : ℕ
  pub health_path : Bytes
  pub if_match_revision : Bytes
  pub confirm : Bool

-- `mcpBuildInput`
pub record BuildInput : Type 0 where
  pub domain : Bytes
  pub artifact_id : String
  pub framework : Bytes
  pub output_dir : Bytes

-- The `switch` over the path behind `node` and the method: the operation and its scope
unfoldable pub node_area : Method → List Bytes → Option (String × String)
node_area get [] = some ("get_settings", "node:read")
node_area patch [] = some ("update_settings", "node:write")
node_area get (p ∷ []) =
    if bytes_eq p (codes "status")
    then some ("status", "node:read")
    else if bytes_eq p (codes "releases")
    then some ("list_releases", "node:read")
    else none
node_area post (p ∷ []) =
    if bytes_eq p (codes "restart")
    then some ("restart", "node:write")
    else if bytes_eq p (codes "releases")
    then some ("deploy_release", "node:deploy")
    else if bytes_eq p (codes "rollback")
    then some ("rollback_release", "node:deploy")
    else none
node_area method rest = none

-- `parts[1] == "builds" && len(parts) == 2 && r.Method == http.MethodPost`
unfoldable pub is_build : Method → Bytes → List Bytes → Bool
is_build post area [] = bytes_eq area (codes "builds")
is_build method area rest = false

-- The body: for a GET the empty input
abbrev pub unless_get {ℓ} : {A : Type ℓ} → Method → Result A → A → Result A
unless_get get body empty = ok empty
unless_get method body empty = body

abbrev empty_input : Bytes → NodeInput
empty_input domain = record {
  domain = domain;
  artifact_id = "";
  framework = [];
  entrypoint = [];
  args = [];
  node_version = [];
  app_port = 0;
  health_path = [];
  if_match_revision = [];
  confirm = false;
}

-- `NodeRequest{…}` of the path, the token and the input
abbrev pub node_request_of : String → Bytes → Token → NodeInput → NodeRequest
node_request_of operation domain t input = record {
  operation = operation;
  domain = domain;
  artifact_id = input.artifact_id;
  owner_token_id = t.id;
  framework = input.framework;
  entrypoint = input.entrypoint;
  args = input.args;
  node_version = input.node_version;
  app_port = input.app_port;
  health_path = input.health_path;
  if_match_revision = input.if_match_revision;
  confirm = input.confirm;
}

-- `BuildRequest{…}`
abbrev pub build_request_of : Bytes → Token → BuildInput → BuildRequest
build_request_of domain t input = record {
  domain = domain;
  artifact_id = input.artifact_id;
  owner_token_id = t.id;
  framework = input.framework;
  output_dir = input.output_dir;
}

module _ (helper : HelperRequest → Option String) (denied : ℕ) (node_body : Result NodeInput)
    (build_body : Result BuildInput) (token : Option Token) where
  unfoldable pub send_build : Bytes → Token → Reply
  unfolding with_body deliver
  send_build domain t = with_body helper denied build_body (λ input.
      deliver helper denied true "node.build" (build_request (build_request_of domain t input)))

  unfoldable pub send_node : Method → Bytes → String → Token → Reply
  unfolding with_body deliver
  send_node method domain operation t =
      with_body helper denied (unless_get method node_body (empty_input domain)) (λ input.
        deliver helper denied true (action_name "node." operation)
          (node_request (node_request_of operation domain t input)))

  -- The operation of the route, or 405
  unfoldable pub node_route : Method → Bytes → Option (String × String) → Reply
  unfolding with_scope send_node
  node_route method domain none = refuse 405 denied
  node_route method domain (some (operation, scope)) =
      with_scope helper denied token scope (send_node method domain operation)

  -- `siteNode(w, r, parts)`
  unfoldable pub site_node : Method → List Bytes → Reply
  unfolding node_route node_area is_build send_build validate_domain
  site_node method (domain ∷ area ∷ rest) =
      if not (is_ok (validate_domain domain))
      then refuse 404 denied
      else if is_build method area rest
      then with_scope helper denied token "node:build" (send_build domain)
      else node_route method domain
          (if bytes_eq area (codes "node") then node_area method rest else none)
  site_node method _ = refuse 404 denied

  send_build-IsAuthorised :
      (domain : Bytes) (t : Token) (q : HelperRequest)
      → token ≡ some t
      → has_scope t.scopes "node:build" ≡ true
      → is_ok (validate_domain domain) ≡ true
      → (send_build domain t).sent ≡ some q
      → IsAuthorised token domain q
  unfolding send_build
  send_build-IsAuthorised domain t q k s v h =
      let (input, _, j) = with_body-sent helper denied build_body _ q h in
      let e = deliver-sent helper denied true "node.build" _ q j in
      subst (IsAuthorised token domain) e (record {
        sender = t;
        token_of = k;
        scope = s;
        valid = v;
        domain = refl;
        owner = refl;
        raw = tt;
      })

  send_node-IsAuthorised :
      (method : Method) (domain : Bytes) (operation : String) (t : Token) (q : HelperRequest)
      → token ≡ some t
      → has_scope t.scopes (node_scope operation) ≡ true
      → is_ok (validate_domain domain) ≡ true
      → (send_node method domain operation t).sent ≡ some q
      → IsAuthorised token domain q
  unfolding send_node
  send_node-IsAuthorised method domain operation t q k s v h =
      let (input, _, j) =
        with_body-sent helper denied (unless_get method node_body (empty_input domain)) _ q h in
      let e = deliver-sent helper denied true (action_name "node." operation) _ q j in
      subst (IsAuthorised token domain) e (record {
        sender = t;
        token_of = k;
        scope = s;
        valid = v;
        domain = refl;
        owner = refl;
        raw = tt;
      })

  node_area-ScopeFits :
      (method : Method) (rest : List Bytes) → ScopeFits node_scope (node_area method rest)
  unfolding node_area
  node_area-ScopeFits get [] = refl
  node_area-ScopeFits patch [] = refl
  node_area-ScopeFits get (p ∷ []) =
      if_both (ScopeFits node_scope) (bytes_eq p (codes "status")) _ _ (λ e. refl)
        (λ e.
          if_both (ScopeFits node_scope) (bytes_eq p (codes "releases")) _ _ (λ k. refl) (λ k. tt))
  node_area-ScopeFits post (p ∷ []) =
      if_both (ScopeFits node_scope) (bytes_eq p (codes "restart")) _ _ (λ e. refl)
        (λ e.
          if_both (ScopeFits node_scope) (bytes_eq p (codes "releases")) _ _ (λ k. refl)
            (λ k.
              if_both (ScopeFits node_scope) (bytes_eq p (codes "rollback")) _ _ (λ j. refl)
                (λ j. tt)))
  node_area-ScopeFits post [] = tt
  node_area-ScopeFits patch (p ∷ rest) = tt
  node_area-ScopeFits get (p ∷ r ∷ rest) = tt
  node_area-ScopeFits post (p ∷ r ∷ rest) = tt
  node_area-ScopeFits delete_method rest = tt
  node_area-ScopeFits other_method rest = tt

  node_route-IsAuthorised :
      (method : Method) (domain : Bytes) (entry : Option (String × String)) (q : HelperRequest)
      → ScopeFits node_scope entry
      → is_ok (validate_domain domain) ≡ true
      → (node_route method domain entry).sent ≡ some q
      → IsAuthorised token domain q
  unfolding node_route
  node_route-IsAuthorised method domain none q f v h = cc
  node_route-IsAuthorised method domain (some (operation, scope)) q f v h =
      let (t, k, s, j) = with_scope-sent helper denied token scope _ q h in
      send_node-IsAuthorised method domain operation t q k (rw f s) v j

  pub site_node-IsAuthorised :
      (method : Method) (name area : Bytes) (rest : List Bytes) (q : HelperRequest)
      → (site_node method (name ∷ area ∷ rest)).sent ≡ some q
      → IsAuthorised token name q
  unfolding site_node
  site_node-IsAuthorised method name area rest q h =
      let (valid, k) = valid_domain-sent denied name _ q h in
      if_both (λ x. Reply.sent x ≡ some q → IsAuthorised token name q) (is_build method area rest) _
        _
        (λ e j.
          let (t, f, s, i) = with_scope-sent helper denied token "node:build" _ q j in
          send_build-IsAuthorised name t q f s valid i)
        (λ e j.
          node_route-IsAuthorised method name _ q
            (if_both (ScopeFits node_scope) (bytes_eq area (codes "node")) _ _
              (λ k. node_area-ScopeFits method rest) (λ k. tt))
            valid j)
        k
