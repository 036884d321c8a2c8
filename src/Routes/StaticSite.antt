-- ===== src/Routes/StaticSite.antt =====
-- `siteStatic` of internal/gateway/http.go: the deployment of a static release, and the routing of a
-- static site.
use mathlib.Core.Path.{subst}
use cloudpanel_gateway.Auth.Tokens.{Token}
use cloudpanel_gateway.Auth.Scopes.{has_scope}
unfoldable use cloudpanel_gateway.Names.{validate_domain}
use cloudpanel_gateway.Static.{StaticRequest, StaticOperation, get_routing, update_routing}
use cloudpanel_gateway.Routes.{Method, get, post, patch, delete_method, other_method}
use cloudpanel_gateway.Routes.Requests.{
  HelperRequest, static_request, deploy_request, DeployRequest, Reply, refuse, deliver-sent,
  with_scope-sent, with_body-sent, valid_domain-sent,
}
unfoldable use cloudpanel_gateway.Routes.Requests.{deliver, with_scope, with_body}
use cloudpanel_gateway.Routes.Authorised.{IsAuthorised}
use cloudpanel_gateway.Base.{
  ℕ, String, ◌≡◌, refl, Bool, true, false, not, Option, some, List, [], ◌∷◌, if◌then◌else◌, if_both,
  Bytes, codes, bytes_eq, Result, is_ok,
}

-- `len(parts) == 3 && parts[2] == "deploy" && r.Method == http.MethodPost`
unfoldable pub is_release : Method → List Bytes → Bool
is_release post (p ∷ []) = bytes_eq p (codes "deploy")
is_release method rest = false

-- `StaticRequest{Operation: operation, Domain: parts[0]}`
abbrev pub static_request_of : StaticOperation → Bytes → StaticRequest
static_request_of operation domain = record {
  operation = operation;
  domain = domain;
  spa_fallback = false;
  if_match_revision = [];
}

module _ (helper : HelperRequest → Option String) (denied : ℕ) (deploy_body : Result DeployRequest)
    (static_body : StaticRequest → Result StaticRequest) (token : Option Token) where
  -- The body with the domain, the owner and the kind of the deployment written over it
  unfoldable pub send_release : Bytes → Token → Reply
  unfolding with_body deliver
  send_release domain t = with_body helper denied deploy_body (λ input.
      deliver helper denied false "static.deploy_release" (
        deploy_request (record input {
          domain = domain;
          owner_token_id = t.id;
          root = true;
          static_site = true;
        })))

  unfoldable pub send_update : Bytes → Token → Reply
  unfolding with_body deliver
  send_update domain t =
      with_body helper denied (static_body (static_request_of update_routing domain)) (λ input.
        deliver helper denied true "static.update_routing"
          (static_request (record input { operation = update_routing; domain = domain })))

  unfoldable pub send_read : Bytes → Token → Reply
  unfolding deliver
  send_read domain t =
      deliver helper denied true "static.get_routing"
        (static_request (static_request_of get_routing domain))

  -- The method of a request for the routing
  unfoldable pub static_route : Method → Bytes → Reply
  unfolding with_scope send_update send_read
  static_route get domain = with_scope helper denied token "sites:read" (send_read domain)
  static_route patch domain = with_scope helper denied token "sites:write" (send_update domain)
  static_route method domain = refuse 405 denied

  abbrev pub routing_or_404 : Method → Bytes → List Bytes → Reply
  routing_or_404 method domain [] = static_route method domain
  routing_or_404 method domain (p ∷ rest) = refuse 404 denied

  -- `siteStatic(w, r, parts)`: an invalid domain is 404 on both of its ways.
  unfoldable pub site_static : Method → List Bytes → Reply
  unfolding static_route is_release send_release validate_domain
  site_static method (domain ∷ area ∷ rest) =
      if not (is_ok (validate_domain domain))
      then refuse 404 denied
      else if is_release method rest
      then with_scope helper denied token "files:write" (send_release domain)
      else routing_or_404 method domain rest
  site_static method _ = refuse 404 denied

  module _ (name : Bytes) (valid : is_ok (validate_domain name) ≡ true) (q : HelperRequest) where
    send_release-IsAuthorised :
        (t : Token)
        → token ≡ some t
        → has_scope t.scopes "files:write" ≡ true
        → (send_release name t).sent ≡ some q
        → IsAuthorised token name q
    unfolding send_release
    send_release-IsAuthorised t k s h =
        let (input, _, j) = with_body-sent helper denied deploy_body _ q h in
        subst (IsAuthorised token name)
          (deliver-sent helper denied false "static.deploy_release" _ q j)
          (record {
            sender = t;
            token_of = k;
            scope = s;
            valid = valid;
            domain = refl;
            owner = refl;
            raw = tt;
          })

    send_update-IsAuthorised :
        (t : Token)
        → token ≡ some t
        → has_scope t.scopes "sites:write" ≡ true
        → (send_update name t).sent ≡ some q
        → IsAuthorised token name q
    unfolding send_update
    send_update-IsAuthorised t k s h =
        let (input, _, j) =
          with_body-sent helper denied (static_body (static_request_of update_routing name)) _ q
            h in
        subst (IsAuthorised token name)
          (deliver-sent helper denied true "static.update_routing" _ q j)
          (record {
            sender = t;
            token_of = k;
            scope = s;
            valid = valid;
            domain = refl;
            owner = tt;
            raw = tt;
          })

    static_route-IsAuthorised :
        (method : Method) → (static_route method name).sent ≡ some q → IsAuthorised token name q
    unfolding static_route send_read
    static_route-IsAuthorised get h =
        let (t, k, s, j) = with_scope-sent helper denied token "sites:read" _ q h in
        subst (IsAuthorised token name) (deliver-sent helper denied true "static.get_routing" _ q j)
          (record {
            sender = t;
            token_of = k;
            scope = s;
            valid = valid;
            domain = refl;
            owner = tt;
            raw = tt;
          })
    static_route-IsAuthorised patch h =
        let (t, k, s, j) = with_scope-sent helper denied token "sites:write" _ q h in
        send_update-IsAuthorised t k s j
    static_route-IsAuthorised post h = cc
    static_route-IsAuthorised delete_method h = cc
    static_route-IsAuthorised other_method h = cc

    routing_or_404-IsAuthorised :
        (method : Method) (rest : List Bytes)
        → (routing_or_404 method name rest).sent ≡ some q
        → IsAuthorised token name q
    routing_or_404-IsAuthorised method [] h = static_route-IsAuthorised method h
    routing_or_404-IsAuthorised method (p ∷ rest) h = cc

  pub site_static-IsAuthorised :
      (method : Method) (name area : Bytes) (rest : List Bytes) (q : HelperRequest)
      → (site_static method (name ∷ area ∷ rest)).sent ≡ some q
      → IsAuthorised token name q
  unfolding site_static
  site_static-IsAuthorised method name area rest q h =
      let (valid, k) = valid_domain-sent denied name _ q h in
      if_both (λ x. Reply.sent x ≡ some q → IsAuthorised token name q) (is_release method rest) _ _
        (λ e j.
          let (t, f, s, i) = with_scope-sent helper denied token "files:write" _ q j in
          send_release-IsAuthorised name valid q t f s i)
        (λ e j. routing_or_404-IsAuthorised name valid q method rest j) k
