-- ===== src/Routes/Operations/Sent.antt =====
-- Every request that `site_operations` sends is authorised.
use cloudpanel_gateway.Auth.Tokens.{Token}
use cloudpanel_gateway.Auth.Scopes.{has_scope}
unfoldable use cloudpanel_gateway.Names.{validate_domain}
use cloudpanel_gateway.Routes.{Method, get, post, patch, delete_method, other_method}
use cloudpanel_gateway.Routes.Requests.{
  HelperRequest, tls_request, deploy_request, backup_request, Reply, refuse, with_scope-sent,
  with_body-sent, valid_domain-sent,
}
use cloudpanel_gateway.Routes.Authorised.{IsAuthorised, deliver-IsAuthorised}
use cloudpanel_gateway.Routes.Operations.{
  Bodies, backups_scope, operation_scope, backup_request_of, tls_route, send_deploy,
  deployment_route, send_create, send_restore, backup_route, operation_route, site_operations,
}
use cloudpanel_gateway.Base.{
  ℕ, String, ◌≡◌, refl, Bool, true, false, not, ◌&&◌, Option, some, List, [], ◌∷◌, if◌then◌else◌,
  if_both, Bytes, codes, bytes_eq, is_ok,
}

module _ (text : Bytes → String) (helper : HelperRequest → Option String) (denied : ℕ)
    (bodies : Bodies) (token : Option Token) where
  module _ (name : Bytes) (valid : is_ok (validate_domain name) ≡ true) (q : HelperRequest)
      (t : Token) (holds : token ≡ some t) where
    tls_route-IsAuthorised :
        (method : Method) (rest : List Bytes)
        → has_scope t.scopes "tls:read" ≡ true
        → (tls_route text helper denied bodies token method name rest).sent ≡ some q
        → IsAuthorised token name q
    unfolding tls_route
    tls_route-IsAuthorised get [] s h =
        deliver-IsAuthorised helper denied false "tls.get_status" (tls_request name) q token t name
          holds s valid refl tt tt h
    tls_route-IsAuthorised get (p ∷ rest) s h = cc
    tls_route-IsAuthorised post rest s h = cc
    tls_route-IsAuthorised patch rest s h = cc
    tls_route-IsAuthorised delete_method rest s h = cc
    tls_route-IsAuthorised other_method rest s h = cc

    send_deploy-IsAuthorised :
        (root : Bool)
        → has_scope t.scopes "files:write" ≡ true
        → (send_deploy text helper denied bodies token name t root).sent ≡ some q
        → IsAuthorised token name q
    unfolding send_deploy
    send_deploy-IsAuthorised root s h =
        let (input, _, j) = with_body-sent helper denied bodies.deploy _ q h in
        deliver-IsAuthorised helper denied false
          (if root then "file.deploy_root" else "file.deploy_artifact")
          (deploy_request (record input { domain = name; owner_token_id = t.id; root = root })) q
          token t name holds s valid refl refl tt j

    deployment_route-IsAuthorised :
        (method : Method) (rest : List Bytes)
        → has_scope t.scopes "files:write" ≡ true
        → (deployment_route text helper denied bodies token method name rest t).sent ≡ some q
        → IsAuthorised token name q
    unfolding deployment_route
    deployment_route-IsAuthorised post [] s h = send_deploy-IsAuthorised false s h
    deployment_route-IsAuthorised post (p ∷ []) s h =
        if_both (λ x. Reply.sent x ≡ some q → IsAuthorised token name q) (bytes_eq p (codes "root"))
          _ _ (λ e. send_deploy-IsAuthorised true s) (λ e j. cc) h
    deployment_route-IsAuthorised post (p ∷ r ∷ rest) s h = cc
    deployment_route-IsAuthorised get rest s h = cc
    deployment_route-IsAuthorised patch rest s h = cc
    deployment_route-IsAuthorised delete_method rest s h = cc
    deployment_route-IsAuthorised other_method rest s h = cc

    backup_route-IsAuthorised :
        (method : Method) (rest : List Bytes)
        → has_scope t.scopes (backups_scope method) ≡ true
        → (backup_route text helper denied bodies token method name rest).sent ≡ some q
        → IsAuthorised token name q
    unfolding backup_route send_create send_restore
    backup_route-IsAuthorised get [] s h =
        deliver-IsAuthorised helper denied false "backup.list"
          (backup_request (backup_request_of "list" name "" "" false)) q token t name holds s valid
          refl tt tt h
    backup_route-IsAuthorised post [] s h =
        let (components, _, j) = with_body-sent helper denied bodies.components _ q h in
        deliver-IsAuthorised helper denied false "backup.create"
          (backup_request (backup_request_of "create" name components "" false)) q token t name
          holds s valid refl tt tt j
    backup_route-IsAuthorised post (id ∷ verb ∷ []) s h =
        if_both (λ x. Reply.sent x ≡ some q → IsAuthorised token name q)
          (not (bytes_eq id []) && bytes_eq verb (codes "restore")) _ _
          (λ e k.
            let (input, _, j) = with_body-sent helper denied bodies.restore _ q k in
            deliver-IsAuthorised helper denied false "backup.restore"
              (backup_request (backup_request_of "restore" name input.0 (text id) input.1)) q token
              t name holds s valid refl tt tt j)
          (λ e j. cc) h
    backup_route-IsAuthorised get (p ∷ rest) s h = cc
    backup_route-IsAuthorised post (p ∷ []) s h = cc
    backup_route-IsAuthorised post (p ∷ r ∷ u ∷ rest) s h = cc
    backup_route-IsAuthorised patch rest s h = cc
    backup_route-IsAuthorised delete_method rest s h = cc
    backup_route-IsAuthorised other_method rest s h = cc

    operation_route-IsAuthorised :
        (method : Method) (operation : Bytes) (rest : List Bytes)
        → has_scope t.scopes (operation_scope method operation) ≡ true
        → (operation_route text helper denied bodies token method name operation rest t).sent
          ≡ some q
        → IsAuthorised token name q
    unfolding operation_route
    operation_route-IsAuthorised method operation rest s h =
        cases (bytes_eq operation (codes "tls")) (bytes_eq operation (codes "deployments"))
          (bytes_eq operation (codes "backups")) s h
      where
        cases :
            (a b c : Bool)
            → has_scope t.scopes (
                if a
                then "tls:read"
                else if b
                then "files:write"
                else if c
                then backups_scope method
                else "")
              ≡ true
            → (if a
                then tls_route text helper denied bodies token method name rest
                else if b
                then deployment_route text helper denied bodies token method name rest t
                else if c
                then backup_route text helper denied bodies token method name rest
                else refuse 404 denied).sent
              ≡ some q
            → IsAuthorised token name q
        cases true b c s h = tls_route-IsAuthorised method rest s h
        cases false true c s h = deployment_route-IsAuthorised method rest s h
        cases false false true s h = backup_route-IsAuthorised method rest s h
        cases false false false s h = cc

  pub site_operations-IsAuthorised :
      (method : Method) (name operation : Bytes) (rest : List Bytes) (q : HelperRequest)
      → (site_operations text helper denied bodies token method (name ∷ operation ∷ rest)).sent
        ≡ some q
      → IsAuthorised token name q
  unfolding site_operations
  site_operations-IsAuthorised method name operation rest q h =
      let (valid, k) = valid_domain-sent denied name _ q h in
      let (t, holds, s, j) =
        with_scope-sent helper denied token (operation_scope method operation) _ q k in
      operation_route-IsAuthorised name valid q t holds method operation rest s j
