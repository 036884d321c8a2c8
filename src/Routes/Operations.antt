-- ===== src/Routes/Operations.antt =====
-- `siteOperations` of internal/gateway/http.go: the certificate, deployments and backups of a site.
-- The decoded bodies are arguments, and so is the text of a part of the path, as the id of a backup.
pub mod Sent
use cloudpanel_gateway.Auth.Tokens.{Token}
unfoldable use cloudpanel_gateway.Names.{validate_domain}
use cloudpanel_gateway.Backups.Operations.{BackupRequest}
use cloudpanel_gateway.Routes.{Method, get, post}
use cloudpanel_gateway.Routes.Requests.{
  HelperRequest, tls_request, deploy_request, backup_request, DeployRequest, Reply, refuse,
}
unfoldable use cloudpanel_gateway.Routes.Requests.{deliver, with_scope, with_body}
use cloudpanel_gateway.Base.{
  ℕ, String, Bool, true, false, not, ◌&&◌, Option, List, [], ◌∷◌, if◌then◌else◌, Bytes, codes,
  bytes_eq, Result, is_ok,
}

abbrev pub backups_scope : Method → String
backups_scope get = "backups:read"
backups_scope method = "backups:write"

-- `need`
abbrev pub operation_scope : Method → Bytes → String
operation_scope method operation =
    if bytes_eq operation (codes "tls")
    then "tls:read"
    else if bytes_eq operation (codes "deployments")
    then "files:write"
    else if bytes_eq operation (codes "backups")
    then backups_scope method
    else ""

abbrev pub backup_request_of : String → Bytes → String → String → Bool → BackupRequest
backup_request_of operation domain components id confirm = record {
  operation = operation;
  domain = domain;
  components = components;
  backup_id = id;
  confirm = confirm;
}

-- What the JSON decoder makes of the body, for each of the inputs.
pub record Bodies : Type 0 where
  pub deploy : Result DeployRequest
  pub components : Result String
  pub restore : Result (String × Bool)

module _ (text : Bytes → String) (helper : HelperRequest → Option String) (denied : ℕ)
    (bodies : Bodies) (token : Option Token) where
  unfoldable pub send_deploy : Bytes → Token → Bool → Reply
  unfolding with_body deliver
  send_deploy domain t root = with_body helper denied bodies.deploy (λ input.
      deliver helper denied false (if root then "file.deploy_root" else "file.deploy_artifact")
        (deploy_request (record input { domain = domain; owner_token_id = t.id; root = root })))

  -- `case "tls"`
  unfoldable pub tls_route : Method → Bytes → List Bytes → Reply
  unfolding deliver
  tls_route get domain [] = deliver helper denied false "tls.get_status" (tls_request domain)
  tls_route method domain rest = refuse 405 denied

  -- `case "deployments"`
  unfoldable pub deployment_route : Method → Bytes → List Bytes → Token → Reply
  unfolding send_deploy
  deployment_route post domain [] t = send_deploy domain t false
  deployment_route post domain (p ∷ []) t =
      if bytes_eq p (codes "root") then send_deploy domain t true else refuse 405 denied
  deployment_route method domain rest t = refuse 405 denied

  unfoldable pub send_restore : Bytes → Bytes → Reply
  unfolding with_body deliver
  send_restore domain id = with_body helper denied bodies.restore (λ input.
      deliver helper denied false "backup.restore"
        (backup_request (backup_request_of "restore" domain input.0 (text id) input.1)))

  unfoldable pub send_create : Bytes → Reply
  unfolding with_body deliver
  send_create domain = with_body helper denied bodies.components (λ components.
      deliver helper denied false "backup.create"
        (backup_request (backup_request_of "create" domain components "" false)))

  -- `case "backups"`
  unfoldable pub backup_route : Method → Bytes → List Bytes → Reply
  unfolding send_create send_restore deliver
  backup_route get domain [] =
      deliver helper denied false "backup.list"
        (backup_request (backup_request_of "list" domain "" "" false))
  backup_route post domain [] = send_create domain
  backup_route post domain (id ∷ verb ∷ []) =
      if not (bytes_eq id []) && bytes_eq verb (codes "restore")
      then send_restore domain id
      else refuse 404 denied
  backup_route method domain rest = refuse 404 denied

  -- The `switch` over the operation
  unfoldable pub operation_route : Method → Bytes → Bytes → List Bytes → Token → Reply
  unfolding tls_route deployment_route backup_route
  operation_route method domain operation rest t =
      if bytes_eq operation (codes "tls")
      then tls_route method domain rest
      else if bytes_eq operation (codes "deployments")
      then deployment_route method domain rest t
      else if bytes_eq operation (codes "backups")
      then backup_route method domain rest
      else refuse 404 denied

  -- `siteOperations(w, r, parts)`
  unfoldable pub site_operations : Method → List Bytes → Reply
  unfolding with_scope operation_route validate_domain
  site_operations method (domain ∷ operation ∷ rest) =
      if not (is_ok (validate_domain domain))
      then refuse 404 denied
      else with_scope helper denied token (operation_scope method operation)
          (operation_route method domain operation rest)
  site_operations method _ = refuse 404 denied
