-- ===== src/Routes/Tests.antt =====
-- A run of the cron routes.
use cloudpanel_gateway.Routes.Authorised.{IsAuthorised}
use cloudpanel_gateway.Routes.Sent.{site_logs-IsAuthorised}
use cloudpanel_gateway.Routes.Logs.{Inputs}
use cloudpanel_gateway.Routes.Requests.{HelperRequest, deploy_request, DeployRequest}
use cloudpanel_gateway.Auth.Tokens.{Token}
unfoldable use cloudpanel_gateway.Auth.Scopes.{has_scope}
use cloudpanel_gateway.Routes.{post}
unfoldable use cloudpanel_gateway.Names.{validate_domain, fold_case}
unfoldable use cloudpanel_gateway.Routes.Logs.{site_logs}
unfoldable use cloudpanel_gateway.Routes.Operations.{site_operations}
use cloudpanel_gateway.Base.{refl, true, false, none, some, [], ◌∷◌, codes, ok, err}

abbrev reader : Token
reader = record {
  id = "tok_1";
  label = "ci";
  scopes = "cron:read" ∷ [];
  expires_at = none;
  revoked = false;
  last_used_at = none;
  created_at = 7;
}

-- A deployment whose body names another site and another owner.
abbrev deployer : Token
deployer = record reader { id = "tok_2"; scopes = "files:write" ∷ "logs:read" ∷ [] }

abbrev foreign : DeployRequest
foreign = record {
  domain = codes "other.test";
  artifact_id = "art_1";
  target_dir = codes "www";
  replace = false;
  confirm = true;
  owner_token_id = "tok_9";
  root = false;
  static_site = false;
}

abbrev inputs : Inputs
inputs = record {
  parse_int = λ v. none;
  text = λ v. "";
  cron = λ q. ok q;
  node = err "no body";
  build = err "no body";
  release = ok foreign;
  routing = λ q. ok q;
  settings = λ q. ok q;
  operations = record { deploy = ok foreign; components = err "no body"; restore = err "no body" };
  logs = err "no body";
}

abbrev sent_deploy : HelperRequest
sent_deploy =
    deploy_request (record foreign { domain = codes "shop.test"; owner_token_id = "tok_2" })

site_logs-IsAuthorised_example : IsAuthorised (some deployer) (codes "shop.test") sent_deploy
unfolding site_logs site_operations has_scope validate_domain fold_case
site_logs-IsAuthorised_example =
    site_logs-IsAuthorised (λ q. none) 0 inputs (some deployer) post (codes "shop.test")
      (codes "deployments") [] sent_deploy refl
