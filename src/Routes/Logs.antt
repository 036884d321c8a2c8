-- ===== src/Routes/Logs.antt =====
-- `siteLogs` of internal/gateway/http.go: the routes of the logs, and the choice among the handlers
-- of all the routes below /v1/sites/.
use mathlib.Core.Option
use cloudpanel_gateway.Auth.Tokens.{Token}
use cloudpanel_gateway.Auth.Scopes.{has_scope}
unfoldable use cloudpanel_gateway.Names.{validate_domain}
use cloudpanel_gateway.Cron.Runner.{CronRequest}
use cloudpanel_gateway.Static.{StaticRequest}
use cloudpanel_gateway.Routes.{Method, get, post, Handled}
unfoldable use cloudpanel_gateway.Routes.{site_cron}
use cloudpanel_gateway.Routes.Requests.{
  HelperRequest, log_request, cron_request, DeployRequest, SettingsRequest, LogRequest, Reply,
  refuse,
}
unfoldable use cloudpanel_gateway.Routes.Requests.{deliver, with_scope, with_body}
use cloudpanel_gateway.Routes.Node.{NodeInput, BuildInput}
use cloudpanel_gateway.Routes.Operations.{Bodies}
unfoldable use cloudpanel_gateway.Routes.Node.{site_node}
unfoldable use cloudpanel_gateway.Routes.StaticSite.{site_static}
unfoldable use cloudpanel_gateway.Routes.SiteSettings.{site_settings}
unfoldable use cloudpanel_gateway.Routes.Operations.{site_operations}
use cloudpanel_gateway.Base.{
  ℕ, String, Bool, true, false, not, ◌&&◌, ◌||◌, Option, none, some, List, [], ◌∷◌, str_eq,
  if◌then◌else◌, Bytes, codes, bytes_eq, Result, is_ok,
}

-- `mcpLogQueryInput`
pub record LogInput : Type 0 where
  pub sources : List Bytes
  pub app_log_path : Bytes
  pub from_time : Bytes
  pub to_time : Bytes
  pub contains_text : Bytes
  pub statuses : List ℕ
  pub max_lines : ℕ
  pub raw : Bool
  pub symptom : Bytes

-- The JSON decoder of each body, and the other calls of libraries.
pub record Inputs : Type 0 where
  pub parse_int : Bytes → Option ℕ
  pub text : Bytes → String
  pub cron : CronRequest → Result CronRequest
  pub node : Result NodeInput
  pub build : Result BuildInput
  pub release : Result DeployRequest
  pub routing : StaticRequest → Result StaticRequest
  pub settings : SettingsRequest → Result SettingsRequest
  pub operations : Bodies
  pub logs : Result LogInput

-- `LogRequest{…}` of a query or a diagnosis
abbrev pub log_request_of : Bytes → LogInput → LogRequest
log_request_of domain input = record {
  domain = domain;
  sources = input.sources;
  app_log_path = input.app_log_path;
  from_time = input.from_time;
  to_time = input.to_time;
  contains_text = input.contains_text;
  statuses = input.statuses;
  max_lines = input.max_lines;
  raw = input.raw;
  symptom = input.symptom;
  list_sources = false;
}

-- `CallLogSourcesHelper(ctx, c, domain, "")`
abbrev pub sources_request : Bytes → LogRequest
sources_request domain = record {
  domain = domain;
  sources = [];
  app_log_path = [];
  from_time = [];
  to_time = [];
  contains_text = [];
  statuses = [];
  max_lines = 0;
  raw = false;
  symptom = [];
  list_sources = true;
}

-- Whether the helper answers a cron request without an error
abbrev pub accepts : (HelperRequest → Option String) → CronRequest → Bool
accepts helper q = elim (helper (cron_request q)) [ none ↦ true | some e ↦ false ]

-- The answer of `siteCron`, with its request as one of the helper's
abbrev pub cron_reply : Handled → Reply
cron_reply h = record {
  status = h.status;
  denied = h.denied;
  sent = Option.map cron_request h.sent;
  audited = Option.map (λ outcome. ("cron", str_eq outcome "ok")) h.audited;
}

module _ (helper : HelperRequest → Option String) (denied : ℕ) (inputs : Inputs)
    (token : Option Token) where
  -- `case "sources"`
  unfoldable pub send_sources : Method → Bytes → Reply
  unfolding deliver
  send_sources get domain =
      deliver helper denied false "logs.list_sources" (log_request (sources_request domain))
  send_sources method domain = refuse 405 denied

  -- `case "query", "diagnose"`: unredacted lines are for administrators.
  unfoldable pub send_query : Method → Bytes → String → Token → Reply
  unfolding with_body deliver has_scope
  send_query post domain action t = with_body helper denied inputs.logs (λ input.
      if input.raw && not (has_scope t.scopes "admin")
      then refuse 403 denied
      else deliver helper denied false action (log_request (log_request_of domain input)))
  send_query method domain action t = refuse 405 denied

  unfoldable pub log_route : Method → Bytes → Bytes → Token → Reply
  unfolding send_sources send_query
  log_route method domain operation t =
      if bytes_eq operation (codes "sources")
      then send_sources method domain
      else if bytes_eq operation (codes "query")
      then send_query method domain "logs.query" t
      else if bytes_eq operation (codes "diagnose")
      then send_query method domain "logs.diagnose" t
      else refuse 404 denied

  -- `len(parts) != 3 || parts[1] != "logs" || ValidateDomain(parts[0]) != nil`
  unfoldable pub log_parts : Method → List Bytes → Token → Reply
  unfolding log_route validate_domain
  log_parts method (domain ∷ area ∷ operation ∷ []) t =
      if not (is_ok (validate_domain domain))
      then refuse 404 denied
      else if not (bytes_eq area (codes "logs"))
      then refuse 404 denied
      else log_route method domain operation t
  log_parts method parts t = refuse 404 denied

  -- `siteLogs(w, r)`, of the parts of the path behind /v1/sites/
  unfoldable pub site_logs : Method → List Bytes → Reply
  unfolding with_scope log_parts site_operations site_cron site_node site_static site_settings
  site_logs method (domain ∷ area ∷ rest) =
      if bytes_eq area (codes "tls")
        || bytes_eq area (codes "deployments")
        || bytes_eq area (codes "backups")
      then site_operations inputs.text helper denied inputs.operations token method
          (domain ∷ area ∷ rest)
      else if bytes_eq area (codes "cron-jobs")
      then cron_reply (
          site_cron inputs.parse_int inputs.cron (accepts helper) denied token method
            (domain ∷ area ∷ rest))
      else if bytes_eq area (codes "node") || bytes_eq area (codes "builds")
      then site_node helper denied inputs.node inputs.build token method (domain ∷ area ∷ rest)
      else if bytes_eq area (codes "static")
      then site_static helper denied inputs.release inputs.routing token method
          (domain ∷ area ∷ rest)
      else if not (bytes_eq area (codes "logs"))
      then site_settings helper denied inputs.settings token method (domain ∷ area ∷ rest)
      else with_scope helper denied token "logs:read" (log_parts method (domain ∷ area ∷ rest))
  site_logs method parts = with_scope helper denied token "logs:read" (log_parts method parts)
