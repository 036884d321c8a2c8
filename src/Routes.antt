-- ===== src/Routes.antt =====
-- internal/gateway/http.go: `siteCron` with `decodeCronRequest`, the routes of the cron jobs. The
-- JSON decoder and `strconv.ParseInt` are arguments, and so is the answer of the helper.
pub mod Scope
pub mod Requests
pub mod Authorised
pub mod Node
pub mod StaticSite
pub mod Operations
pub mod SiteSettings
pub mod Logs
pub mod Sent
mod Tests
use cloudpanel_gateway.Auth.Tokens.{Token}
unfoldable use cloudpanel_gateway.Auth.Scopes.{has_scope}
unfoldable use cloudpanel_gateway.Names.{validate_domain}
use cloudpanel_gateway.Cron.Runner.{
  CronRequest, Operation, cron_list, cron_create, cron_update, cron_delete, other_runner,
}
use cloudpanel_gateway.Base.{
  ℕ, ◌+◌, String, Bool, false, not, ◌||◌, Option, none, some, List, [], ◌∷◌, ◌==◌, if◌then◌else◌,
  Bytes, codes, bytes_eq, Result, is_ok, ◌>>=◌, ok, err,
}

pub data Method : Type 0 where
  get post patch delete_method other_method : Method

-- What a request came to: the status, the counter of denials, the request that the helper was sent,
-- and the outcome that was audited.
pub record Handled : Type 0 where
  pub status : ℕ
  pub denied : ℕ
  pub sent : Option CronRequest
  pub audited : Option String

abbrev pub answer : ℕ → ℕ → Handled
answer status denied = record { status = status; denied = denied; sent = none; audited = none }

-- `decodeCronRequest(r, &out)`: the operation, the domain and the job come from the path.
unfoldable pub decode_cron_request :
    (CronRequest → Result CronRequest) → CronRequest → Result CronRequest
decode_cron_request decode out = decode out >>= λ body.
    ok (record body { operation = out.operation; domain = out.domain; job_id = out.job_id })

-- `CallTypedHelper` and the audit of its outcome
unfoldable pub send : (CronRequest → Bool) → ℕ → Result CronRequest → Handled
send helper denied (err e) = answer 400 denied
send helper denied (ok q) =
    if helper q
    then record { status = 200; denied = denied; sent = some q; audited = some "ok" }
    else record { status = 400; denied = denied; sent = some q; audited = some "error" }

-- `err != nil || id < 1`, where a number below 1 reads as 0
unfoldable pub with_job :
    (CronRequest → Result CronRequest)
    → (CronRequest → Bool)
    → ℕ
    → Operation
    → Option ℕ
    → CronRequest
    → Handled
unfolding send decode_cron_request
with_job decode helper denied operation none q = answer 404 denied
with_job decode helper denied operation (some id) q =
    if id == 0
    then answer 404 denied
    else send helper denied
        (decode_cron_request decode (record q { operation = operation; job_id = id }))

-- The `switch` over the length of the path and the method.
unfoldable pub dispatch :
    (Bytes → Option ℕ)
    → (CronRequest → Result CronRequest)
    → (CronRequest → Bool)
    → ℕ
    → Method
    → List Bytes
    → CronRequest
    → Handled
unfolding with_job
dispatch parse_int decode helper denied get [] q =
    send helper denied (ok (record q { operation = cron_list }))
dispatch parse_int decode helper denied post [] q =
    send helper denied (decode_cron_request decode (record q { operation = cron_create }))
dispatch parse_int decode helper denied patch (id ∷ []) q =
    with_job decode helper denied cron_update (parse_int id) q
dispatch parse_int decode helper denied delete_method (id ∷ []) q =
    with_job decode helper denied cron_delete (parse_int id) q
dispatch parse_int decode helper denied method rest q = answer 405 denied

-- `need`
abbrev pub needed_scope : Method → String
needed_scope get = "cron:read"
needed_scope _ = "cron:write"

abbrev pub may : Option Token → Method → Bool
may none method = false
may (some t) method = has_scope t.scopes (needed_scope method)

abbrev pub empty_request : Bytes → CronRequest
empty_request domain = record {
  operation = cron_list;
  domain = domain;
  job_id = 0;
  schedule = record { minute = []; hour = []; day = []; month = []; weekday = [] };
  runner = other_runner;
  target = [];
  args = [];
  method = [];
  url = [];
  command = [];
  if_match_revision = [];
  confirm = false;
}

-- `siteCron(w, r, parts)`
unfoldable pub site_cron :
    (Bytes → Option ℕ)
    → (CronRequest → Result CronRequest)
    → (CronRequest → Bool)
    → ℕ
    → Option Token
    → Method
    → List Bytes
    → Handled
unfolding dispatch
site_cron parse_int decode helper denied token method (domain ∷ area ∷ rest) =
    if not (bytes_eq area (codes "cron-jobs")) || not (is_ok (validate_domain domain))
    then answer 404 denied
    else if not (may token method)
    then answer 403 (denied + 1)
    else dispatch parse_int decode helper denied method rest (empty_request domain)
site_cron parse_int decode helper denied token method _ = answer 404 denied
