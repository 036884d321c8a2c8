-- ===== src/Routes/Sent.antt =====
-- Every request that a route below /v1/sites/ sends is authorised.
use cloudpanel_gateway.Routes.SiteSettings.{site_settings-IsAuthorised}
use cloudpanel_gateway.Routes.StaticSite.{site_static-IsAuthorised}
use cloudpanel_gateway.Routes.Node.{site_node-IsAuthorised}
use cloudpanel_gateway.Routes.Operations.Sent.{site_operations-IsAuthorised}
use mathlib.Core.Option
use mathlib.Core.Path.{subst}
use cloudpanel_gateway.Auth.Tokens.{Token}
use cloudpanel_gateway.Auth.Scopes.{has_scope}
unfoldable use cloudpanel_gateway.Names.{validate_domain}
use cloudpanel_gateway.Routes.{
  Method, get, post, patch, delete_method, other_method, Handled, needed_scope, may, CronRequest,
}
use cloudpanel_gateway.Routes.{site_cron}
use cloudpanel_gateway.Routes.Scope.{site_cron_sent, site_cron_operation}
use cloudpanel_gateway.Routes.Requests.{
  HelperRequest, log_request, cron_request, Reply, with_body-sent, valid_domain-sent,
  with_scope-sent,
}
use cloudpanel_gateway.Routes.Authorised.{IsAuthorised, deliver-IsAuthorised}
use cloudpanel_gateway.Routes.Logs.{
  Inputs, log_request_of, sources_request, cron_reply, log_parts, site_logs, log_route, accepts,
}
unfoldable use cloudpanel_gateway.Routes.Logs.{send_sources, send_query}
use cloudpanel_gateway.Base.{
  ℕ, String, ◌≡◌, refl, ◌⊎◌, inl, Bool, true, false, not, ◌&&◌, ◌||◌, Option, none, some, List, [],
  ◌∷◌, arith, if_both, Bytes, codes, bytes_eq, Result, is_ok,
}

may-sender :
    (token : Option Token) (method : Method)
    → may token method ≡ true
    → (t : Token) × (token ≡ some t) × (has_scope t.scopes (needed_scope method) ≡ true)
may-sender none method h = cc
may-sender (some t) method h = (t, refl, h)

cron_reply-sent :
    (h : Handled) (q : HelperRequest)
    → (cron_reply h).sent ≡ some q
    → (r : CronRequest) × (h.sent ≡ some r) × (cron_request r ≡ q)
cron_reply-sent h q k = cases h.sent refl k
  where
    cases :
        (o : Option CronRequest)
        → h.sent ≡ o
        → Option.map cron_request o ≡ some q
        → (r : CronRequest) × (h.sent ≡ some r) × (cron_request r ≡ q)
    cases none e j = cc
    cases (some r) e j = (r, e, cc)

cron-IsAuthorised :
    (parse_int : Bytes → Option ℕ) (decode : CronRequest → Result CronRequest)
    (helper : CronRequest → Bool) (denied : ℕ) (token : Option Token) (method : Method)
    (name area : Bytes) (rest : List Bytes) (q : HelperRequest)
    → (cron_reply (site_cron parse_int decode helper denied token method (name ∷ area ∷ rest))).sent
      ≡ some q
    → IsAuthorised token name q
cron-IsAuthorised parse_int decode helper denied token method name area rest q h =
    let (r, sent, e) =
      cron_reply-sent (site_cron parse_int decode helper denied token method (name ∷ area ∷ rest)) q
        h in
    let (_, valid, allowed, domain) =
      site_cron_sent parse_int decode helper denied token method name area rest r sent in
    let scope =
      site_cron_operation parse_int decode helper denied token method name area rest r sent in
    let (t, k, s) = may-sender token method allowed in
    subst (IsAuthorised token name) e (record {
      sender = t;
      token_of = k;
      scope = rw scope s;
      valid = valid;
      domain = domain;
      owner = tt;
      raw = tt;
    })

module _ (helper : HelperRequest → Option String) (denied : ℕ) (inputs : Inputs)
    (token : Option Token) (name : Bytes) (q : HelperRequest) where
  -- What is asked of the reply of a handler.
  Authorises : Reply → Type 0
  Authorises x = x.sent ≡ some q → IsAuthorised token name q

  module _ (valid : is_ok (validate_domain name) ≡ true) (t : Token) (holds : token ≡ some t)
      (s : has_scope t.scopes "logs:read" ≡ true) where
    send_sources-Authorises :
        (method : Method) → Authorises (send_sources helper denied inputs token method name)
    unfolding Authorises send_sources
    send_sources-Authorises get h =
        deliver-IsAuthorised helper denied false "logs.list_sources"
          (log_request (sources_request name)) q token t name holds s valid refl tt (inl refl) h
    send_sources-Authorises post h = cc
    send_sources-Authorises patch h = cc
    send_sources-Authorises delete_method h = cc
    send_sources-Authorises other_method h = cc

    send_query-Authorises :
        (method : Method) (action : String)
        → Authorises (send_query helper denied inputs token method name action t)
    unfolding Authorises send_query
    send_query-Authorises post action h =
        let (input, _, j) = with_body-sent helper denied inputs.logs _ q h in
        if_both (λ x. Reply.sent x ≡ some q → IsAuthorised token name q)
          (input.raw && not (has_scope t.scopes "admin")) _ _ (λ e i. cc)
          (λ e i.
            deliver-IsAuthorised helper denied false action
              (log_request (log_request_of name input)) q token t name holds s valid refl tt
              (redacted input.raw (has_scope t.scopes "admin") e) i)
          j
      where
        redacted : (a b : Bool) → (a && not b) ≡ false → (a ≡ false) ⊎ (b ≡ true)
        redacted a b e = ground arith
    send_query-Authorises get action h = cc
    send_query-Authorises patch action h = cc
    send_query-Authorises delete_method action h = cc
    send_query-Authorises other_method action h = cc

    log_route-Authorises :
        (method : Method) (operation : Bytes)
        → Authorises (log_route helper denied inputs token method name operation t)
    unfolding Authorises log_route
    log_route-Authorises method operation =
        if_both Authorises (bytes_eq operation (codes "sources")) _ _
          (λ e. send_sources-Authorises method)
          (λ e.
            if_both Authorises (bytes_eq operation (codes "query")) _ _
              (λ k. send_query-Authorises method "logs.query")
              (λ k.
                if_both Authorises (bytes_eq operation (codes "diagnose")) _ _
                  (λ j. send_query-Authorises method "logs.diagnose") (λ j i. cc)))

  log_parts-Authorises :
      (method : Method) (area : Bytes) (rest : List Bytes) (t : Token)
      → token ≡ some t
      → has_scope t.scopes "logs:read" ≡ true
      → (log_parts helper denied inputs token method (name ∷ area ∷ rest) t).sent ≡ some q
      → IsAuthorised token name q
  unfolding log_parts Authorises
  log_parts-Authorises method area [] t holds s h = cc
  log_parts-Authorises method area (operation ∷ p ∷ rest) t holds s h = cc
  log_parts-Authorises method area (operation ∷ []) t holds s h =
      let (valid, k) = valid_domain-sent denied name _ q h in
      if_both (λ x. Reply.sent x ≡ some q → IsAuthorised token name q)
        (not (bytes_eq area (codes "logs"))) _ _ (λ e j. cc)
        (λ e j. log_route-Authorises valid t holds s method operation j) k

-- A request that reaches the helper from a route below /v1/sites/ comes from a token with the scope
-- that the request asks for, by what it does; it is for the domain of the path, a valid one, and in
-- the name of that token, whatever the body says; and unredacted logs are for the scope `admin`.
pub site_logs-IsAuthorised :
    (helper : HelperRequest → Option String) (denied : ℕ) (inputs : Inputs) (token : Option Token)
    (method : Method) (name area : Bytes) (rest : List Bytes) (q : HelperRequest)
    → (site_logs helper denied inputs token method (name ∷ area ∷ rest)).sent ≡ some q
    → IsAuthorised token name q
unfolding site_logs Authorises
site_logs-IsAuthorised helper denied inputs token method name area rest q h =
    if_both P
      (bytes_eq area (codes "tls")
        || bytes_eq area (codes "deployments")
        || bytes_eq area (codes "backups"))
      _ _
      (λ e j.
        site_operations-IsAuthorised inputs.text helper denied inputs.operations token method name
          area rest q j)
      (λ e.
        if_both P (bytes_eq area (codes "cron-jobs")) _ _
          (λ k j.
            cron-IsAuthorised inputs.parse_int inputs.cron (accepts helper) denied token method name
              area rest q j)
          (λ k.
            if_both P (bytes_eq area (codes "node") || bytes_eq area (codes "builds")) _ _
              (λ i j.
                site_node-IsAuthorised helper denied inputs.node inputs.build token method name area
                  rest q j)
              (λ i.
                if_both P (bytes_eq area (codes "static")) _ _
                  (λ g j.
                    site_static-IsAuthorised helper denied inputs.release inputs.routing token
                      method name area rest q j)
                  (λ g.
                    if_both P (not (bytes_eq area (codes "logs"))) _ _
                      (λ f j.
                        site_settings-IsAuthorised helper denied inputs.settings token method name
                          area rest q j)
                      (λ f j.
                        let (t, holds, s, d) =
                          with_scope-sent helper denied token "logs:read" _ q j in
                        log_parts-Authorises helper denied inputs token name q method area rest t
                          holds s d)))))
      h
  where
    P : Reply → Type 0
    P x = x.sent ≡ some q → IsAuthorised token name q
