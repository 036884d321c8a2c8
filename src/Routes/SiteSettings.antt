-- ===== src/Routes/SiteSettings.antt =====
-- `siteSettings` of internal/gateway/http.go: the routes of a site's settings.
use cloudpanel_gateway.Auth.Tokens.{Token}
unfoldable use cloudpanel_gateway.Names.{validate_domain}
use cloudpanel_gateway.Routes.{Method, get, post, patch, delete_method, other_method}
use cloudpanel_gateway.Routes.Node.{unless_get}
use cloudpanel_gateway.Routes.Requests.{
  HelperRequest, settings_request, SettingsRequest, Reply, refuse, with_scope-sent, with_body-sent,
  valid_domain-sent,
}
unfoldable use cloudpanel_gateway.Routes.Requests.{deliver, with_scope, with_body}
use cloudpanel_gateway.Routes.Authorised.{IsAuthorised, settings_scope, deliver-IsAuthorised}
use cloudpanel_gateway.Base.{
  ℕ, String, ◌≡◌, refl, true, false, not, Option, none, some, List, [], ◌∷◌, if◌then◌else◌, if_both,
  Bytes, codes, bytes_eq, join, Result, is_ok,
}

-- What the table of the routes says: an operation with its scope, or the status of a refusal.
pub data Entry : Type 0 where
  entry : String → String → Entry
  no_entry : ℕ → Entry

-- `if r.Method != http.MethodGet { … 405 }`, and the like for the other methods
abbrev pub only_get : Method → Entry → Entry
only_get get e = e
only_get method e = no_entry 405

abbrev pub only_patch : Method → Entry → Entry
only_patch patch e = e
only_patch method e = no_entry 405

abbrev pub only_post : Method → Entry → Entry
only_post post e = e
only_post method e = no_entry 405

abbrev pub get_or_patch : Method → Entry → Entry → Entry
get_or_patch get e f = e
get_or_patch patch e f = f
get_or_patch method e f = no_entry 405

-- The `switch` over the path behind the domain
unfoldable pub settings_entry : Method → Bytes → Entry
settings_entry method path =
    if bytes_eq path (codes "settings")
    then only_get method (entry "get" "sites:read")
    else if bytes_eq path (codes "settings/root-directory")
    then only_patch method (entry "update_root" "sites:write")
    else if bytes_eq path (codes "settings/site-user/password/rotate")
    then only_post method (entry "rotate_password" "site-users:write")
    else if bytes_eq path (codes "php")
    then get_or_patch method (entry "get_php" "php:read") (entry "update_php" "php:write")
    else if bytes_eq path (codes "pagespeed")
    then get_or_patch method (entry "get_pagespeed" "pagespeed:read")
        (entry "update_pagespeed" "pagespeed:write")
    else if bytes_eq path (codes "pagespeed/purge")
    then only_post method (entry "purge_pagespeed" "cache:purge")
    else no_entry 404

-- `SettingsRequest{Operation: operation, Domain: domain}`
abbrev pub settings_request_of : String → Bytes → SettingsRequest
settings_request_of operation domain = record {
  operation = operation;
  domain = domain;
  if_match_revision = [];
  confirm = false;
  root_directory = [];
  php_values = [];
  pagespeed = none;
}

-- The scope of an entry is the one that its operation asks for.
EntryFits : Entry → Type 0
EntryFits (entry operation scope) = settings_scope operation ≡ scope
EntryFits (no_entry status) = Unit

settings_entry-EntryFits : (method : Method) (path : Bytes) → EntryFits (settings_entry method path)
unfolding settings_entry EntryFits
settings_entry-EntryFits method path =
    if_both EntryFits (bytes_eq path (codes "settings")) _ _ (λ e. reads method)
      (λ e.
        if_both EntryFits (bytes_eq path (codes "settings/root-directory")) _ _ (λ k. root method)
          (λ k.
            if_both EntryFits (bytes_eq path (codes "settings/site-user/password/rotate")) _ _
              (λ j. rotate method)
              (λ j.
                if_both EntryFits (bytes_eq path (codes "php")) _ _ (λ i. php method)
                  (λ i.
                    if_both EntryFits (bytes_eq path (codes "pagespeed")) _ _
                      (λ h. pagespeed method)
                      (λ h.
                        if_both EntryFits (bytes_eq path (codes "pagespeed/purge")) _ _
                          (λ g. purge method) (λ g. tt))))))
  where
    reads : (m : Method) → EntryFits (only_get m (entry "get" "sites:read"))
    reads get = refl
    reads post = tt
    reads patch = tt
    reads delete_method = tt
    reads other_method = tt

    root : (m : Method) → EntryFits (only_patch m (entry "update_root" "sites:write"))
    root patch = refl
    root get = tt
    root post = tt
    root delete_method = tt
    root other_method = tt

    rotate : (m : Method) → EntryFits (only_post m (entry "rotate_password" "site-users:write"))
    rotate post = refl
    rotate get = tt
    rotate patch = tt
    rotate delete_method = tt
    rotate other_method = tt

    php :
        (m : Method)
        → EntryFits (get_or_patch m (entry "get_php" "php:read") (entry "update_php" "php:write"))
    php get = refl
    php patch = refl
    php post = tt
    php delete_method = tt
    php other_method = tt

    pagespeed :
        (m : Method)
        → EntryFits (
            get_or_patch m
              (entry "get_pagespeed" "pagespeed:read")
              (entry "update_pagespeed" "pagespeed:write"))
    pagespeed get = refl
    pagespeed patch = refl
    pagespeed post = tt
    pagespeed delete_method = tt
    pagespeed other_method = tt

    purge : (m : Method) → EntryFits (only_post m (entry "purge_pagespeed" "cache:purge"))
    purge post = refl
    purge get = tt
    purge patch = tt
    purge delete_method = tt
    purge other_method = tt

module _ (helper : HelperRequest → Option String) (denied : ℕ)
    (settings_body : SettingsRequest → Result SettingsRequest) (token : Option Token) where
  -- The body, with the operation and the domain written over it, and `callSettings`
  unfoldable pub send_settings : Method → Bytes → String → Token → Reply
  unfolding with_body deliver
  send_settings method domain operation t =
      with_body helper denied
        (unless_get method (settings_body (settings_request_of operation domain))
          (settings_request_of operation domain))
        (λ input.
          deliver helper denied true operation
            (settings_request (record input { operation = operation; domain = domain })))

  unfoldable pub settings_route : Method → Bytes → Entry → Reply
  unfolding with_scope send_settings
  settings_route method domain (no_entry status) = refuse status denied
  settings_route method domain (entry operation scope) =
      with_scope helper denied token scope (send_settings method domain operation)

  -- `siteSettings(w, r, parts)`
  unfoldable pub site_settings : Method → List Bytes → Reply
  unfolding settings_route settings_entry validate_domain
  site_settings method (domain ∷ area ∷ rest) =
      if not (is_ok (validate_domain domain))
      then refuse 404 denied
      else settings_route method domain (settings_entry method (join b'/' (area ∷ rest)))
  site_settings method _ = refuse 404 denied

  settings_route-IsAuthorised :
      (method : Method) (name : Bytes) (e : Entry) (q : HelperRequest)
      → EntryFits e
      → is_ok (validate_domain name) ≡ true
      → (settings_route method name e).sent ≡ some q
      → IsAuthorised token name q
  unfolding settings_route send_settings EntryFits
  settings_route-IsAuthorised method name (no_entry status) q f v h = cc
  settings_route-IsAuthorised method name (entry operation scope) q f v h =
      let (t, k, s, j) = with_scope-sent helper denied token scope _ q h in
      let (input, _, i) =
        with_body-sent helper denied
          (unless_get method (settings_body (settings_request_of operation name))
            (settings_request_of operation name))
          _ q j in
      deliver-IsAuthorised helper denied true operation
        (settings_request (record input { operation = operation; domain = name })) q token t name k
        (rw f s) v refl tt tt i

  pub site_settings-IsAuthorised :
      (method : Method) (name area : Bytes) (rest : List Bytes) (q : HelperRequest)
      → (site_settings method (name ∷ area ∷ rest)).sent ≡ some q
      → IsAuthorised token name q
  unfolding site_settings
  site_settings-IsAuthorised method name area rest q h =
      let (valid, k) = valid_domain-sent denied name _ q h in
      settings_route-IsAuthorised method name _ q
        (settings_entry-EntryFits method (join b'/' (area ∷ rest))) valid k
