-- ===== src/Actions.antt =====
-- The privileged actions of internal/gateway/core.go: the table `Actions`, `optionalArguments` and
-- `ValidateAction` with `ValidatePort`, `ValidateURL` and `safeArtifactPath`. The arguments are the
-- rows of the map in the order in which the loop meets them. What the code asks of Go's library is
-- the record `Library`.
pub mod Accepted
pub mod Handler
mod Tests
unfoldable use cloudpanel_gateway.Names.{validate_domain}
use cloudpanel_gateway.Base.{
  Table, lookup, ℕ, String, Bool, true, false, not, ◌&&◌, ◌||◌, Option, none, some, List, [], ◌∷◌,
  ◌++◌, str_eq, ltb, leb, if◌then◌else◌, Bytes, codes, bytes_eq, has_prefix, contains_any, any,
  Result, is_ok, refuse_if, ◌>>◌, ok, err,
}

pub record ActionSpec : Type 0 where
  pub name : String
  pub command : String
  pub scope : String
  pub required : List String
  pub dangerous : Bool
  pub run_as_site_user : Bool

-- What `url.Parse` says of a URL.
pub record ProxyUrl : Type 0 where
  pub absolute : Bool
  pub scheme : Bytes
  pub host : Bytes
  pub has_user : Bool

-- `is_blank` is `strings.TrimSpace(v) == ""`, `scan_int` is `fmt.Sscan` into an `int`, where a
-- number below 1 is given as 0, `abs` is `filepath.Abs`.
pub record Library : Type 0 where
  pub is_blank : Bytes → Bool
  pub scan_int : Bytes → Option ℕ
  pub parse_url : Bytes → Option ProxyUrl
  pub abs : Bytes → Option Bytes

abbrev pub spec : String → String → String → List String → Bool → Bool → ActionSpec
spec name command scope required dangerous run_as_site_user = record {
  name = name;
  command = command;
  scope = scope;
  required = required;
  dangerous = dangerous;
  run_as_site_user = run_as_site_user;
}

-- `Actions`
unfoldable pub actions : Table ActionSpec
actions =
    (
      "cloudflare.update_ips",
      spec "cloudflare.update_ips" "cloudflare:update:ips" "cloudflare:write" ([]) false false,
    )
    ∷ (
      "cloudpanel.enable_basic_auth",
      spec "cloudpanel.enable_basic_auth" "cloudpanel:enable:basic-auth" "cloudpanel:admin"
          ("userName" ∷ "password" ∷ []) false false,
    )
    ∷ (
      "cloudpanel.disable_basic_auth",
      spec "cloudpanel.disable_basic_auth" "cloudpanel:disable:basic-auth" "cloudpanel:admin" ([])
          false false,
    )
    ∷ (
      "cloudpanel.set_release_channel",
      spec "cloudpanel.set_release_channel" "cloudpanel:set:release-channel" "cloudpanel:admin"
          ("channel" ∷ []) false false,
    )
    ∷ (
      "database.master_credentials",
      spec "database.master_credentials" "db:show:master-credentials" "db:credentials:read" ([])
          true false,
    )
    ∷ (
      "database.create",
      spec "database.create" "db:add" "databases:write"
          ("domainName" ∷ "databaseName" ∷ "databaseUserName" ∷ "databaseUserPassword" ∷ []) false
          false,
    )
    ∷ (
      "database.delete",
      spec "database.delete" "db:delete" "databases:write" ("databaseName" ∷ []) false false,
    )
    ∷ (
      "database.export",
      spec "database.export" "db:export" "db:transfer" ("databaseName" ∷ "file" ∷ []) true false,
    )
    ∷ (
      "database.import",
      spec "database.import" "db:import" "db:transfer" ("databaseName" ∷ "file" ∷ []) true false,
    )
    ∷ (
      "certificate.lets_encrypt",
      spec "certificate.lets_encrypt" "lets-encrypt:install:certificate" "certificates:write"
          ("domainName" ∷ []) false false,
    )
    ∷ (
      "site.create_static",
      spec "site.create_static" "site:add:static" "sites:write"
          ("domainName" ∷ "siteUser" ∷ "siteUserPassword" ∷ []) false false,
    )
    ∷ (
      "site.create_nodejs",
      spec "site.create_nodejs" "site:add:nodejs" "sites:write"
          ("domainName" ∷ "nodejsVersion" ∷ "appPort" ∷ "siteUser" ∷ "siteUserPassword" ∷ []) false
          false,
    )
    ∷ (
      "site.create_php",
      spec "site.create_php" "site:add:php" "sites:write"
          ("domainName" ∷ "phpVersion" ∷ "vhostTemplate" ∷ "siteUser" ∷ "siteUserPassword" ∷ [])
          false false,
    )
    ∷ (
      "site.create_python",
      spec "site.create_python" "site:add:python" "sites:write"
          ("domainName" ∷ "pythonVersion" ∷ "appPort" ∷ "siteUser" ∷ "siteUserPassword" ∷ []) false
          false,
    )
    ∷ (
      "site.create_reverse_proxy",
      spec "site.create_reverse_proxy" "site:add:reverse-proxy" "sites:write"
          ("domainName" ∷ "reverseProxyUrl" ∷ "siteUser" ∷ "siteUserPassword" ∷ []) false false,
    )
    ∷ (
      "site.delete",
      spec "site.delete" "site:delete" "sites:write" ("domainName" ∷ []) false false,
    )
    ∷ (
      "site.install_certificate",
      spec "site.install_certificate" "site:install:certificate" "certificates:write"
          ("domainName" ∷ "privateKey" ∷ "certificate" ∷ "certificateChain" ∷ []) true false,
    )
    ∷ (
      "system.reset_permissions",
      spec "system.reset_permissions" "system:permissions:reset" "system:permissions"
          ("directories" ∷ "files" ∷ "path" ∷ []) true false,
    )
    ∷ (
      "user.create",
      spec "user.create" "user:add" "users:write"
          ("userName" ∷ "email" ∷ "firstName" ∷ "lastName" ∷ "password" ∷ "role" ∷ "timezone"
            ∷ "status" ∷ [])
          false false,
    )
    ∷ ("user.delete", spec "user.delete" "user:delete" "users:write" ("userName" ∷ []) false false)
    ∷ ("user.list", spec "user.list" "user:list" "users:read" ([]) false false)
    ∷ (
      "user.reset_password",
      spec "user.reset_password" "user:reset:password" "users:write" ("userName" ∷ "password" ∷ [])
          false false,
    )
    ∷ (
      "user.disable_mfa",
      spec "user.disable_mfa" "user:disable:mfa" "users:write" ("userName" ∷ []) false false,
    )
    ∷ (
      "vhost_template.add",
      spec "vhost_template.add" "vhost-template:add" "vhosts:write" ("name" ∷ "file" ∷ []) true
          false,
    )
    ∷ (
      "vhost_template.delete",
      spec "vhost_template.delete" "vhost-template:delete" "vhosts:write" ("name" ∷ []) true false,
    )
    ∷ (
      "vhost_template.view",
      spec "vhost_template.view" "vhost-template:view" "vhosts:read" ("name" ∷ []) false false,
    )
    ∷ (
      "vhost_templates.import",
      spec "vhost_templates.import" "vhost-templates:import" "vhosts:write" ([]) true false,
    )
    ∷ (
      "vhost_templates.list",
      spec "vhost_templates.list" "vhost-templates:list" "vhosts:read" ([]) false false,
    )
    ∷ (
      "cache.varnish_purge",
      spec "cache.varnish_purge" "varnish-cache:purge" "cache:purge" ("purge" ∷ "siteUser" ∷ [])
          false true,
    )
    ∷ []

-- `optionalArguments[name]`
unfoldable pub optional_arguments : String → List String
optional_arguments name =
    if str_eq name "certificate.lets_encrypt"
    then "subjectAlternativeName" ∷ []
    else if str_eq name "user.create"
    then "sites" ∷ []
    else []

unfoldable pub port_number : Option ℕ → Bool
port_number none = false
port_number (some p) = ltb 0 p && leb p 65535

-- `ValidatePort(v) == nil`
unfoldable pub valid_port : Library → Bytes → Bool
unfolding port_number
valid_port lib v = port_number (lib.scan_int v)

unfoldable pub proxy_url : Option ProxyUrl → Bool
proxy_url none = false
proxy_url (some u) =
    u.absolute
    && (bytes_eq u.scheme (codes "http") || bytes_eq u.scheme (codes "https"))
    && not (bytes_eq u.host [])
    && not u.has_user

-- `ValidateURL(v) == nil`
unfoldable pub valid_url : Library → Bytes → Bool
unfolding proxy_url
valid_url lib v = proxy_url (lib.parse_url v)

unfoldable pub below : Option Bytes → Option Bytes → Bool
below (some p) (some b) = has_prefix p (b ++ b'/' ∷ [])
below _ _ = false

-- `safeArtifactPath(path, base)`
unfoldable pub safe_artifact_path : Library → Bytes → Bytes → Bool
unfolding below
safe_artifact_path lib path base = below (lib.abs path) (lib.abs base)

abbrev pub is_file_key : String → Bool
is_file_key k =
    str_eq k "file"
    || str_eq k "privateKey"
    || str_eq k "certificate"
    || str_eq k "certificateChain"

-- One turn of the loop over the arguments.
unfoldable pub check_argument : Library → List String → Bytes → String → Bytes → Result (Unit {0})
unfolding valid_port valid_url safe_artifact_path
check_argument lib known artifact_dir k v =
    refuse_if (not (any (str_eq k) known)) "unsupported argument"
    >> (refuse_if (contains_any v (0 ∷ 13 ∷ 10 ∷ [])) "invalid"
        >> (refuse_if (str_eq k "domainName" && not (is_ok (validate_domain v))) "invalid domain"
            >> (refuse_if (str_eq k "appPort" && not (valid_port lib v)) "invalid port"
                >> (refuse_if (str_eq k "reverseProxyUrl" && not (valid_url lib v))
                      "invalid reverse proxy URL"
                    >> refuse_if (is_file_key k && not (safe_artifact_path lib v artifact_dir))
                        "file must be a managed artifact"))))

unfoldable pub check_arguments : Library → List String → Bytes → Table Bytes → Result (Unit {0})
unfolding check_argument
check_arguments lib known artifact_dir [] = ok tt
check_arguments lib known artifact_dir ((k, v) ∷ args) =
    check_argument lib known artifact_dir k v >> check_arguments lib known artifact_dir args

-- `args[k]`: a missing key reads as the empty text.
unfoldable pub argument : String → Table Bytes → Bytes
argument k args = elim (lookup k args) [ none ↦ [] | some v ↦ v ]

unfoldable pub check_required : Library → List String → Table Bytes → Result (Unit {0})
unfolding argument
check_required lib [] args = ok tt
check_required lib (k ∷ required) args =
    refuse_if (lib.is_blank (argument k args)) "missing required field"
    >> check_required lib required args

unfoldable pub validate_spec :
    Library → Option ActionSpec → String → Table Bytes → Bytes → Result ActionSpec
unfolding check_required check_arguments optional_arguments
validate_spec lib none name args artifact_dir = err "unsupported action"
validate_spec lib (some a) name args artifact_dir =
    check_required lib a.required args
    >> (check_arguments lib (a.required ++ optional_arguments name) artifact_dir args >> ok a)

-- `ValidateAction(name, args, artifactDir)`
unfoldable pub validate_action : Library → String → Table Bytes → Bytes → Result ActionSpec
unfolding actions validate_spec
validate_action lib name args artifact_dir =
    validate_spec lib (lookup name actions) name args artifact_dir
