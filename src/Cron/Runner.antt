-- ===== src/Cron/Runner.antt =====
-- `cronTarget`, `siteRootFile` and `validateCronRunner` of cron.go. What the program asks of the host
-- (the file system, the URL parser, the databases behind the PHP and the Node.js version) is the
-- record `Host`.
use cloudpanel_gateway.Cron.Schedule.{Schedule}
use cloudpanel_gateway.Paths.{is_abs, clean, join_paths}
use cloudpanel_gateway.Base.{
  ℕ, String, Bool, true, not, ◌&&◌, ◌||◌, Option, none, some, List, [], ◌∷◌, ◌++◌, ltb, ◌==◌,
  if◌then◌else◌, Bytes, codes, bytes_eq, has_prefix, contains_any, contains, length, any, Result,
  refuse_if, ◌>>=◌, ◌>>◌, ok, err,
}

pub data Operation : Type 0 where
  cron_list cron_create cron_update cron_delete other_operation : Operation

pub data Runner : Type 0 where
  php_script site_executable node_script http_request raw_command other_runner : Runner

-- `job_id` is 0 for every number below 1, which the program treats alike.
pub record CronRequest : Type 0 where
  pub operation : Operation
  pub domain : Bytes
  pub job_id : ℕ
  pub schedule : Schedule
  pub runner : Runner
  pub target : Bytes
  pub args : List Bytes
  pub method : Bytes
  pub url : Bytes
  pub command : Bytes
  pub if_match_revision : Bytes
  pub confirm : Bool

pub record CronSite : Type 0 where
  pub id : ℕ
  pub domain : Bytes
  pub user : Bytes
  pub root : Bytes

-- What `url.Parse` says of a URL.
pub record Url : Type 0 where
  pub scheme : Bytes
  pub has_user : Bool
  pub hostname : Bytes

pub record FileInfo : Type 0 where
  pub regular : Bool
  pub executable : Bool

-- `eval_symlinks` is `filepath.EvalSymlinks`, `stat` is `os.Stat`, `none` an error; `node_binary` is
-- what `cloudPanelNodeSettings` and `nodeBinaryForUser` answer, `php_version` the row of the join
-- with `php_settings`, `raw_allowed` is `s.Allowed("cron.raw_command")`.
pub record Host : Type 0 where
  pub eval_symlinks : Bytes → Option Bytes
  pub stat : Bytes → Option FileInfo
  pub parse_url : Bytes → Option Url
  pub node_binary : Result Bytes
  pub php_version : Option Bytes
  pub raw_allowed : Bool

-- `cronTarget(r)`
unfoldable pub cron_target : CronRequest → Bytes
cron_target r = elim (CronRequest.runner r) [
  | http_request ↦ r.url
  | raw_command ↦ []
  | _ ↦ r.target
]

unfoldable pub within : Bytes → Option Bytes → Result Bytes
within base none = err "cron target escapes site document root"
within base (some real) =
    if has_prefix real (base ++ b'/' ∷ [])
    then ok real
    else err "cron target escapes site document root"

-- `siteRootFile(site, target)`
unfoldable pub site_root_file : Host → CronSite → Bytes → Result Bytes
unfolding within
site_root_file host site target =
    let base = join_paths (codes "/home" ∷ site.user ∷ codes "htdocs" ∷ site.root ∷ []) in
    if bytes_eq target [] || is_abs target || contains target (codes "..")
    then err "invalid site-root-relative cron target"
    else within base (host.eval_symlinks (join_paths (base ∷ clean target ∷ [])))

unfoldable pub node_path : CronSite → Bytes → Bytes
node_path site target =
    join_paths
      (codes "/home" ∷ site.user ∷ codes "apps" ∷ site.domain ∷ codes "current" ∷ clean target ∷ [])

-- `len(a) == 0 || len(a) > 128 || strings.ContainsAny(a, "\x00\r\n")`
abbrev pub bad_argument : Bytes → Bool
bad_argument a = bytes_eq a [] || ltb 128 (length a) || contains_any a (0 ∷ 13 ∷ 10 ∷ [])

unfoldable pub regular_file : Option FileInfo → String → Result FileInfo
regular_file none e = err e
regular_file (some info) e = if not info.regular then err e else ok info

site_file : Host → CronSite → Bytes → Result FileInfo
unfolding site_root_file regular_file
site_file host site target = site_root_file host site target >>= λ p.
    regular_file (host.stat p) "cron target is not a regular file"

unfoldable pub bad_url : Option Url → CronSite → Bool
bad_url none site = true
bad_url (some u) site =
    not (bytes_eq u.scheme (codes "https")) || u.has_user || not (bytes_eq u.hostname site.domain)

-- The `switch r.Runner` of `validateCronRunner`.
unfoldable pub check_runner : Runner → Host → CronSite → CronRequest → Result (Unit {0})
unfolding site_file node_path regular_file bad_url
check_runner php_script host site r = site_file host site r.target >>= λ info. ok tt
check_runner site_executable host site r = site_file host site r.target >>= λ info.
    refuse_if (not (FileInfo.executable info)) "site executable target is not executable"
check_runner node_script host site r =
    refuse_if (bytes_eq r.target [] || is_abs r.target || contains r.target (codes ".."))
      "invalid Node.js cron target"
    >> (regular_file (host.stat (node_path site r.target))
          "managed Node.js release target not found"
        >>= λ info. host.node_binary >>= λ bin. ok tt)
check_runner http_request host site r =
    refuse_if (not (length r.args == 0)) "HTTP cron runner does not accept arguments"
    >> (refuse_if (not (bytes_eq r.method (codes "GET")) && not (bytes_eq r.method (codes "POST")))
          "HTTP cron runner supports GET or POST only"
        >> refuse_if
            (bytes_eq r.url [] || ltb 180 (length r.url) || bad_url (host.parse_url r.url) site)
            "HTTP cron URL must be HTTPS on the site domain")
check_runner raw_command host site r =
    refuse_if (not host.raw_allowed) "operation disabled by server policy"
    >> (refuse_if (not r.confirm) "raw cron command requires confirm=true"
        >> refuse_if
            (length r.command == 0
              || ltb 255 (length r.command)
              || contains_any r.command (0 ∷ 13 ∷ 10 ∷ b'%' ∷ []))
            "invalid raw cron command")
check_runner other_runner host site r = err "unsupported cron runner"

-- `validateCronRunner(ctx, c, s, db, site, &r)`
unfoldable pub validate_cron_runner : Host → CronSite → CronRequest → Result (Unit {0})
unfolding check_runner
validate_cron_runner host site r =
    refuse_if (ltb 16 (length r.args)) "too many cron arguments"
    >> (refuse_if (any bad_argument r.args) "invalid cron argument"
        >> check_runner r.runner host site r)
