-- ===== src/Nginx.antt =====
-- internal/gateway/nginx_commit.go: `commitNginxVhost` with `writeNginxFile`. The state is the vhost
-- of the domain, `/etc/nginx/nginx.conf`, the cache directory of PageSpeed and the pair of files
-- that Nginx has loaded. `global_config` is `pageSpeedGlobalConfig` of settings.go, two patterns of
-- the regexp package; `nginx -t` and `systemctl reload nginx` are faults.
pub mod Checks
pub mod Rollback
mod Tests
unfoldable use cloudpanel_gateway.Names.{validate_domain}
use cloudpanel_gateway.Base.{
  ℕ, String, Bool, true, not, ◌||◌, Option, none, some, [], ltb, ◌==◌, if◌then◌else◌, Bytes,
  bytes_eq, length, Result, refuse_if, ◌>>=◌, ◌>>◌, ok, err,
}

pub record NginxCommitRequest : Type 0 where
  pub version : ℕ
  pub domain : Bytes
  pub content : Bytes
  pub global_content : Bytes
  pub ensure_pagespeed_cache_path : Bool

pub record Nginx : Type 0 where
  pub vhost : Option Bytes
  pub global : Bytes
  pub cache_path : Bool
  pub running : Option Bytes × Bytes

-- A failed write of nginx.conf: the file was not opened, or it was cut off and a part written.
pub data GlobalFault : Type 0 where
  not_opened : String → GlobalFault
  cut_short : String → Bytes → GlobalFault

-- What fails: `back_` is a write of the rollback, whose error the program drops.
pub record NginxFaults : Type 0 where
  pub read_global : Option String
  pub cache : Option String
  pub write_global : Option GlobalFault
  pub write_vhost : Option String
  pub back_vhost : Option String
  pub back_global : Option GlobalFault
  pub test : Option String
  pub reload : Option String
  pub back_reload : Option String

abbrev pub max_content : ℕ
max_content = 921_600

-- `writeNginxFile("/etc/nginx/nginx.conf", content, 0644)`: written in place.
unfoldable pub write_global : Option GlobalFault → Bytes → Nginx → Result (Unit {0}) × Nginx
write_global none content s = (ok tt, record s { global = content })
write_global (some (not_opened e)) content s = (err e, s)
write_global (some (cut_short e left)) content s = (err e, record s { global = left })

-- `writeNginxFile(path, content, 0640)` of a vhost: a new file that takes the old one's name.
unfoldable pub write_vhost : Option String → Bytes → Nginx → Result (Unit {0}) × Nginx
write_vhost none content s = (ok tt, record s { vhost = some content })
write_vhost (some e) content s = (err e, s)

unfoldable pub reload_nginx : Option String → Nginx → Result (Unit {0}) × Nginx
reload_nginx none s = (ok tt, record s { running = (s.vhost, s.global) })
reload_nginx (some e) s = (err e, s)

-- `if globalPath != "" { writeNginxFile(globalPath, globalBefore) }`, the error dropped
unfoldable pub back_global : NginxFaults → NginxCommitRequest → Bytes → Nginx → Nginx
unfolding write_global
back_global f req before s =
    if bytes_eq req.global_content [] then s else (write_global f.back_global before s).1

-- `rollback()`
unfoldable pub rollback : NginxFaults → NginxCommitRequest → Bytes → Bytes → Nginx → Nginx
unfolding back_global write_vhost reload_nginx
rollback f req before global_before s =
    (reload_nginx f.back_reload
      (back_global f req global_before (write_vhost f.back_vhost before s).1)).1

unfoldable pub reload_or_back :
    NginxFaults
    → NginxCommitRequest
    → Bytes
    → Bytes
    → Result (Unit {0}) × Nginx
    → Result (Unit {0}) × Nginx
unfolding rollback
reload_or_back f req before global_before (ok _, s) = (ok tt, s)
reload_or_back f req before global_before (err e, s) =
    (err e, rollback f req before global_before s)

-- `nginx -t`, then the reload
unfoldable pub validate_and_reload :
    NginxFaults → NginxCommitRequest → Bytes → Bytes → Nginx → Result (Unit {0}) × Nginx
unfolding reload_or_back
validate_and_reload f req before global_before s = elim f.test [
  | some e ↦ (err e, rollback f req before global_before s)
  | none ↦ reload_or_back f req before global_before (reload_nginx f.reload s)
]

-- What follows the write of the vhost.
unfoldable pub after_vhost :
    NginxFaults
    → NginxCommitRequest
    → Bytes
    → Bytes
    → Result (Unit {0}) × Nginx
    → Result (Unit {0}) × Nginx
unfolding validate_and_reload
after_vhost f req before global_before (err e, s) = (err e, back_global f req global_before s)
after_vhost f req before global_before (ok _, s) = validate_and_reload f req before global_before s

-- What follows the write of nginx.conf: its error ends the request at once.
unfoldable pub after_global :
    NginxFaults
    → NginxCommitRequest
    → Bytes
    → Bytes
    → Result (Unit {0}) × Nginx
    → Result (Unit {0}) × Nginx
unfolding after_vhost
after_global f req before global_before (err e, s) = (err e, s)
after_global f req before global_before (ok _, s) =
    after_vhost f req before global_before (write_vhost f.write_vhost req.content s)

unfoldable pub write_files :
    NginxFaults → NginxCommitRequest → Bytes → Nginx → Result (Unit {0}) × Nginx
unfolding after_global
write_files f req before s = after_global f req before s.global (
    if bytes_eq req.global_content []
    then (ok tt, s)
    else write_global f.write_global req.global_content s)

-- `req.GlobalContent != expected`
unfoldable pub check_global :
    (Bytes → Option Bytes) → Option String → NginxCommitRequest → Bytes → Result (Unit {0})
check_global global_config fault req current =
    if bytes_eq req.global_content [] then ok tt else elim fault [
      | some e ↦ err e
      | none ↦ elim (global_config current) [
        | none ↦ err "invalid pagespeed global configuration request"
        | some expected ↦
            refuse_if (not (bytes_eq req.global_content expected))
              "invalid pagespeed global configuration request"
      ]
    ]

-- `os.ReadFile(path)`
unfoldable pub current_vhost : Option Bytes → Result Bytes
current_vhost none = err "CloudPanel vhost not found"
current_vhost (some before) = ok before

unfoldable pub check_request : NginxCommitRequest → Nginx → Result Bytes
unfolding current_vhost
check_request req s =
    refuse_if (not (req.version == 1)) "unsupported nginx commit protocol"
    >> (validate_domain req.domain
        >> (refuse_if
              (length req.content == 0
                || ltb max_content (length req.content)
                || ltb max_content (length req.global_content))
              "invalid generated vhost content"
            >> current_vhost s.vhost))

-- `ensurePageSpeedCachePath()`
unfoldable pub ensure_cache : Option String → Nginx → Result Nginx
ensure_cache none s = ok (record s { cache_path = true })
ensure_cache (some e) s = err e

unfoldable pub with_cache : NginxFaults → NginxCommitRequest → Nginx → Result Nginx
unfolding ensure_cache
with_cache f req s = if not req.ensure_pagespeed_cache_path then ok s else ensure_cache f.cache s

unfoldable pub commit_checked :
    NginxFaults → NginxCommitRequest → Nginx → Result (Bytes × Nginx) → Result (Unit {0}) × Nginx
unfolding write_files
commit_checked f req s (err e) = (err e, s)
commit_checked f req s (ok (before, t)) = write_files f req before t

unfoldable pub checked :
    (Bytes → Option Bytes) → NginxFaults → NginxCommitRequest → Nginx → Result (Bytes × Nginx)
unfolding check_request check_global with_cache
checked global_config f req s = check_request req s >>= λ before.
    check_global global_config f.read_global req s.global
    >> (with_cache f req s >>= λ t. ok (before, t))

-- `commitNginxVhost(ctx, req)`
unfoldable pub commit_nginx_vhost :
    (Bytes → Option Bytes) → NginxFaults → NginxCommitRequest → Nginx → Result (Unit {0}) × Nginx
unfolding checked commit_checked
commit_nginx_vhost global_config f req s = commit_checked f req s (checked global_config f req s)
