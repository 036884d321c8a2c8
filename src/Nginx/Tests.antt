-- ===== src/Nginx/Tests.antt =====
-- Runs of the commit of a vhost.
use cloudpanel_gateway.Nginx.{NginxCommitRequest, Nginx, NginxFaults, cut_short}
unfoldable use cloudpanel_gateway.Nginx.{
  checked, check_request, check_global, with_cache, ensure_cache, current_vhost, commit_nginx_vhost,
  commit_checked, write_files, after_global, after_vhost, write_global, write_vhost,
  validate_and_reload,
}
unfoldable use cloudpanel_gateway.Names.{validate_domain, fold_case}
use cloudpanel_gateway.Nginx.Checks.{IsKept}
use cloudpanel_gateway.Nginx.Rollback.{commit_nginx_vhost-IsKept}
use cloudpanel_gateway.Base.{◌≡◌, refl, true, false, Option, none, some, [], Bytes, codes, err}

abbrev request : NginxCommitRequest
request = record {
  version = 1;
  domain = codes "shop.test";
  content = codes "server {";
  global_content = codes "new";
  ensure_pagespeed_cache_path = true;
}

abbrev machine : Nginx
machine = record {
  vhost = some (codes "server { }");
  global = codes "old";
  cache_path = false;
  running = (some (codes "server { }"), codes "old");
}

abbrev test_fails : NginxFaults
test_fails = record {
  read_global = none;
  cache = none;
  write_global = none;
  write_vhost = none;
  back_vhost = none;
  back_global = none;
  test = some "nginx: unexpected end of file";
  reload = none;
  back_reload = none;
}

abbrev disk_full : NginxFaults
disk_full = record test_fails { write_global = some (cut_short "no space left on device" []) }

abbrev patched : Bytes → Option Bytes
patched current = some (codes "new")

commit_nginx_vhost-IsKept_example :
    IsKept machine (commit_nginx_vhost patched test_fails request machine).1
unfolding commit_nginx_vhost commit_checked checked check_request check_global with_cache
    ensure_cache current_vhost write_files after_global after_vhost write_global write_vhost
    validate_and_reload validate_domain fold_case
commit_nginx_vhost-IsKept_example =
    commit_nginx_vhost-IsKept patched test_fails request machine refl refl tt refl

-- A write of nginx.conf that fails half-way ends the commit without a rollback, and the part that was
-- written stays.
half_written :
    ((commit_nginx_vhost patched disk_full request machine).0 ≡ err "no space left on device")
    × ((commit_nginx_vhost patched disk_full request machine).1.global ≡ [])
unfolding commit_nginx_vhost commit_checked checked check_request check_global with_cache
    ensure_cache current_vhost write_files after_global write_global validate_domain fold_case
half_written = (refl, refl)
