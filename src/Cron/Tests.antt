-- ===== src/Cron/Tests.antt =====
-- Runs of the cron operations.
use mathlib.Core.Path.{subst}
use cloudpanel_gateway.Cron.Schedule.{Schedule}
use cloudpanel_gateway.Cron.Quoting.{shell_quote, read_word, start, read_word-shell_quote}
use cloudpanel_gateway.Cron.Runner.{Url, Host, CronSite, CronRequest, http_request, cron_create}
use cloudpanel_gateway.Cron.Render.{CronLine}
unfoldable use cloudpanel_gateway.Cron.Render.{render_cron_file}
use cloudpanel_gateway.Cron.Transaction.{CronState, Faults}
unfoldable use cloudpanel_gateway.Cron.Transaction.{
  cron_site_for, site_of, user_of, cron_jobs_for_user,
}
use cloudpanel_gateway.Cron.Transaction.Sync.{IsSynced}
use cloudpanel_gateway.Cron.Execute.{CronJob}
unfoldable use cloudpanel_gateway.Cron.Execute.{execute_cron}
use cloudpanel_gateway.Cron.Execute.Synced.{execute_cron-IsSynced}
unfoldable use cloudpanel_gateway.Names.{site_user_re}
use cloudpanel_gateway.Base.{
  ◌≡◌, refl, false, Option, none, some, List, [], ◌∷◌, ◌++◌, if◌then◌else◌, Bytes, codes, bytes_eq,
  ok-injective, err,
}

abbrev each_hour : Schedule
each_hour = record {
  minute = codes "0";
  hour = codes "*";
  day = codes "*";
  month = codes "*";
  weekday = codes "*";
}

abbrev shop : CronSite
shop = record { id = 3; domain = codes "shop.test"; user = codes "shop"; root = codes "shop.test" }

abbrev page_url : Bytes
page_url = codes "https://shop.test/cron"

abbrev parse : Bytes → Option Url
parse u =
    if bytes_eq u page_url
    then some (record { scheme = codes "https"; has_user = false; hostname = codes "shop.test" })
    else none

abbrev host : Host
host = record {
  eval_symlinks = λ p. none;
  stat = λ p. none;
  parse_url = parse;
  node_binary = err "managed Node.js release not found";
  php_version = none;
  raw_allowed = false;
}

abbrev fetch : CronRequest
fetch = record {
  operation = cron_create;
  domain = codes "shop.test";
  job_id = 0;
  schedule = each_hour;
  runner = http_request;
  target = [];
  args = [];
  method = codes "GET";
  url = page_url;
  command = [];
  if_match_revision = codes "rev_1";
  confirm = false;
}

abbrev fetch_command : Bytes
fetch_command =
    codes "/usr/bin/curl --fail --silent --show-error --max-time 60 -X "
    ++ codes "GET"
    ++ b' ' ∷ shell_quote page_url

abbrev fetch_line : CronLine
fetch_line = record { schedule = each_hour; user = codes "shop"; command = fetch_command }

read_word-shell_quote_example :
    read_word start (shell_quote (codes "it's $(HOME); x") ++ b' ' ∷ codes "next")
    ≡ some (codes "it's $(HOME); x", b' ' ∷ codes "next")
read_word-shell_quote_example = read_word-shell_quote (codes "it's $(HOME); x") (codes "next")

abbrev revision : Bytes → List CronJob → Bytes
revision domain jobs = codes "rev_1"

abbrev commit_fails : Faults
commit_fails = record {
  connect = none;
  before = none;
  begin = none;
  statement = none;
  query_jobs = none;
  read_file = none;
  write_file = none;
  commit = some "database is locked";
  restore = none;
  metadata = none;
  after = none;
}

abbrev panel : CronState
panel = record {
  sites = shop ∷ [];
  jobs = [];
  next_id = 1;
  metadata = λ k. none;
  cron_file = λ u. some (render_cron_file []);
}

execute_cron-IsSynced_example :
    IsSynced (execute_cron host revision commit_fails 5 fetch panel).1 (codes "shop")
unfolding cron_jobs_for_user cron_site_for site_of user_of site_user_re
execute_cron-IsSynced_example =
    execute_cron-IsSynced host revision commit_fails 5 fetch panel (codes "shop") refl
      (λ site e.
        subst (λ x. user_of (CronSite.id x) (shop ∷ []) ≡ some (CronSite.user x)) (ok-injective e)
          refl)
      refl
