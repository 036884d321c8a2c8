-- ===== src/Cron/Render.antt =====
-- `renderCronCommand` and `renderCronFile` of cron.go.
use cloudpanel_gateway.Cron.Schedule.{Schedule}
use cloudpanel_gateway.Cron.Runner.{
  Runner, CronRequest, CronSite, Host, php_script, site_executable, node_script, http_request,
  raw_command, other_runner,
}
use cloudpanel_gateway.Cron.Schedule.{Schedule}
use cloudpanel_gateway.Cron.Quoting.{shell_quote}
unfoldable use cloudpanel_gateway.Cron.Runner.{node_path, site_root_file}
use cloudpanel_gateway.Base.{
  Option, none, some, List, [], ◌∷◌, ◌++◌, map, ltb, if◌then◌else◌, Bytes, codes, bytes_eq, join,
  length, Result, refuse_if, ◌>>=◌, ◌>>◌, ok, err,
}

unfoldable pub php_binary : Option Bytes → Result Bytes
php_binary none = err "CloudPanel PHP runtime is unavailable"
php_binary (some version) =
    if bytes_eq version []
    then err "CloudPanel PHP runtime is unavailable"
    else ok (codes "/usr/bin/php" ++ version)

-- The `switch r.Runner` of `renderCronCommand`.
unfoldable pub runner_command : Runner → Host → CronSite → CronRequest → Result Bytes
unfolding php_binary
runner_command php_script host site r = php_binary host.php_version >>= λ bin.
    site_root_file host site r.target >>= λ p. ok (shell_quote bin ++ b' ' ∷ shell_quote p)
runner_command site_executable host site r =
    site_root_file host site r.target >>= λ p. ok (shell_quote p)
runner_command node_script host site r =
    host.node_binary >>= λ bin. ok (shell_quote bin ++ b' ' ∷ shell_quote (node_path site r.target))
runner_command http_request host site r = ok (
    codes "/usr/bin/curl --fail --silent --show-error --max-time 60 -X "
    ++ r.method
    ++ b' ' ∷ shell_quote r.url)
runner_command raw_command host site r = ok r.command
runner_command other_runner host site r = ok []

unfoldable pub with_arguments : Bytes → List Bytes → Bytes
with_arguments command [] = command
with_arguments command (a ∷ args) = command ++ b' ' ∷ join b' ' (map shell_quote (a ∷ args))

-- `renderCronCommand(ctx, c, db, site, r)`
unfoldable pub render_cron_command : Host → CronSite → CronRequest → Result Bytes
unfolding runner_command with_arguments
render_cron_command host site r = runner_command r.runner host site r >>= λ command.
    refuse_if (ltb 255 (length (with_arguments command r.args)))
      "cron command exceeds CloudPanel 255-character limit"
    >> ok (with_arguments command r.args)

pub record CronLine : Type 0 where
  pub schedule : Schedule
  pub user : Bytes
  pub command : Bytes

abbrev pub line_fields : CronLine → List Bytes
line_fields l =
    l.schedule.minute ∷ l.schedule.hour ∷ l.schedule.day ∷ l.schedule.month ∷ l.schedule.weekday
    ∷ l.user ∷ l.command ∷ []

-- `%s %s %s %s %s %s %s`
unfoldable pub line_text : CronLine → Bytes
line_text l = join b' ' (line_fields l)

unfoldable pub line_texts : List CronLine → Bytes
unfolding line_text
line_texts [] = []
line_texts (l ∷ lines) = line_text l ++ 10 ∷ line_texts lines

-- `renderCronFile(lines)`
unfoldable pub render_cron_file : List CronLine → Bytes
unfolding line_texts
render_cron_file lines = codes "MAILTO=" ++ b'"' ∷ b'"' ∷ 10 ∷ line_texts lines
