-- ===== src/Tests/Commanding.antt =====
-- `rename-current`, of internal/cli/app.go, on the server of the reconciliation tests.
use herdr_tabline.Base.{◌≡◌, refl, String, Option, [], string_eq, nat_eq}
use herdr_tabline.Base.Int.{int_eq}
use herdr_tabline.Base.Dict.{lookup, insert, merge, retain}
use herdr_tabline.Base.Result.{Result, ok, err}
use herdr_tabline.Collector.Build.{build, index_snapshot, tab_context, build_tabs, prior_labels}
use herdr_tabline.Collector.Panes.{select_pane}
use herdr_tabline.Render.Width.{display_width, truncate}
use herdr_tabline.Render.Engine.{
  execute, finish, apply_max_width, sanitize_controls, strip_missing_values, is_control_only,
}
use herdr_tabline.Config.Resolve.{resolve}
use herdr_tabline.Controller.{
  eligible, source_label_for, observe_source_label, observe, merge_and_purge, apply_label,
  render_and_rename, with_process, reconcile_tab, visit, visit_all, commit, conclude,
  reconcile_snapshot, reconcile_history, current_config, reconcile,
}
use herdr_tabline.Cli.{Env, require, tab_id_from_context_json, resolve_tab_id, rename_current}
use herdr_tabline.Cli.Targets.{Renamed, rename_current-Committed}
use herdr_tabline.Tests.Fixtures.{cells, constant_templates, plain_host}
use herdr_tabline.Tests.Reconciling.{services, after, stale}

abbrev pub no_context : String → Result String (Option String)
no_context raw = err "syntax error"

abbrev pub full_env : Env
full_env = record {
  socket_path = "/run/herdr.sock";
  plugin_config_dir = "/c";
  plugin_state_dir = "/s";
  tab_id = "";
  context_json = "{";
  executable = "/bin/herdr-tabline";
}

abbrev first_tab : String
first_tab = "t1"

focused_resolved :
    (resolve_tab_id no_context cells plain_host constant_templates services full_env ([], stale)).0
    ≡ ok "t1"
unfolding resolve_tab_id tab_id_from_context_json string_eq
focused_resolved = refl

focused_renamed :
    rename_current no_context cells plain_host constant_templates services full_env ([], stale)
    ≡ (ok tt, after)
unfolding reconcile current_config reconcile_history reconcile_snapshot conclude commit visit_all
    visit observe observe_source_label source_label_for eligible resolve reconcile_tab with_process
    render_and_rename apply_label execute finish apply_max_width truncate display_width
    sanitize_controls strip_missing_values is_control_only merge_and_purge merge retain insert
    lookup build index_snapshot build_tabs tab_context prior_labels select_pane string_eq nat_eq
    int_eq rename_current require resolve_tab_id tab_id_from_context_json
focused_renamed = refl

rename_current-Committed_example :
    Renamed no_context cells plain_host constant_templates services full_env ([], stale) after
rename_current-Committed_example =
    rename_current-Committed no_context cells plain_host constant_templates services full_env
      ([], stale) after focused_renamed
