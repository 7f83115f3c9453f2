-- ===== src/Tests/Repeating.antt =====
-- Two passes of internal/controller/controller.go's loop over two tabs, one of which the first renames.
use herdr_tabline.Base.{
  ◌≡◌, refl, String, Bool, true, false, [], ◌∷◌, string_eq, nat_eq, ◌==◌, if◌then◌else◌,
}
use herdr_tabline.Base.Int.{int_eq}
use herdr_tabline.Base.Dict.{lookup, insert}
use herdr_tabline.Base.Result.{ok}
use herdr_tabline.Model.{LabelHistory, zero_history}
use herdr_tabline.Collector.Build.{build, index_snapshot, tab_context, build_tabs, prior_labels}
use herdr_tabline.Collector.Panes.{select_pane}
use herdr_tabline.Render.Width.{display_width, truncate}
use herdr_tabline.Render.Engine.{
  execute, finish, apply_max_width, sanitize_controls, strip_missing_values, is_control_only,
}
use herdr_tabline.Config.Resolve.{resolve}
use herdr_tabline.Controller.{
  auto, Passed, eligible, source_label_for, observe_source_label, observe, merge_and_purge,
  apply_label, render_and_rename, with_process, reconcile_tab, visit, visit_all,
}
use herdr_tabline.Controller.Visits.{snapshot_ids}
use herdr_tabline.Controller.Settling.Repeats.{Asks}
use herdr_tabline.Controller.Settling.Snapshots.{tabs_after}
use herdr_tabline.Controller.Settling.Notes.{Unique, Reconciles, visit_all-twice}
use herdr_tabline.Tests.Fixtures.{cells, constant_templates, plain_host, two_tabs}
use herdr_tabline.Tests.Reconciling.{services, numbered}

abbrev outcomes : String → Bool × LabelHistory
outcomes id =
    if id == "t1"
    then (true, record { source_label = "old"; rendered_label = "new" })
    else (false, zero_history)

abbrev nothing_yet : Passed
nothing_yet = record { updates = []; live = [] }

abbrev first_pass : Passed
first_pass = record {
  updates =
      ("t1", record { source_label = "old"; rendered_label = "new" })
      ∷ ("t2", record { source_label = "new"; rendered_label = "" })
      ∷ [];
  live = ("t1", true) ∷ ("t2", true) ∷ [];
}

distinct : Unique (snapshot_ids two_tabs.tabs)
unfolding string_eq
distinct = (refl, (refl, tt))

reconciles :
    Reconciles cells plain_host constant_templates services numbered [] outcomes
      (build two_tabs [] 0)
      ([], [])
unfolding visit observe observe_source_label source_label_for eligible resolve reconcile_tab
    with_process render_and_rename apply_label execute finish apply_max_width truncate display_width
    sanitize_controls strip_missing_values is_control_only insert lookup build index_snapshot
    build_tabs tab_context prior_labels select_pane string_eq nat_eq int_eq
reconciles = (refl, refl, (refl, refl, tt))

passes :
    (visit_all cells plain_host constant_templates services numbered auto "" []
      (build two_tabs [] 0)
      nothing_yet
      ([], [])).0
    ≡ ok first_pass
unfolding visit_all visit observe observe_source_label source_label_for eligible resolve
    reconcile_tab with_process render_and_rename apply_label execute finish apply_max_width truncate
    display_width sanitize_controls strip_missing_values is_control_only insert lookup build
    index_snapshot build_tabs tab_context prior_labels select_pane string_eq nat_eq int_eq
passes = refl

visit_all-twice_example :
    Asks cells plain_host constant_templates services
      (("t1", "new") ∷ [], [])
      (visit_all cells plain_host constant_templates services numbered auto ""
        (merge_and_purge first_pass.updates first_pass.live []).0
        (build
          (record two_tabs { tabs = tabs_after outcomes two_tabs.tabs })
          (merge_and_purge first_pass.updates first_pass.live []).0
          5)
        nothing_yet
        (("t1", "new") ∷ [], [])).1
visit_all-twice_example =
    visit_all-twice cells plain_host constant_templates services numbered [] outcomes "" two_tabs
      (merge_and_purge first_pass.updates first_pass.live []).0 0 5 ([], [])
      (("t1", "new") ∷ [], []) first_pass (λ seen sight ctx. refl) (λ pane v u. refl) distinct
      reconciles passes (λ id. refl)
