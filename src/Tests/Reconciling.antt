-- ===== src/Tests/Reconciling.antt =====
-- internal/controller against a server whose tabs have labels, with a store in memory.
use herdr_tabline.Base.{
  ◌≡◌, ◌≢◌, refl, String, true, false, none, some, List, [], ◌∷◌, Some, string_eq, nat_eq,
}
use herdr_tabline.Base.Int.{pos, int_eq}
use herdr_tabline.Base.Dict.{NodupKeys, lookup, insert, merge, retain}
use herdr_tabline.Base.Result.{ok, err}
use herdr_tabline.Api.{Snapshot}
use herdr_tabline.Model.{Context, LabelHistory, History}
use herdr_tabline.Collector.Build.{build, index_snapshot, tab_context, build_tabs, prior_labels}
use herdr_tabline.Collector.Panes.{select_pane}
use herdr_tabline.Render.Width.{display_width, truncate}
use herdr_tabline.Render.Engine.{
  execute, finish, apply_max_width, sanitize_controls, strip_missing_values, is_control_only,
}
use herdr_tabline.Config.Types.{Compiled}
use herdr_tabline.Config.Resolve.{resolve}
use herdr_tabline.Controller.{
  auto, action, Services, Passed, eligible, source_label_for, observe_source_label, observe,
  merge_and_purge, apply_label, render_and_rename, with_process, reconcile_tab, visit, visit_all,
  commit, conclude, reconcile_snapshot, reconcile_history, current_config, reconcile,
}
use herdr_tabline.Controller.Sources.{reconcile_tab-source_label_for}
use herdr_tabline.Controller.Calls.{Calls, IsDue, visit_all-Calls}
use herdr_tabline.Controller.Passes.{Committed, before_snapshot, reconcile-Committed}
use herdr_tabline.Tests.Fixtures.{
  cells, cells-IsLawful, constant_templates, plain_host, two_tabs, sample_context,
}

abbrev pub numbered : Compiled plain_host constant_templates
numbered = record {
  mode = "auto";
  template = record { source = "new"; parsed = "new" };
  max_width = pos 20;
  poll_interval = pos 1_000_000_000;
  refresh_debounce = pos 0;
  aliases = [];
  icons = [];
  status = record { source = "status"; parsed = "status" };
  profiles = [];
}

-- The renames made, the last one first, and the stored history.
abbrev pub Sight : Type 0
Sight = List (String × String) × History

abbrev pub services : Services plain_host constant_templates
services = record {
  World = Sight;
  snapshot = λ w. (ok two_tabs, w);
  process_info = λ pane w. (err "no process", w);
  rename_tab = λ tab label w. (ok tt, ((tab, label) ∷ w.0, w.1));
  ctx_err = λ w. none;
  reload_if_changed = λ w. (ok false, w);
  current = λ w. some numbered;
  load = λ w. (ok w.1, w);
  update = λ f w. (ok true, (w.0, (f w.1).0));
  now = λ w. (0, w);
}

abbrev pub stale : History
stale = ("gone", record { source_label = "x"; rendered_label = "y" }) ∷ []

-- `t1` is renamed, `t2` shows the label already, and the entry of the tab that is gone is purged.
after_pass : reconcile cells plain_host constant_templates services auto "" ([], stale) ≡ (
  ok tt,
  (
    ("t1", "new") ∷ [],
    ("t1", record { source_label = "old"; rendered_label = "new" })
        ∷ ("t2", record { source_label = "new"; rendered_label = "" })
        ∷ [],
  ),
)
unfolding reconcile current_config reconcile_history reconcile_snapshot conclude commit visit_all
    visit observe observe_source_label source_label_for eligible resolve reconcile_tab with_process
    render_and_rename apply_label execute finish apply_max_width truncate display_width
    sanitize_controls strip_missing_values is_control_only merge_and_purge merge retain insert
    lookup build index_snapshot build_tabs tab_context prior_labels select_pane string_eq nat_eq
    int_eq
after_pass = refl

abbrev seen_contexts : List Context
seen_contexts = sample_context ∷ []

abbrev nothing_passed : Passed
nothing_passed = record { updates = []; live = [] }

visit_all-Calls_example :
    Calls cells plain_host constant_templates services
      (λ tab text.
        Some
          (λ ctx.
            IsDue cells plain_host constant_templates services numbered action "t1" ctx tab text)
          seen_contexts)
      ([], [])
      (visit_all cells plain_host constant_templates services numbered action "t1" [] seen_contexts
        nothing_passed
        ([], [])).1
visit_all-Calls_example =
    visit_all-Calls cells plain_host constant_templates services cells-IsLawful action "t1" numbered
      [] seen_contexts nothing_passed ([], [])

abbrev pub after : Sight
after = (
  ("t1", "new") ∷ [],
  ("t1", record { source_label = "old"; rendered_label = "new" })
      ∷ ("t2", record { source_label = "new"; rendered_label = "" })
      ∷ [],
)

reconcile-Committed_example :
    (compiled : Compiled plain_host constant_templates) × (history : History)
    × (snapshot : Snapshot) × ((current_config cells plain_host constant_templates services
          ([], stale)).0
        ≡ ok compiled)
    × ((services.load (current_config cells plain_host constant_templates services ([], stale)).1).0
        ≡ ok history)
    × ((services.snapshot
          (before_snapshot cells plain_host constant_templates services ([], stale))).0
        ≡ ok snapshot)
    × Committed cells plain_host constant_templates services compiled auto "" history snapshot
        (services.snapshot
          (before_snapshot cells plain_host constant_templates services ([], stale))).1
        after
reconcile-Committed_example =
    reconcile-Committed cells plain_host constant_templates services auto "" ([], stale) after
      after_pass

abbrev renamed_entry : LabelHistory
renamed_entry = record { source_label = "old"; rendered_label = "new" }

abbrev renamed_context : Context
renamed_context = record sample_context {
  tab = record (sample_context.tab) { current_label = "new"; rendered_label = "new" };
}

sample_renamed :
    (reconcile_tab cells plain_host constant_templates services numbered auto sample_context []
      ([], [])).0
    ≡ ok (true, renamed_entry)
unfolding eligible resolve reconcile_tab with_process render_and_rename apply_label source_label_for
    execute finish apply_max_width truncate display_width sanitize_controls strip_missing_values
    is_control_only lookup string_eq nat_eq int_eq
sample_renamed = refl

renamed_known : lookup "t1" (("t1", renamed_entry) ∷ []) ≡ some renamed_entry
unfolding lookup string_eq
renamed_known = refl

reconcile_tab-source_label_for_example :
    ("old" ≡ source_label_for [] sample_context)
    × (renamed_entry.rendered_label ≢ sample_context.tab.current_label)
    × (source_label_for (("t1", renamed_entry) ∷ []) renamed_context
        ≡ source_label_for [] sample_context)
    × ((observe_source_label (("t1", renamed_entry) ∷ []) renamed_context).0 ≡ false)
reconcile_tab-source_label_for_example =
    reconcile_tab-source_label_for cells plain_host constant_templates services numbered auto
      sample_context [] ([], []) renamed_entry (("t1", renamed_entry) ∷ []) renamed_context
      sample_renamed renamed_known refl

abbrev observed : LabelHistory
observed = record { source_label = "old"; rendered_label = "" }

sample_changed : (observe_source_label [] sample_context).0 ≡ true
unfolding observe_source_label source_label_for lookup string_eq
sample_changed = refl

sample_kept : lookup "t1" (("t1", observed) ∷ []) ≡ some (observe_source_label [] sample_context).1
unfolding observe_source_label source_label_for lookup string_eq
sample_kept = refl

stale_alone : NodupKeys stale
unfolding lookup
stale_alone = (refl, tt)
