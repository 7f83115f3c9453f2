-- ===== src/Tests/Sessions.antt =====
-- One pass over a server with a tab, with the manager and the store behind it.
use herdr_tabline.Base.{
  ◌≡◌, refl, String, true, none, some, List, [], ◌∷◌, contains, string_eq, nat_eq, if◌then◌else◌,
}
use herdr_tabline.Base.Int.{int_eq}
use herdr_tabline.Base.Dict.{lookup, insert, erase, merge, retain}
use herdr_tabline.Base.Result.{ok, err}
use herdr_tabline.Api.{Snapshot}
use herdr_tabline.Model.{History}
use herdr_tabline.Collector.Build.{build, index_snapshot, tab_context, build_tabs, prior_labels}
use herdr_tabline.Collector.Panes.{select_pane}
use herdr_tabline.Render.Width.{display_width, truncate}
use herdr_tabline.Render.Engine.{
  execute, finish, apply_max_width, sanitize_controls, strip_missing_values, is_control_only,
}
use herdr_tabline.Config.Types.{Compiled}
use herdr_tabline.Config.Compile.{ConfigError}
use herdr_tabline.Config.Manager.{
  no_signature, signature_eq, file_signature, install, reload_if_changed,
}
use herdr_tabline.Config.Resolve.{resolve}
use herdr_tabline.Controller.{
  auto, Services, eligible, source_label_for, observe_source_label, observe, merge_and_purge,
  apply_label, render_and_rename, with_process, reconcile_tab, visit, visit_all, commit, conclude,
  reconcile_snapshot, reconcile_history, current_config, reconcile,
}
use herdr_tabline.Controller.Purge.{either_entry}
use herdr_tabline.Controller.Visits.{snapshot_ids}
use herdr_tabline.Controller.Passes.{Committed, before_snapshot}
use herdr_tabline.State.Store.{StoreError, read, decode, encode, load, update, write_atomically}
use herdr_tabline.Session.{Server, World, session}
use herdr_tabline.Session.Persistence.{reconcile-load}
use herdr_tabline.Tests.Fixtures.{
  cells, cells-IsLawful, constant_templates, plain_host, two_tabs, raw_tab,
}
use herdr_tabline.Tests.Reconciling.{numbered}
use herdr_tabline.Tests.Configuring.{disk}
use herdr_tabline.Tests.Storing.{
  paths, no_faults, two_files, two_files-IsLawful, empty_files, temporary_apart,
}

-- The renames made, the last one first.
abbrev one_tab : Server
one_tab = record {
  World = List (String × String);
  snapshot = λ w. (ok (record two_tabs { tabs = raw_tab "t1" "w1" "old" ∷ [] }), w);
  process_info = λ pane w. (err "no process", w);
  rename_tab = λ tab label w. (ok tt, (tab, label) ∷ w);
  ctx_err = λ w. none;
  now = λ w. (0, w);
}

abbrev config_text : ConfigError → String
config_text e = "invalid configuration"

abbrev store_text : StoreError → String
store_text e = "state"

abbrev labelled : Compiled plain_host constant_templates
labelled = record numbered { template = record { source = "1: old"; parsed = "1: old" } }

abbrev Sight : Type 0
Sight = World one_tab disk two_files paths plain_host constant_templates

abbrev before : Sight
before = record {
  server = [];
  config = 0;
  manager = record { path = "/c"; seen = true; signature = no_signature; current = some labelled };
  files = empty_files;
  load_faults = no_faults;
  update_faults = no_faults;
}

abbrev after : Sight
after = record before {
  server = ("t1", "1: old") ∷ [];
  files = ("/s/labels-k.json", "{t1}\n") ∷ [];
}

pass_done :
    reconcile cells plain_host constant_templates
      (session one_tab disk two_files paths plain_host constant_templates config_text store_text)
      auto
      ""
      before
    ≡ (ok tt, after)
unfolding reconcile current_config reconcile_history reconcile_snapshot conclude commit visit_all
    visit observe observe_source_label source_label_for eligible resolve reconcile_tab with_process
    render_and_rename apply_label execute finish apply_max_width truncate display_width
    sanitize_controls strip_missing_values is_control_only merge_and_purge merge retain insert
    lookup build index_snapshot build_tabs tab_context prior_labels select_pane string_eq nat_eq
    int_eq reload_if_changed file_signature install signature_eq load update read decode encode
    write_atomically erase
pass_done = refl

abbrev calls : Services plain_host constant_templates
calls = session one_tab disk two_files paths plain_host constant_templates config_text store_text

reconcile-load_example :
    (compiled : Compiled plain_host constant_templates) × (history : History)
    × (snapshot : Snapshot) × (load two_files paths no_faults empty_files ≡ ok history)
    × ((one_tab.snapshot []).0 ≡ ok snapshot)
    × (committed : Committed cells plain_host constant_templates calls compiled auto "" history
        snapshot
        (calls.snapshot (before_snapshot cells plain_host constant_templates calls before)).1
        after)
    × (again : History) × (load two_files paths no_faults after.files ≡ ok again)
    × ((id : String)
        → lookup id again ≡ (
            if contains (snapshot_ids snapshot.tabs) id
            then either_entry (lookup id committed.updates) (lookup id history)
            else none))
reconcile-load_example =
    reconcile-load one_tab disk two_files paths plain_host constant_templates config_text store_text
      cells cells-IsLawful two_files-IsLawful auto "" before after no_faults temporary_apart refl
      refl pass_done
