-- ===== src/Tests/Collecting.antt =====
-- internal/collector on a session of one workspace with two tabs.
use herdr_tabline.Base.{
  ◌+◌, ◌&&◌, ◌==◌, String, true, false, ◌≡◌, refl, none, some, [], ◌∷◌, map, length, get_elem?,
  last_such, string_eq,
}
use herdr_tabline.Base.Int.{pos}
use herdr_tabline.Api
use herdr_tabline.Api.{ProcessInfo, Pane, Layout, LayoutPane, Rect}
use herdr_tabline.Model.{zero_workspace, zero_pane, zero_process}
use herdr_tabline.Collector.Normalize.{normalize_process, normalize_pane, normalize_agent}
use herdr_tabline.Collector.Panes.{select_pane}
use herdr_tabline.Collector.Panes.Selection.{first_present, candidates, select_pane_lem}
use herdr_tabline.Collector.Build.{get_or, index_snapshot, tab_context, build}
use herdr_tabline.Collector.Build.Numbering.{tabs_in, build-get_elem?}
use herdr_tabline.Collector.Build.Contexts.{
  panes_of, numbered_workspace, tab_context-index_snapshot,
}
use herdr_tabline.Collector.Processes.{first_process, attach_process}
use herdr_tabline.Collector.Processes.Replacement.{last_leader, normalize_or, attach_process_lem}
use herdr_tabline.Collector.Sessions.{build_session}
use herdr_tabline.Collector.Sessions.Counts.{
  tally, identified, in_status, in_other_status, build_session_counts,
}
use herdr_tabline.Tests.Fixtures.{two_tabs, raw_tab, sample_context}

build-get_elem?_example :
    (get_elem? (build two_tabs [] 0) 1
      ≡ some (
          tab_context
            (index_snapshot two_tabs)
            []
            0
            (raw_tab "t2" "w1" "new")
            (tabs_in "w1" (raw_tab "t1" "w1" "old" ∷ []))))
    × (length (build two_tabs [] 0) ≡ 2)
build-get_elem?_example =
    build-get_elem? two_tabs [] 0 (raw_tab "t1" "w1" "old" ∷ []) (raw_tab "t2" "w1" "new") [] refl

second_tab : tabs_in "w1" (raw_tab "t1" "w1" "old" ∷ []) ≡ 1
unfolding string_eq
second_tab = refl

abbrev one_process : ProcessInfo
one_process = record {
  pane_id = "p1";
  foreground_process_group_id = some (pos 5);
  foreground_processes =
      record { pid = pos 5; name = "vi"; argv0 = "vi"; argv = []; command_line = "vi"; cwd = "/" }
      ∷ [];
  shell_pid = some (pos 4);
  tty = "tty1";
}

first_name : (attach_process sample_context one_process).process.name ≡ "vi"
unfolding attach_process
first_name = refl

attach_process_lem_example :
    let out = attach_process sample_context one_process in
    (out.processes ≡ map normalize_process one_process.foreground_processes)
    × (out.process ≡ first_process (map normalize_process one_process.foreground_processes))
    × (out.process_by_pgid
        ≡ normalize_or zero_process
            (last_leader one_process.foreground_process_group_id one_process.foreground_processes))
    × (out.shell ≡ record { pid = pos 4; tty = "tty1" })
    × (attach_process (attach_process sample_context one_process) one_process ≡ out)
attach_process_lem_example = attach_process_lem sample_context one_process one_process

abbrev pane_named : String → Pane
pane_named id = record {
  pane_id = id;
  tab_id = "t1";
  workspace_id = "w1";
  label = "";
  title = "";
  focused = false;
  cwd = "/a";
  foreground_cwd = "";
  terminal_id = "";
  terminal_title = "";
  terminal_title_stripped = "";
  agent = "";
  display_agent = "";
  agent_status = "";
  agent_session = "";
  revision = pos 0;
  scroll = record {
    max_offset_from_bottom = pos 0;
    offset_from_bottom = pos 0;
    viewport_rows = pos 0;
  };
  state_labels = [];
  tokens = [];
}

abbrev no_area : Rect
no_area = record { height = pos 0; width = pos 0; x = pos 0; y = pos 0 }

-- The layout names a pane that is gone, and has a focused entry that is there.
abbrev stale_layout : Layout
stale_layout = record {
  tab_id = "t1";
  workspace_id = "w1";
  focused_pane_id = "gone";
  area = no_area;
  panes = record { pane_id = "p2"; focused = true; rect = no_area } ∷ [];
  splits = [];
  zoomed = false;
}

select_pane_lem_example :
    select_pane (some stale_layout) (pane_named "p1" ∷ pane_named "p2" ∷ [])
    ≡ elim (first_present
        (pane_named "p1" ∷ pane_named "p2" ∷ [])
        (candidates (some stale_layout))) [
          | some pane ↦ (pane, true)
          | none ↦ (pane_named "p1", false)
        ]
select_pane_lem_example =
    select_pane_lem (some stale_layout) (pane_named "p1" ∷ pane_named "p2" ∷ [])

select_second :
    select_pane (some stale_layout) (pane_named "p1" ∷ pane_named "p2" ∷ [])
    ≡ (pane_named "p2", true)
unfolding select_pane string_eq
select_second = refl

tab_context-index_snapshot_example :
    let ctx = tab_context (index_snapshot two_tabs) [] 0 (raw_tab "t1" "w1" "old") 0 in
    let own = panes_of "t1" two_tabs.panes in
    let selected =
      select_pane (last_such (λ (l : Layout). "t1" == l.tab_id) two_tabs.layouts) own in
    (ctx.workspace ≡ get_or zero_workspace (numbered_workspace "w1" 0 two_tabs.workspaces))
    × (ctx.panes
        ≡ map (λ (p : Pane). normalize_pane p (selected.1 && p.pane_id == selected.0.pane_id)) own)
    × (ctx.pane ≡ elim own [ [] ↦ zero_pane | p ∷ ps ↦ normalize_pane selected.0 selected.1 ])
    × (ctx.agent
        ≡ normalize_agent
            (last_such (λ (a : Api.Agent). selected.0.pane_id == a.pane_id) two_tabs.agents)
            selected.0)
tab_context-index_snapshot_example =
    tab_context-index_snapshot two_tabs [] 0 (raw_tab "t1" "w1" "old") 0

build_session_counts_example :
    let s = build_session two_tabs 0 in
    (s.agents ≡ tally identified two_tabs.agents)
    × (s.blocked ≡ tally (in_status "blocked") two_tabs.agents)
    × (s.working ≡ tally (in_status "working") two_tabs.agents)
    × (s.done ≡ tally (in_status "done") two_tabs.agents)
    × (s.idle ≡ tally (in_status "idle") two_tabs.agents)
    × (s.unknown ≡ tally in_other_status two_tabs.agents)
    × (s.agents ≡ s.blocked + s.working + s.done + s.idle + s.unknown)
    × (s.attention ≡ s.blocked)
build_session_counts_example = build_session_counts two_tabs 0
