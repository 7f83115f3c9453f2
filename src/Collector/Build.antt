-- ===== src/Collector/Build.antt =====
-- internal/collector/collector.go: `Build`. A map of the source is an association list; each
-- loop is a recursion over the list that it ranges over.
pub mod Numbering
pub mod Contexts
use herdr_tabline.Base.{ℕ, ◌+◌, String, ◌++◌, ◌&&◌, Option, none, some, List, [], ◌∷◌}
use herdr_tabline.Base.{◌==◌, string_eq, if◌then◌else◌, map}
use herdr_tabline.Base.Dict.{Dict, lookup, insert}
use herdr_tabline.Api
use herdr_tabline.Api.{Snapshot}
use herdr_tabline.Model
use herdr_tabline.Model.{
  Context, LabelHistory, History, zero_workspace, zero_pane, zero_process, zero_shell,
}
use herdr_tabline.Collector.Normalize.{normalize_workspace, normalize_pane, normalize_agent}
use herdr_tabline.Collector.Panes.{select_pane}

-- `m[k]`, with a value for a missing key
abbrev pub get_or {ℓ} : {V : Type ℓ} → V → Option V → V
get_or d none = d
get_or d (some v) = v

index_workspaces : ℕ → List Api.Workspace → Dict Model.Workspace → Dict Model.Workspace
index_workspaces index [] m = m
index_workspaces index (raw ∷ raws) m =
    index_workspaces (index + 1) raws (insert raw.workspace_id (normalize_workspace raw index) m)

index_layouts : List Api.Layout → Dict Api.Layout → Dict Api.Layout
index_layouts [] m = m
index_layouts (raw ∷ raws) m = index_layouts raws (insert raw.tab_id raw m)

index_agents : List Api.Agent → Dict Api.Agent → Dict Api.Agent
index_agents [] m = m
index_agents (raw ∷ raws) m = index_agents raws (insert raw.pane_id raw m)

group_panes : List Api.Pane → Dict (List Api.Pane) → Dict (List Api.Pane)
group_panes [] m = m
group_panes (raw ∷ raws) m =
    group_panes raws (insert raw.tab_id (get_or [] (lookup raw.tab_id m) ++ (raw ∷ [])) m)

-- The four maps that `Build` makes first.
pub record Maps : Type 0 where
  pub workspaces : Dict Model.Workspace
  pub layouts : Dict Api.Layout
  pub agents : Dict Api.Agent
  pub panes_by_tab : Dict (List Api.Pane)

unfoldable pub index_snapshot : Snapshot → Maps
unfolding index_workspaces index_layouts index_agents group_panes
index_snapshot snapshot = record {
  workspaces = index_workspaces 0 snapshot.workspaces [];
  layouts = index_layouts snapshot.layouts [];
  agents = index_agents snapshot.agents [];
  panes_by_tab = group_panes snapshot.panes [];
}

-- The first of the normalized panes that has the id of the selected one.
pane_with_id : String → List Model.Pane → Model.Pane
pane_with_id id [] = zero_pane
pane_with_id id (pane ∷ panes) = if pane.id == id then pane else pane_with_id id panes

-- The source label and the rendered label that the history gives a tab.
unfoldable pub prior_labels : Option LabelHistory → String → String × String
prior_labels none current = (current, "")
prior_labels (some prior) current =
    (if current == prior.rendered_label then prior.source_label else current, prior.rendered_label)

-- The body of the loop over the tabs, at its position in its workspace.
unfoldable pub tab_context : Maps → History → ℕ → Api.Tab → ℕ → Context
unfolding pane_with_id
tab_context maps history now raw index =
    let tab_panes : List Api.Pane = get_or [] (lookup raw.tab_id maps.panes_by_tab) in
    let (selected, found_by_layout) = select_pane (lookup raw.tab_id maps.layouts) tab_panes in
    let panes =
      map (λ (p : Api.Pane). normalize_pane p (found_by_layout && p.pane_id == selected.pane_id))
        tab_panes in
    let (label, rendered) = prior_labels (lookup raw.tab_id history) raw.label in
    record {
      workspace = get_or zero_workspace (lookup raw.workspace_id maps.workspaces);
      tab = record {
        id = raw.tab_id;
        label = label;
        current_label = raw.label;
        rendered_label = rendered;
        index = index;
        number = index + 1;
        native_number = raw.number;
        pane_count = raw.pane_count;
        focused = raw.focused;
      };
      pane = pane_with_id selected.pane_id panes;
      panes = panes;
      process = zero_process;
      processes = [];
      process_by_pgid = zero_process;
      shell = zero_shell;
      agent = normalize_agent (lookup selected.pane_id maps.agents) selected;
      profile = "default";
      now = now;
    }

-- `positions[id] = index + 1`, where `index` is the workspace's next position
abbrev advance : String → Dict ℕ → Dict ℕ
advance id positions = insert id (get_or 0 (lookup id positions) + 1) positions

-- The loop over the tabs, with the next position of each workspace.
unfoldable pub build_tabs : Maps → History → ℕ → Dict ℕ → List Api.Tab → List Context
build_tabs maps history now positions [] = []
build_tabs maps history now positions (raw ∷ raws) =
    tab_context maps history now raw (get_or 0 (lookup raw.workspace_id positions))
    ∷ build_tabs maps history now (advance raw.workspace_id positions) raws

unfoldable pub build : Snapshot → History → ℕ → List Context
unfolding index_snapshot build_tabs
build snapshot history now = build_tabs (index_snapshot snapshot) history now [] snapshot.tabs
