-- ===== src/Collector/Panes.antt =====
-- internal/collector/collector.go: `findPane` and `selectPane`, and which pane they select.
pub mod Selection
use herdr_tabline.Base.{String, Bool, true, false, Option, none, some, List, [], ◌∷◌}
use herdr_tabline.Base.{◌==◌, string_eq, if◌then◌else◌}
use herdr_tabline.Base.Int.{pos}
use herdr_tabline.Api.{Pane, Layout, LayoutPane}

-- `herdrapi.Pane{}`
abbrev pub no_pane : Pane
no_pane = record {
  pane_id = "";
  tab_id = "";
  workspace_id = "";
  label = "";
  title = "";
  focused = false;
  cwd = "";
  foreground_cwd = "";
  terminal_id = "";
  terminal_title = "";
  terminal_title_stripped = "";
  agent = "";
  display_agent = "";
  agent_status = "";
  agent_session = "";
  revision = pos 0;
  scroll = record {
    max_offset_from_bottom = pos 0;
    offset_from_bottom = pos 0;
    viewport_rows = pos 0;
  };
  state_labels = [];
  tokens = [];
}

-- The first pane with the id; `none` is the source's `(Pane{}, false)`.
unfoldable pub find_pane : List Pane → String → Option Pane
find_pane [] id = none
find_pane (pane ∷ panes) id = if pane.pane_id == id then some pane else find_pane panes id

-- The loop over `layout.Panes`: the first focused entry whose pane is there.
find_focused : List LayoutPane → List Pane → Option Pane
unfolding find_pane
find_focused [] panes = none
find_focused (entry ∷ entries) panes =
    let rest = find_focused entries panes in
    if entry.focused
    then elim (find_pane panes entry.pane_id) [ some pane ↦ some pane | none ↦ rest ]
    else rest

-- What the layout says, if it says anything.
by_layout : Option Layout → List Pane → Option Pane
unfolding find_focused
by_layout none panes = none
by_layout (some layout) panes =
    let entries = find_focused layout.panes panes in
    if layout.focused_pane_id == ""
    then entries
    else elim (find_pane panes layout.focused_pane_id) [ some pane ↦ some pane | none ↦ entries ]

abbrev first_or_none : List Pane → Pane
first_or_none [] = no_pane
first_or_none (pane ∷ panes) = pane

-- The pane, and whether the layout chose it.
unfoldable pub select_pane : Option Layout → List Pane → Pane × Bool
unfolding by_layout
select_pane layout panes = elim (by_layout layout panes) [
  | some pane ↦ (pane, true)
  | none ↦ (first_or_none panes, false)
]
