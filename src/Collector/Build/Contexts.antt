-- ===== src/Collector/Build/Contexts.antt =====
-- What internal/collector/collector.go's `Build` puts into a tab's context, from the snapshot.
use mathlib.Core.Option.{or_else}
use mathlib.Core.List.{append-nil, append_assoc}
use herdr_tabline.Base.{
  ℕ, ◌+◌, ◌≡◌, ◌∙◌, ap, sym, refl, String, ◌++◌, Bool, ◌&&◌, Option, none, some, List, [], ◌∷◌,
  arith,
}
use herdr_tabline.Base.{◌==◌, string_eq, if◌then◌else◌, map, last_such}
use herdr_tabline.Base.Dict.{Dict, lookup, insert, lookup-insert}
use herdr_tabline.Api
use herdr_tabline.Api.{Snapshot}
use herdr_tabline.Model
use herdr_tabline.Model.{History, zero_workspace, zero_pane}
use herdr_tabline.Collector.Normalize.{normalize_workspace, normalize_pane, normalize_agent}
use herdr_tabline.Collector.Panes.{find_pane, select_pane}
use herdr_tabline.Collector.Panes.Selection.{select_pane-find_pane}
use herdr_tabline.Collector.Build.{
  get_or, group_panes, index_layouts, index_agents, index_workspaces, index_snapshot, pane_with_id,
  tab_context,
}

-- The panes of a tab, in the snapshot's order.
abbrev pub panes_of : String → List Api.Pane → List Api.Pane
panes_of tab [] = []
panes_of tab (raw ∷ raws) =
    let rest = panes_of tab raws in if raw.tab_id == tab then raw ∷ rest else rest

group_step :
    (tab : String) (raw : Api.Pane) (raws : List Api.Pane) (m : Dict (List Api.Pane))
    → get_or [] (lookup tab (insert raw.tab_id (get_or [] (lookup raw.tab_id m) ++ (raw ∷ [])) m))
        ++ panes_of tab raws
      ≡ get_or [] (lookup tab m) ++ panes_of tab (raw ∷ raws)
group_step tab raw raws m = ground (
  arith,
  lookup-insert tab raw.tab_id (get_or [] (lookup raw.tab_id m) ++ (raw ∷ [])) m,
  append_assoc (get_or [] (lookup raw.tab_id m)) (raw ∷ []) (panes_of tab raws),
)

group_panes_lem :
    (tab : String) (raws : List Api.Pane) (m : Dict (List Api.Pane))
    → get_or [] (lookup tab (group_panes raws m)) ≡ get_or [] (lookup tab m) ++ panes_of tab raws
unfolding group_panes
group_panes_lem tab [] m = sym (append-nil _)
group_panes_lem tab (raw ∷ raws) m =
    group_panes_lem tab raws _ ∙ ground (arith, group_step tab raw raws m)

index_layouts_lem :
    (tab : String) (raws : List Api.Layout) (m : Dict Api.Layout)
    → lookup tab (index_layouts raws m)
      ≡ or_else (last_such (λ (l : Api.Layout). tab == l.tab_id) raws) (lookup tab m)
unfolding index_layouts or_else
index_layouts_lem tab [] m = refl
index_layouts_lem tab (raw ∷ raws) m = ground (
  arith,
  index_layouts_lem tab raws (insert raw.tab_id raw m),
  lookup-insert tab raw.tab_id raw m,
)

index_agents_lem :
    (pane : String) (raws : List Api.Agent) (m : Dict Api.Agent)
    → lookup pane (index_agents raws m)
      ≡ or_else (last_such (λ (a : Api.Agent). pane == a.pane_id) raws) (lookup pane m)
unfolding index_agents or_else
index_agents_lem pane [] m = refl
index_agents_lem pane (raw ∷ raws) m = ground (
  arith,
  index_agents_lem pane raws (insert raw.pane_id raw m),
  lookup-insert pane raw.pane_id raw m,
)

-- The last workspace with an id, with the number of its place.
abbrev pub numbered_workspace : String → ℕ → List Api.Workspace → Option Model.Workspace
numbered_workspace id index [] = none
numbered_workspace id index (raw ∷ raws) = elim (numbered_workspace id (index + 1) raws) [
  | some later ↦ some later
  | none ↦ if id == raw.workspace_id then some (normalize_workspace raw index) else none
]

index_workspaces_lem :
    (id : String) (index : ℕ) (raws : List Api.Workspace) (m : Dict Model.Workspace)
    → lookup id (index_workspaces index raws m)
      ≡ or_else (numbered_workspace id index raws) (lookup id m)
unfolding index_workspaces or_else
index_workspaces_lem id index [] m = refl
index_workspaces_lem id index (raw ∷ raws) m = ground (
  arith,
  index_workspaces_lem id (index + 1) raws
      (insert raw.workspace_id (normalize_workspace raw index) m),
  lookup-insert id raw.workspace_id (normalize_workspace raw index) m,
)

pane_with_id-map :
    (flag : Api.Pane → Bool) (id : String) (panes : List Api.Pane) (p : Api.Pane)
    → find_pane panes id ≡ some p
    → pane_with_id id (map (λ (q : Api.Pane). normalize_pane q (flag q)) panes)
      ≡ normalize_pane p (flag p)
unfolding pane_with_id find_pane normalize_pane
pane_with_id-map flag id [] p h = cc
pane_with_id-map flag id (pane ∷ panes) p h = ground (arith, pane_with_id-map flag id panes p)

selected_pane :
    (layout : Option Api.Layout) (own : List Api.Pane)
    → let selected = select_pane layout own in
      pane_with_id selected.0.pane_id (
        map
          (λ (p : Api.Pane). normalize_pane p (selected.1 && p.pane_id == selected.0.pane_id))
          own)
      ≡ elim own [ [] ↦ zero_pane | p ∷ ps ↦ normalize_pane selected.0 selected.1 ]
unfolding pane_with_id
selected_pane layout [] = refl
selected_pane layout (p ∷ ps) =
    let selected = select_pane layout (p ∷ ps) in
    pane_with_id-map (λ (q : Api.Pane). selected.1 && q.pane_id == selected.0.pane_id) _ (p ∷ ps)
      selected.0 (select_pane-find_pane layout p ps)
    ∙ ap (normalize_pane selected.0) (ground arith)

-- The four maps, from empty ones.
workspace_of :
    (id : String) (raws : List Api.Workspace)
    → lookup id (index_workspaces 0 raws []) ≡ numbered_workspace id 0 raws
unfolding lookup or_else
workspace_of id raws = index_workspaces_lem id 0 raws [] ∙ ground arith

layout_of :
    (tab : String) (raws : List Api.Layout)
    → lookup tab (index_layouts raws []) ≡ last_such (λ (l : Api.Layout). tab == l.tab_id) raws
unfolding lookup or_else
layout_of tab raws = index_layouts_lem tab raws [] ∙ ground arith

agent_of :
    (pane : String) (raws : List Api.Agent)
    → lookup pane (index_agents raws []) ≡ last_such (λ (a : Api.Agent). pane == a.pane_id) raws
unfolding lookup or_else
agent_of pane raws = index_agents_lem pane raws [] ∙ ground arith

own_panes :
    (tab : String) (raws : List Api.Pane)
    → get_or [] (lookup tab (group_panes raws [])) ≡ panes_of tab raws
unfolding lookup
own_panes tab raws = group_panes_lem tab raws []

-- For every snapshot, history, time, tab and position, the context that `Build` makes of the tab
-- has: the workspace that stands last in the snapshot under the tab's workspace id, numbered by
-- its place (the zero workspace if there is none); the tab's panes, in the snapshot's order, where
-- those that have the id of the selected pane are flagged if the layout selected it; as its pane the
-- selected one, with the same flag (the zero pane for a tab without panes); and the agent
-- that stands last in the snapshot for the selected pane.
pub tab_context-index_snapshot :
    (snapshot : Snapshot) (history : History) (now : ℕ) (raw : Api.Tab) (index : ℕ)
    → let ctx = tab_context (index_snapshot snapshot) history now raw index in
      let own = panes_of raw.tab_id snapshot.panes in
      let selected =
        select_pane (last_such (λ (l : Api.Layout). raw.tab_id == l.tab_id) snapshot.layouts) own in
      (ctx.workspace
        ≡ get_or zero_workspace (numbered_workspace raw.workspace_id 0 snapshot.workspaces))
      × (ctx.panes
          ≡ map
              (λ (p : Api.Pane). normalize_pane p (selected.1 && p.pane_id == selected.0.pane_id))
              own)
      × (ctx.pane ≡ elim own [ [] ↦ zero_pane | p ∷ ps ↦ normalize_pane selected.0 selected.1 ])
      × (ctx.agent
          ≡ normalize_agent
              (last_such (λ (a : Api.Agent). selected.0.pane_id == a.pane_id) snapshot.agents)
              selected.0)
unfolding tab_context index_snapshot
tab_context-index_snapshot snapshot history now raw index =
    simp (workspace_of, layout_of, agent_of, own_panes) (refl, refl, selected_pane _ _, refl)
