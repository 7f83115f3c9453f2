-- ===== src/Collector/Panes/Selection.antt =====
-- Which pane internal/collector/collector.go's `selectPane` selects.
use herdr_tabline.Base.{
  Option-cases, ◌≡◌, refl, inl, inr, String, true, false, Option, none, some, List, [], ◌∷◌, arith,
}
use herdr_tabline.Base.{◌==◌, string_eq, if◌then◌else◌}
use herdr_tabline.Api.{Pane, Layout, LayoutPane}
use herdr_tabline.Collector.Panes.{find_pane, find_focused, first_or_none, select_pane}

abbrev focused_ids : List LayoutPane → List String
focused_ids [] = []
focused_ids (entry ∷ entries) =
    let rest = focused_ids entries in if entry.focused then entry.pane_id ∷ rest else rest

-- The ids that a layout names, best first: its focused pane, then its focused entries.
abbrev pub candidates : Option Layout → List String
candidates none = []
candidates (some layout) =
    let entries = focused_ids layout.panes in
    if layout.focused_pane_id == "" then entries else layout.focused_pane_id ∷ entries

-- The first candidate that is there.
abbrev pub first_present : List Pane → List String → Option Pane
first_present panes [] = none
first_present panes (id ∷ ids) =
    let rest = first_present panes ids in
    elim (find_pane panes id) [ some pane ↦ some pane | none ↦ rest ]

find_focused_lem :
    (entries : List LayoutPane) (panes : List Pane)
    → find_focused entries panes ≡ first_present panes (focused_ids entries)
unfolding find_focused
find_focused_lem [] panes = refl
find_focused_lem (entry ∷ entries) panes = ground (arith, find_focused_lem entries panes)

-- For every layout and pane list: the selection is the first pane, in the order focused pane, then
-- focused entries, whose id the layout names and which the tab has, marked as the layout's choice;
-- where there is none it is the tab's first pane, or the zero pane of a tab without panes,
-- and is not marked.
pub select_pane_lem :
    (layout : Option Layout) (panes : List Pane)
    → select_pane layout panes ≡ elim (first_present panes (candidates layout)) [
      | some pane ↦ (pane, true)
      | none ↦ (first_or_none panes, false)
    ]
unfolding select_pane
select_pane_lem none panes = refl
select_pane_lem (some layout) panes = ground (arith, find_focused_lem layout.panes panes)

pub find_pane-pane_id :
    (panes : List Pane) (id : String) (p : Pane) → find_pane panes id ≡ some p → p.pane_id ≡ id
unfolding find_pane
find_pane-pane_id [] id p h = cc
find_pane-pane_id (pane ∷ panes) id p h = ground (arith, find_pane-pane_id panes id p)

first_present-find_pane :
    (panes : List Pane) (ids : List String) (p : Pane)
    → first_present panes ids ≡ some p
    → find_pane panes p.pane_id ≡ some p
first_present-find_pane panes [] p h = cc
first_present-find_pane panes (id ∷ ids) p h =
    ground (arith, first_present-find_pane panes ids p, find_pane-pane_id panes id p)

-- The selected pane of a tab that has panes is the one that its id finds again.
pub select_pane-find_pane :
    (layout : Option Layout) (p : Pane) (panes : List Pane)
    → let selected = (select_pane layout (p ∷ panes)).0 in
      find_pane (p ∷ panes) selected.pane_id ≡ some selected
select_pane-find_pane layout p panes =
    rw (select_pane_lem layout (p ∷ panes))
      (elim (Option-cases (first_present (p ∷ panes) (candidates layout))) [
        | inl e ↦ rw e (unfold find_pane in ground arith)
        | inr (q, e) ↦ rw e (first_present-find_pane (p ∷ panes) (candidates layout) q e)
      ])
