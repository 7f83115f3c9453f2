-- ===== src/Collector/Build/Numbering.antt =====
-- The positions that internal/collector/collector.go's `Build` gives the tabs.
use herdr_tabline.Base.{ℕ, suc, ◌+◌, ◌≡◌, ◌∙◌, ap, refl, String, ◌++◌, some, List, [], ◌∷◌, arith}
use herdr_tabline.Base.{◌==◌, string_eq, if◌then◌else◌, length, get_elem?}
use herdr_tabline.Base.Dict.{Dict, lookup, lookup-insert}
use herdr_tabline.Api
use herdr_tabline.Api.{Snapshot}
use herdr_tabline.Model.{History}
use herdr_tabline.Collector.Build.{
  get_or, advance, Maps, index_snapshot, tab_context, build_tabs, build,
}

-- How many of the tabs lie in a workspace.
abbrev pub tabs_in : String → List Api.Tab → ℕ
tabs_in workspace [] = 0
tabs_in workspace (raw ∷ raws) =
    let rest = tabs_in workspace raws in if raw.workspace_id == workspace then suc rest else rest

-- Counting a tab moves the position of its own workspace, and of no other.
next_position :
    (positions : Dict ℕ) (before : List Api.Tab) (first raw : Api.Tab)
    → get_or 0 (lookup raw.workspace_id (advance first.workspace_id positions))
        + tabs_in raw.workspace_id before
      ≡ get_or 0 (lookup raw.workspace_id positions) + tabs_in raw.workspace_id (first ∷ before)
next_position positions before first raw = ground (
  arith,
  lookup-insert raw.workspace_id first.workspace_id
      (get_or 0 (lookup first.workspace_id positions) + 1) positions,
)

start : (workspace : String) (n : ℕ) → get_or 0 (lookup workspace []) + n ≡ n
unfolding lookup
start workspace n = omega arith

module _ (maps : Maps) (history : History) (now : ℕ) where
  build_tabs-get_elem? :
      (positions : Dict ℕ) (before : List Api.Tab) (raw : Api.Tab) (after : List Api.Tab)
      → get_elem? (build_tabs maps history now positions (before ++ (raw ∷ after))) (length before)
        ≡ some (
            tab_context maps history now raw
              (get_or 0 (lookup raw.workspace_id positions) + tabs_in raw.workspace_id before))
  unfolding build_tabs
  build_tabs-get_elem? positions [] raw after =
      ap (λ (k : ℕ). some (tab_context maps history now raw k)) (omega arith)
  build_tabs-get_elem? positions (first ∷ before) raw after =
      build_tabs-get_elem? (advance first.workspace_id positions) before raw after
      ∙ ap (λ (k : ℕ). some (tab_context maps history now raw k))
          (next_position positions before first raw)

  length-build_tabs :
      (positions : Dict ℕ) (raws : List Api.Tab)
      → length (build_tabs maps history now positions raws) ≡ length raws
  unfolding build_tabs
  length-build_tabs positions [] = refl
  length-build_tabs positions (raw ∷ raws) =
      ap suc (length-build_tabs (advance raw.workspace_id positions) raws)

-- For every snapshot, history and time, and every tab at any place of the snapshot's tab list:
-- `build` makes one context for each tab, and the context at the tab's place is the one that
-- `tab_context` makes of it at a position which is the number of tabs of the same workspace that stand
-- before it. The server's own numbers have no part in it.
pub build-get_elem? :
    (snapshot : Snapshot) (history : History) (now : ℕ) (before : List Api.Tab) (raw : Api.Tab)
    (after : List Api.Tab)
    → snapshot.tabs ≡ before ++ (raw ∷ after)
    → (get_elem? (build snapshot history now) (length before)
        ≡ some (
            tab_context
              (index_snapshot snapshot)
              history
              now
              raw
              (tabs_in raw.workspace_id before)))
      × (length (build snapshot history now) ≡ length snapshot.tabs)
unfolding build
build-get_elem? snapshot history now before raw after e = (
  ap
        (λ (tabs : List Api.Tab).
          get_elem? (build_tabs (index_snapshot snapshot) history now [] tabs) (length before))
        e
      ∙ build_tabs-get_elem? _ history now [] before raw after
      ∙ ap (λ (k : ℕ). some (tab_context (index_snapshot snapshot) history now raw k))
          (start raw.workspace_id (tabs_in raw.workspace_id before)),
  length-build_tabs _ history now [] snapshot.tabs,
)
