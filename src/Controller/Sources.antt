-- ===== src/Controller/Sources.antt =====
-- The labels that the user gave and those that the plugin wrote, told apart by
-- internal/controller/controller.go and internal/collector/collector.go.
use herdr_tabline.Base.{
  ℕ, ◌≡◌, ◌≢◌, inl, inr, refl, String, true, false, some, List, [], ◌∷◌, arith, All,
}
use herdr_tabline.Base.{◌==◌, string_eq, Bool-cases}
use herdr_tabline.Base.Dict.{Dict, lookup}
use herdr_tabline.Base.Result.{Result, ok, err}
use herdr_tabline.Api
use herdr_tabline.Api.{Snapshot, ProcessInfo}
use herdr_tabline.Model.{Context, LabelHistory, History}
use herdr_tabline.Collector.Build.{Maps, prior_labels, tab_context, build_tabs, build}
use herdr_tabline.Collector.Processes.{attach_process}
use herdr_tabline.Render.Width.{Graphemes}
use herdr_tabline.Render.Engine.{Templates, RenderError}
use herdr_tabline.Config.Types.{Host, Compiled}
use herdr_tabline.Config.Resolve.{resolve}
use herdr_tabline.Controller.{
  Trigger, Services, ReconcileError, eligible, prior_source, source_label_for, observe_source_label,
  renamed, apply_label, render_and_rename, with_process, reconcile_tab,
}

pub tab_context-source_label_for :
    (maps : Maps) (history : History) (now : ℕ) (raw : Api.Tab) (index : ℕ)
    → (tab_context maps history now raw index).tab.label
      ≡ source_label_for history (tab_context maps history now raw index)
unfolding tab_context source_label_for prior_labels
tab_context-source_label_for maps history now raw index = ground arith

build_tabs-source_label_for :
    (maps : Maps) (history : History) (now : ℕ) (raws : List Api.Tab) (positions : Dict ℕ)
    → All
        (λ (ctx : Context). ctx.tab.label ≡ source_label_for history ctx)
        (build_tabs maps history now positions raws)
unfolding build_tabs
build_tabs-source_label_for maps history now [] positions = tt
build_tabs-source_label_for maps history now (raw ∷ raws) positions = (
  tab_context-source_label_for maps history now raw _,
  build_tabs-source_label_for maps history now raws _,
)

-- For every snapshot, history and time: the label that the collector shows to templates and
-- matchers, in each context, is the one that the controller takes for the tab's source label.
pub build-source_label_for :
    (snapshot : Snapshot) (history : History) (now : ℕ)
    → All
        (λ (ctx : Context). ctx.tab.label ≡ source_label_for history ctx)
        (build snapshot history now)
unfolding build
build-source_label_for snapshot history now =
    build_tabs-source_label_for _ history now snapshot.tabs []

-- For every history and context, with the entry that an observation returns, whether or not it
-- changed: with it in the history, the same context has the same source label, and is not observed
-- to change again. A tab that the history does not know, and whose source label is empty, has none.
pub observe_source_label_settles :
    (history later : History) (ctx : Context)
    → (observe_source_label history ctx).0 ≡ true
    → lookup ctx.tab.id later ≡ some (observe_source_label history ctx).1
    → (source_label_for later ctx ≡ source_label_for history ctx)
      × ((observe_source_label later ctx).0 ≡ false)
unfolding observe_source_label source_label_for
observe_source_label_settles history later ctx changed kept = ground arith

module _ (G : Graphemes) (H : Host) (T : Templates) (S : Services H T) where
  -- What an outcome that renamed the tab recorded.
  abbrev Recorded : History → Context → LabelHistory → Type 0
  Recorded history ctx entry =
      (entry.source_label ≡ source_label_for history ctx)
      × (entry.rendered_label ≢ ctx.tab.current_label)

  renamed-Recorded :
      (history : History) (ctx : Context) (desired : String)
      (r : Result String (Unit {0}) × S.World) (entry : LabelHistory)
      → desired ≢ ctx.tab.current_label
      → (renamed G H T S history ctx desired r).0 ≡ ok (true, entry)
      → Recorded history ctx entry
  unfolding renamed
  renamed-Recorded history ctx desired (err e, w) entry other h = cc
  renamed-Recorded history ctx desired (ok u, w) entry other h = (ground arith, ground arith)

  apply_label-Recorded :
      (history : History) (ctx : Context) (label : Result RenderError String) (w : S.World)
      (entry : LabelHistory)
      → (apply_label G H T S history ctx label w).0 ≡ ok (true, entry)
      → Recorded history ctx entry
  unfolding apply_label
  apply_label-Recorded history ctx (err e) w entry h = cc
  apply_label-Recorded history ctx (ok desired) w entry h =
      elim (Bool-cases (desired == ctx.tab.current_label)) [
        | inl same ↦ absurd (ground arith)
        | inr other ↦
            renamed-Recorded history ctx desired (S.rename_tab ctx.tab.id desired w) entry
              (ground arith) (ground arith)
      ]

  render_and_rename-Recorded :
      (compiled : Compiled H T) (trigger : Trigger) (history : History)
      (r : Result ReconcileError Context × S.World) (id current : String) (entry : LabelHistory)
      → ((ctx : Context) → r.0 ≡ ok ctx → (ctx.tab.id ≡ id) × (ctx.tab.current_label ≡ current))
      → (render_and_rename G H T S compiled trigger history r).0 ≡ ok (true, entry)
      → (entry.source_label ≡ prior_source (lookup id history) current)
        × (entry.rendered_label ≢ current)
  unfolding render_and_rename source_label_for
  render_and_rename-Recorded compiled trigger history (err e, w) id current entry same h = cc
  render_and_rename-Recorded compiled trigger history (ok ctx, w) id current entry same h =
      let effective = resolve H T compiled ctx in
      let profiled : Context = record ctx { profile = effective.profile_name } in
      let (same_id, same_label) = same ctx refl in
      elim (Bool-cases (eligible effective.mode trigger)) [
        | inr off ↦ absurd (ground arith)
        | inl on ↦
            let (source, other) = apply_label-Recorded history profiled _ w entry (rw on at h) in
            (ground arith, ground arith)
      ]

  pub with_process-tab :
      (start : Context) (w : S.World) (ctx : Context)
      → (with_process G H T S start w).0 ≡ ok ctx
      → (ctx.tab.id ≡ start.tab.id) × (ctx.tab.current_label ≡ start.tab.current_label)
  unfolding with_process attach_process
  with_process-tab start w ctx h = (ground arith, ground arith)

  -- For every configuration, trigger, context, history and world: where the reconciliation of a tab
  -- reports that it renamed it, the entry that it records holds the tab's source label, and a label
  -- that the server did not show. With that entry in the history, a context of the same tab that
  -- shows the new label has the same source label still, and no change is observed: the plugin
  -- never takes its own label for the user's.
  pub reconcile_tab-source_label_for :
      (compiled : Compiled H T) (trigger : Trigger) (ctx : Context) (history : History)
      (w : S.World) (entry : LabelHistory) (later : History) (next : Context)
      → (reconcile_tab G H T S compiled trigger ctx history w).0 ≡ ok (true, entry)
      → lookup next.tab.id later ≡ some entry
      → next.tab.current_label ≡ entry.rendered_label
      → (entry.source_label ≡ source_label_for history ctx)
        × (entry.rendered_label ≢ ctx.tab.current_label)
        × (source_label_for later next ≡ source_label_for history ctx)
        × ((observe_source_label later next).0 ≡ false)
  unfolding reconcile_tab source_label_for observe_source_label
  reconcile_tab-source_label_for compiled trigger ctx history w entry later next h kept shown =
      elim (Bool-cases (eligible (resolve H T compiled ctx).mode trigger)) [
        | inr off ↦ absurd (ground arith)
        | inl on ↦
            let (source, other) =
              render_and_rename-Recorded compiled trigger history (with_process G H T S ctx w)
                ctx.tab.id ctx.tab.current_label entry (with_process-tab ctx w) (rw on at h) in
            (source, other, ground arith, ground arith)
      ]
