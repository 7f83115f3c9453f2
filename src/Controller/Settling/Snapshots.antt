-- ===== src/Controller/Settling/Snapshots.antt =====
-- A pass of internal/controller/controller.go over the snapshot that an earlier pass left behind.
use mathlib.Core.Path.{subst}
use herdr_tabline.Base.{
  ℕ, ◌≡◌, refl, sym, ap, ◌∙◌, inl, inr, String, Bool, true, false, Option, some, List, [], ◌∷◌, map,
  All, arith, string_eq, if◌then◌else◌, Bool-cases,
}
use herdr_tabline.Base.Dict.{Dict, lookup}
use herdr_tabline.Base.Result.{ok}
use herdr_tabline.Api
use herdr_tabline.Api.{Snapshot}
use herdr_tabline.Model.{Context, LabelHistory, History}
use herdr_tabline.Collector.Build.{Maps, prior_labels, tab_context, build_tabs, build}
use herdr_tabline.Render.Width.{Graphemes}
use herdr_tabline.Render.Engine.{Templates}
use herdr_tabline.Config.Types.{Host, Compiled}
use herdr_tabline.Config.Resolve.{resolve}
use herdr_tabline.Controller.{
  Trigger, Services, Passed, source_label_for, observe_source_label, reconcile_tab, visit_all,
}
use herdr_tabline.Controller.Sources.{
  tab_context-source_label_for, reconcile_tab-source_label_for, observe_source_label_settles,
}
use herdr_tabline.Controller.Settling.{Sight, seen_again, IsBlind, shown_after}
use herdr_tabline.Controller.Settling.Repeats.{Asks, Settled, visit_all-Asks}

-- What a pass leaves in the history for a tab: the entry of a rename, or else that of an observed
-- change, or else what was there.
abbrev pub entry_after : History → Context → Bool × LabelHistory → Option LabelHistory
entry_after history ctx (renamed_it, entry) =
    let (changed, observed) = observe_source_label history ctx in
    if renamed_it then some entry else if changed then some observed else lookup ctx.tab.id history

-- The tab as the server shows it after an outcome.
abbrev pub tab_after : Bool × LabelHistory → Api.Tab → Api.Tab
tab_after (renamed_it, entry) raw = record raw {
  label = if renamed_it then entry.rendered_label else raw.label;
}

-- The tabs of a snapshot as the server shows them after the outcomes of a pass, by their ids.
abbrev pub tabs_after : (String → Bool × LabelHistory) → List Api.Tab → List Api.Tab
tabs_after outcomes raws = map (λ (raw : Api.Tab). tab_after (outcomes raw.tab_id) raw) raws

source_label_seen :
    (later : History) (next ctx : Context)
    → next.tab.id ≡ ctx.tab.id
    → next.tab.current_label ≡ ctx.tab.current_label
    → source_label_for later next ≡ source_label_for later ctx
unfolding source_label_for
source_label_seen later next ctx id shown = rw (id, shown) refl

source_label_kept :
    (history later : History) (ctx : Context) (entry : LabelHistory)
    → lookup ctx.tab.id later ≡ entry_after history ctx (false, entry)
    → source_label_for later ctx ≡ source_label_for history ctx
source_label_kept history later ctx entry kept =
    elim (Bool-cases (observe_source_label history ctx).0) [
      | inl changed ↦ (observe_source_label_settles history later ctx changed (ground arith)).0
      | inr same ↦ unfold source_label_for in ground arith
    ]

module _ (G : Graphemes) (H : Host) (T : Templates) (S : Services H T) where
  source_label_again :
      (compiled : Compiled H T) (trigger : Trigger) (ctx next : Context) (history later : History)
      (w : S.World) (renamed_it : Bool) (entry : LabelHistory)
      → (reconcile_tab G H T S compiled trigger ctx history w).0 ≡ ok (renamed_it, entry)
      → lookup ctx.tab.id later ≡ entry_after history ctx (renamed_it, entry)
      → next.tab.id ≡ ctx.tab.id
      → next.tab.current_label ≡ shown_after G H T S ctx (renamed_it, entry)
      → source_label_for later next ≡ source_label_for history ctx
  source_label_again compiled trigger ctx next history later w true entry h kept id shown =
      let (a, b, same, c) =
        reconcile_tab-source_label_for G H T S compiled trigger ctx history w entry later next h
          (ap (λ k. lookup k later) id ∙ kept) shown in
      same
  source_label_again compiled trigger ctx next history later w false entry h kept id shown =
      source_label_seen later next ctx id shown ∙ source_label_kept history later ctx entry kept

  module _ (compiled : Compiled H T) (trigger : Trigger) (history later : History) where
    -- A context of the earlier pass, with its outcome, its entry in the later history, and a pane that
    -- has the same process in every world.
    pub record IsDone (outcome : Bool × LabelHistory) (ctx : Context) : Type 0 where
      pub world : S.World
      pub reconciled : (reconcile_tab G H T S compiled trigger ctx history world).0 ≡ ok outcome
      pub recorded : lookup ctx.tab.id later ≡ entry_after history ctx outcome
      pub same_process :
          (v : S.World) → (S.process_info ctx.pane.id v).0 ≡ (S.process_info ctx.pane.id world).0

    tab_context-again :
        (maps : Maps) (now next_now : ℕ) (raw : Api.Tab) (index : ℕ) (outcome : Bool × LabelHistory)
        → (tab_context maps later next_now (tab_after outcome raw) index).tab.label
          ≡ (tab_context maps history now raw index).tab.label
        → (sight : Sight) × (tab_context maps later next_now (tab_after outcome raw) index
            ≡ seen_again sight (tab_context maps history now raw index))
          × (sight.shown ≡ shown_after G H T S (tab_context maps history now raw index) outcome)
    unfolding tab_context
    tab_context-again maps now next_now raw index outcome same =
        let labels = prior_labels (lookup raw.tab_id later) (tab_after outcome raw).label in
        (
          record { shown = (tab_after outcome raw).label; rendered = labels.1; now = next_now },
          rw same refl,
          refl,
        )

    tab_context-id :
        (maps : Maps) (now : ℕ) (raw : Api.Tab) (index : ℕ)
        → (tab_context maps history now raw index).tab.id ≡ raw.tab_id
    unfolding tab_context
    tab_context-id maps now raw index = refl

    tab_context-Settled :
        (maps : Maps) (now next_now : ℕ) (raw : Api.Tab) (index : ℕ) (outcome : Bool × LabelHistory)
        → IsDone outcome (tab_context maps history now raw index)
        → Settled G H T S compiled trigger
            (tab_context maps later next_now (tab_after outcome raw) index)
    tab_context-Settled maps now next_now raw index outcome is_done =
        let ctx = tab_context maps history now raw index in
        let next = tab_context maps later next_now (tab_after outcome raw) index in
        let same : next.tab.label ≡ ctx.tab.label =
          tab_context-source_label_for maps later next_now (tab_after outcome raw) index
          ∙ source_label_again compiled trigger ctx next history later is_done.world outcome.0
              outcome.1 is_done.reconciled is_done.recorded (unfold tab_context in refl)
              (unfold tab_context in refl)
          ∙ sym (tab_context-source_label_for maps history now raw index) in
        let (sight, again, shown) = tab_context-again maps now next_now raw index outcome same in
        record {
          before = ctx;
          history = history;
          world = is_done.world;
          outcome = outcome;
          reconciled = is_done.reconciled;
          sight = sight;
          again = again;
          shown = shown;
          same_process = is_done.same_process;
        }

    IsDone-id :
        (outcomes : String → Bool × LabelHistory) (ctx : Context) (id : String)
        → ctx.tab.id ≡ id
        → IsDone (outcomes ctx.tab.id) ctx
        → IsDone (outcomes id) ctx
    IsDone-id outcomes ctx id same is_done = subst (λ i. IsDone (outcomes i) ctx) same is_done

    build_tabs-Settled :
        (outcomes : String → Bool × LabelHistory) (maps : Maps) (now next_now : ℕ)
        (raws : List Api.Tab) (positions : Dict ℕ)
        → All
            (λ (ctx : Context). IsDone (outcomes ctx.tab.id) ctx)
            (build_tabs maps history now positions raws)
        → All
            (λ (ctx : Context). Settled G H T S compiled trigger ctx)
            (build_tabs maps later next_now positions (tabs_after outcomes raws))
    unfolding build_tabs
    build_tabs-Settled outcomes maps now next_now [] positions all = tt
    build_tabs-Settled outcomes maps now next_now (raw ∷ raws) positions all = (
      tab_context-Settled maps now next_now raw _ (outcomes raw.tab_id)
          (IsDone-id outcomes _ raw.tab_id (tab_context-id maps now raw _) all.0),
      build_tabs-Settled outcomes maps now next_now raws _ all.1,
    )

    -- For every configuration, trigger, target, snapshot, histories and times: where an earlier pass over the snapshot reconciled each of
    -- its tabs without an error, the later history has what that pass recorded for each tab, and the process of each pane is
    -- the same in every world, the loop over the contexts of the snapshot with the labels that the pass left renames
    -- nothing: all that it does is to ask for processes. The condition is that no template that the configuration
    -- may choose depends on the label shown, the label written or the time.
    pub visit_all-build-Asks :
        (target : String) (snapshot : Snapshot) (outcomes : String → Bool × LabelHistory)
        (now next_now : ℕ) (passed : Passed) (w : S.World)
        → ((seen : Context) → IsBlind T (resolve H T compiled seen).template.parsed)
        → All (λ (ctx : Context). IsDone (outcomes ctx.tab.id) ctx) (build snapshot history now)
        → Asks G H T S w
            (visit_all G H T S compiled trigger target later
              (build (record snapshot { tabs = tabs_after outcomes snapshot.tabs }) later next_now)
              passed
              w).1
    unfolding build
    visit_all-build-Asks target snapshot outcomes now next_now passed w blind all =
        visit_all-Asks G H T S compiled trigger target blind later _ passed w
          (build_tabs-Settled outcomes _ now next_now snapshot.tabs [] all)
