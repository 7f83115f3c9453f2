-- ===== src/Controller/Settling/Notes.antt =====
-- What an automatic pass of internal/controller/controller.go notes of each tab, and what the next one then
-- does.
use mathlib.Core.Path.{subst}
use herdr_tabline.Base.{
  ℕ, ◌≡◌, ◌≢◌, sym, ap, ◌∙◌, String, Bool, true, false, Option, some, none, List, [], ◌∷◌, All,
  All-map, arith, contains, string_eq, if◌then◌else◌,
}
use herdr_tabline.Base.Dict.{NodupKeys, lookup, insert, lookup-insert, lookup-nil}
use herdr_tabline.Base.Result.{Result, ok, err}
use herdr_tabline.Api.{Snapshot}
use herdr_tabline.Model.{Context, LabelHistory, History}
use herdr_tabline.Collector.Build.{build}
use herdr_tabline.Render.Width.{Graphemes}
use herdr_tabline.Render.Engine.{Templates}
use herdr_tabline.Config.Types.{Host, Compiled}
use herdr_tabline.Config.Resolve.{resolve}
use herdr_tabline.State.Store.Updates.{SameTabs}
use herdr_tabline.Controller.{
  auto, Services, ReconcileError, Passed, flag, observe_source_label, observe, record_written,
  merge_and_purge, reconcile_tab, visit, visit_all,
}
use herdr_tabline.Controller.Purge.{lookup-merge_and_purge, either_entry}
use herdr_tabline.Controller.Visits.{
  Visits, tab_ids, snapshot_ids, tab_ids-build, visit-Visits, visit_all-VisitsAll,
}
use herdr_tabline.Controller.Settling.{IsBlind}
use herdr_tabline.Controller.Settling.Repeats.{Asks}
use herdr_tabline.Controller.Settling.Snapshots.{
  entry_after, IsDone, tabs_after, visit_all-build-Asks,
}

-- Each id stands once.
abbrev pub Unique : List String → Type 0
Unique [] = Unit
Unique (id ∷ ids) = (contains ids id ≡ false) × Unique ids

contains-ne :
    (ids : List String) (id other : String)
    → contains ids id ≡ true
    → contains ids other ≡ false
    → id ≢ other
contains-ne ids id other h k e = cc

-- The entry that a visit notes.
abbrev noted_entry : History → Context → Bool × LabelHistory → Option LabelHistory
noted_entry history ctx (renamed_it, entry) =
    let (changed, observed) = observe_source_label history ctx in
    if renamed_it then some entry else if changed then some observed else none

abbrev noted : History → Context → Passed → Bool × LabelHistory → Passed
noted history ctx passed (renamed_it, entry) =
    let seen = observe history ctx passed in
    if renamed_it then record seen { updates = insert ctx.tab.id entry seen.updates } else seen

lookup-noted :
    (history : History) (ctx : Context) (passed : Passed) (outcome : Bool × LabelHistory)
    → lookup ctx.tab.id passed.updates ≡ none
    → lookup ctx.tab.id (noted history ctx passed outcome).updates ≡ noted_entry history ctx outcome
unfolding observe
lookup-noted history ctx passed (renamed_it, entry) fresh =
    let seen = observe history ctx passed in
    ground (
      arith,
      lookup-insert ctx.tab.id ctx.tab.id entry seen.updates,
      lookup-insert ctx.tab.id ctx.tab.id (observe_source_label history ctx).1 passed.updates,
    )

module _ (G : Graphemes) (H : Host) (T : Templates) (S : Services H T) (compiled : Compiled H T)
    (history : History) (outcomes : String → Bool × LabelHistory) where
  -- The loop goes through the contexts without a cancellation, and reconciles each without an error.
  abbrev pub Reconciles : List Context → S.World → Type 0
  Reconciles [] w = Unit
  Reconciles (ctx ∷ ctxs) w =
      (S.ctx_err w ≡ none)
      × ((reconcile_tab G H T S compiled auto ctx history w).0 ≡ ok (outcomes ctx.tab.id))
      × Reconciles ctxs (reconcile_tab G H T S compiled auto ctx history w).1

  record_written-noted :
      (ctx : Context) (passed : Passed) (r : Result ReconcileError (Bool × LabelHistory) × S.World)
      (outcome : Bool × LabelHistory)
      → r.0 ≡ ok outcome
      → record_written G H T S (observe history ctx passed) ctx.tab.id r
        ≡ (ok (noted history ctx passed outcome), r.1)
  unfolding record_written
  record_written-noted ctx passed (err e, w) outcome h = cc
  record_written-noted ctx passed (ok (renamed_it, entry), w) (b, e) h =
      let p : (renamed_it, entry) ≡ (b, e) = cc in ap (λ o. (ok (noted history ctx passed o), w)) p

  visit-noted :
      (target : String) (ctx : Context) (passed : Passed) (w : S.World)
      → S.ctx_err w ≡ none
      → (reconcile_tab G H T S compiled auto ctx history w).0 ≡ ok (outcomes ctx.tab.id)
      → visit G H T S compiled auto target history ctx passed w ≡ (
        ok (noted history ctx passed (outcomes ctx.tab.id)),
        (reconcile_tab G H T S compiled auto ctx history w).1,
      )
  unfolding visit
  visit-noted target ctx passed w going reconciled =
      rw going (record_written-noted ctx passed _ (outcomes ctx.tab.id) reconciled)

  -- What the maps have of a context in the end.
  pub record Noted (final : Passed) (ctx : Context) : Type 0 where
    pub world : S.World
    pub reconciled :
        (reconcile_tab G H T S compiled auto ctx history world).0 ≡ ok (outcomes ctx.tab.id)
    pub update : lookup ctx.tab.id final.updates ≡ noted_entry history ctx (outcomes ctx.tab.id)
    pub live : flag (lookup ctx.tab.id final.live) ≡ true

  noted_entry-after :
      (ctx : Context) (outcome : Bool × LabelHistory)
      → either_entry (noted_entry history ctx outcome) (lookup ctx.tab.id history)
        ≡ entry_after history ctx outcome
  noted_entry-after ctx (renamed_it, entry) = ground arith

  -- A history with the entries that the commit's callback makes has what the pass left for each tab.
  Noted-IsDone :
      (final : Passed) (later : History)
      → NodupKeys final.updates
      → SameTabs later (merge_and_purge final.updates final.live history).0
      → ((pane : String) (v u : S.World) → (S.process_info pane v).0 ≡ (S.process_info pane u).0)
      → (ctx : Context) → Noted final ctx
      → IsDone G H T S compiled auto history later (outcomes ctx.tab.id) ctx
  Noted-IsDone final later nodup stored still ctx n = record {
    world = n.world;
    reconciled = n.reconciled;
    recorded =
        stored ctx.tab.id
        ∙ lookup-merge_and_purge final.updates final.live history ctx.tab.id nodup
        ∙ rw (n.live, n.update) (noted_entry-after ctx (outcomes ctx.tab.id));
    same_process = λ v. still ctx.pane.id v n.world;
  }

  module _ (target : String) where
    rest_of :
        (ctx : Context) (ctxs : List Context) (passed : Passed) (w : S.World) (final : Passed)
        → Reconciles (ctx ∷ ctxs) w
        → (visit_all G H T S compiled auto target history (ctx ∷ ctxs) passed w).0 ≡ ok final
        → (visit_all G H T S compiled auto target history ctxs
            (noted history ctx passed (outcomes ctx.tab.id))
            (reconcile_tab G H T S compiled auto ctx history w).1).0
          ≡ ok final
    unfolding visit_all
    rest_of ctx ctxs passed w final (going, reconciled, rest) h =
        rw (visit-noted target ctx passed w going reconciled) at h

    noted-Visits :
        (ctx : Context) (passed : Passed) (w : S.World)
        → S.ctx_err w ≡ none
        → (reconcile_tab G H T S compiled auto ctx history w).0 ≡ ok (outcomes ctx.tab.id)
        → Visits passed ctx (noted history ctx passed (outcomes ctx.tab.id))
    noted-Visits ctx passed w going reconciled =
        visit-Visits G H T S compiled auto target history ctx passed w _
          (ap (λ r. r.0) (visit-noted target ctx passed w going reconciled))

    visit_all-Noted :
        (ctxs : List Context) (passed : Passed) (w : S.World) (final : Passed)
        → Unique (tab_ids ctxs)
        → ((id : String) → contains (tab_ids ctxs) id ≡ true → lookup id passed.updates ≡ none)
        → Reconciles ctxs w
        → (visit_all G H T S compiled auto target history ctxs passed w).0 ≡ ok final
        → All (λ (ctx : Context). Noted final ctx) ctxs
    visit_all-Noted [] passed w final unique fresh all h = tt
    visit_all-Noted (ctx ∷ ctxs) passed w final (other, unique) fresh (going, reconciled, rest) h =
        let v = (reconcile_tab G H T S compiled auto ctx history w).1 in
        let more = noted history ctx passed (outcomes ctx.tab.id) in
        let first = noted-Visits ctx passed w going reconciled in
        let left = rest_of ctx ctxs passed w final (going, reconciled, rest) h in
        let others =
          visit_all-VisitsAll G H T S compiled auto target history ctxs more v final left in
        (
          record {
            world = w;
            reconciled = reconciled;
            update =
                others.others ctx.tab.id other
                ∙ lookup-noted history ctx passed (outcomes ctx.tab.id)
                    (fresh ctx.tab.id (ground arith));
            live = ground (arith, others.live ctx.tab.id, first.live ctx.tab.id);
          },
          visit_all-Noted ctxs more v final unique
              (λ id stands.
                first.others id (contains-ne (tab_ids ctxs) id ctx.tab.id stands other)
                ∙ fresh id (ground arith))
              rest left,
        )

    -- For every configuration, target, snapshot with distinct tabs, histories and times: where an
    -- automatic pass's loop over the snapshot is not cancelled and reconciles each tab without an
    -- error, the next pass's loop, over the same snapshot with the labels that the first left, and
    -- a history with the entries that its commit makes, renames nothing: all that it does is to
    -- ask for processes. The conditions are that the process of a pane stays the same, and that no
    -- template that the configuration may choose depends on the label shown, the label written or
    -- the time.
    pub visit_all-twice :
        (snapshot : Snapshot) (later : History) (now next_now : ℕ) (w next : S.World)
        (final : Passed)
        → ((seen : Context) → IsBlind T (resolve H T compiled seen).template.parsed)
        → ((pane : String) (v u : S.World) → (S.process_info pane v).0 ≡ (S.process_info pane u).0)
        → Unique (snapshot_ids snapshot.tabs)
        → Reconciles (build snapshot history now) w
        → (visit_all G H T S compiled auto target history
            (build snapshot history now)
            (record { updates = []; live = [] })
            w).0
          ≡ ok final
        → SameTabs later (merge_and_purge final.updates final.live history).0
        → Asks G H T S next
            (visit_all G H T S compiled auto target later
              (build (record snapshot { tabs = tabs_after outcomes snapshot.tabs }) later next_now)
              (record { updates = []; live = [] })
              next).1
    visit_all-twice snapshot later now next_now w next final blind still unique reconciles h
          stored =
        let ctxs = build snapshot history now in
        let ids = tab_ids-build snapshot history now in
        let nodup =
          (visit_all-VisitsAll G H T S compiled auto target history ctxs _ w final h).updates tt in
        visit_all-build-Asks G H T S compiled auto history later target snapshot outcomes now
          next_now _ next blind
          (All-map (Noted-IsDone final later nodup stored still) ctxs (
            visit_all-Noted ctxs _ w final (subst Unique (sym ids) unique)
              (λ id stands. lookup-nil {V = LabelHistory} id) reconciles h))
