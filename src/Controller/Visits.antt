-- ===== src/Controller/Visits.antt =====
-- What the loop of internal/controller/controller.go's `Reconcile` leaves in its maps.
use mathlib.Core.Path.{subst}
use herdr_tabline.Base.{
  ℕ, ◌≡◌, ◌≢◌, refl, ap, String, Bool, true, false, List, [], ◌∷◌, arith, contains,
}
use herdr_tabline.Base.{inl, inr, ◌==◌, ◌||◌, string_eq, Bool-cases, Option-cases}
use herdr_tabline.Base.Dict.{Dict, NodupKeys, lookup, insert, lookup-insert}
use herdr_tabline.Base.Result.{Result, ok, err}
use herdr_tabline.Api
use herdr_tabline.Api.{Snapshot}
use herdr_tabline.Model.{Context, LabelHistory, History}
use herdr_tabline.Collector.Build.{Maps, tab_context, build_tabs, build}
use herdr_tabline.Render.Width.{Graphemes}
use herdr_tabline.Render.Engine.{Templates}
use herdr_tabline.Config.Types.{Host, Compiled}
use herdr_tabline.Controller.{
  Trigger, Services, ReconcileError, Passed, flag, observe_source_label, observe, skips,
  record_written, visit, proceed, visit_all,
}

insert-NodupKeys :
    {V : Type 0} (k : String) (v : V) (d : Dict V) → NodupKeys d → NodupKeys (insert k v d)
unfolding insert lookup
insert-NodupKeys k v [] h = (refl, tt)
insert-NodupKeys k v ((j, w) ∷ d) h =
    ground (arith, lookup-insert j k v d, insert-NodupKeys k v d h.1)

-- What a visit of a tab leaves in the maps.
pub record Visits (passed : Passed) (ctx : Context) (next : Passed) : Type 0 where
  pub live :
      (id : String)
      → flag (lookup id next.live) ≡ (id == ctx.tab.id || flag (lookup id passed.live))
  pub updates : NodupKeys passed.updates → NodupKeys next.updates
  pub others : (id : String) → id ≢ ctx.tab.id → lookup id next.updates ≡ lookup id passed.updates

observe-Visits :
    (history : History) (ctx : Context) (passed : Passed)
    → Visits passed ctx (observe history ctx passed)
unfolding observe
observe-Visits history ctx passed = record {
  live = λ id. ground (arith, lookup-insert id ctx.tab.id true passed.live);
  updates = λ h.
      ground
        (arith, insert-NodupKeys ctx.tab.id (observe_source_label history ctx).1 passed.updates h);
  others = λ id other.
      ground
        (arith, lookup-insert id ctx.tab.id (observe_source_label history ctx).1 passed.updates);
}

-- The ids of the tabs that a list of contexts is about.
abbrev pub tab_ids : List Context → List String
tab_ids [] = []
tab_ids (ctx ∷ ctxs) = ctx.tab.id ∷ tab_ids ctxs

abbrev pub snapshot_ids : List Api.Tab → List String
snapshot_ids [] = []
snapshot_ids (raw ∷ raws) = raw.tab_id ∷ snapshot_ids raws

tab_ids-build_tabs :
    (maps : Maps) (history : History) (now : ℕ) (raws : List Api.Tab) (positions : Dict ℕ)
    → tab_ids (build_tabs maps history now positions raws) ≡ snapshot_ids raws
unfolding build_tabs tab_context
tab_ids-build_tabs maps history now [] positions = refl
tab_ids-build_tabs maps history now (raw ∷ raws) positions =
    ap (λ (ids : List String). raw.tab_id ∷ ids) (tab_ids-build_tabs maps history now raws _)

pub tab_ids-build :
    (snapshot : Snapshot) (history : History) (now : ℕ)
    → tab_ids (build snapshot history now) ≡ snapshot_ids snapshot.tabs
unfolding build
tab_ids-build snapshot history now = tab_ids-build_tabs _ history now snapshot.tabs []

module _ (G : Graphemes) (H : Host) (T : Templates) (S : Services H T) where
  record_written-Visits :
      (passed : Passed) (ctx : Context) (seen : Passed)
      (r : Result ReconcileError (Bool × LabelHistory) × S.World) (next : Passed)
      → Visits passed ctx seen
      → (record_written G H T S seen ctx.tab.id r).0 ≡ ok next
      → Visits passed ctx next
  unfolding record_written
  record_written-Visits passed ctx seen (err e, w) next v h =
      subst (Visits passed ctx) (ground arith) v
  record_written-Visits passed ctx seen (ok (false, entry), w) next v h =
      subst (Visits passed ctx) (ground arith) v
  record_written-Visits passed ctx seen (ok (true, entry), w) next v h =
      let e : record seen { updates = insert ctx.tab.id entry seen.updates } ≡ next =
        ground arith in
      subst (Visits passed ctx) e (record {
        live = v.live;
        updates = λ h. insert-NodupKeys ctx.tab.id entry seen.updates (v.updates h);
        others = λ id other.
            ground (arith, v.others id other, lookup-insert id ctx.tab.id entry seen.updates);
      })

  module _ (compiled : Compiled H T) (trigger : Trigger) (target : String) (history : History) where
    pub visit-Visits :
        (ctx : Context) (passed : Passed) (w : S.World) (next : Passed)
        → (visit G H T S compiled trigger target history ctx passed w).0 ≡ ok next
        → Visits passed ctx next
    unfolding visit
    visit-Visits ctx passed w next h = elim (Bool-cases (skips trigger target ctx)) [
      | inl skipped ↦ subst (Visits passed ctx) (ground arith) (observe-Visits history ctx passed)
      | inr met ↦ elim (Option-cases (S.ctx_err w)) [
        | inr (e, stopped) ↦ absurd (ground arith)
        | inl going ↦
            record_written-Visits passed ctx (observe history ctx passed) _ next
              (observe-Visits history ctx passed) (rw (met, going) at h)
      ]
    ]

    -- What the loop leaves in the maps, where no visit stops it.
    pub record VisitsAll (passed : Passed) (ctxs : List Context) (next : Passed) : Type 0 where
      pub live :
          (id : String)
          → flag (lookup id next.live)
            ≡ (contains (tab_ids ctxs) id || flag (lookup id passed.live))
      pub updates : NodupKeys passed.updates → NodupKeys next.updates
      pub others :
          (id : String)
          → contains (tab_ids ctxs) id ≡ false
          → lookup id next.updates ≡ lookup id passed.updates

    pub visit_all-VisitsAll :
        (ctxs : List Context) (passed : Passed) (w : S.World) (next : Passed)
        → (visit_all G H T S compiled trigger target history ctxs passed w).0 ≡ ok next
        → VisitsAll passed ctxs next
    unfolding visit_all
    visit_all-VisitsAll [] passed w next h =
        subst (VisitsAll passed []) (ground arith)
          (record { live = λ id. refl; updates = λ k. k; others = λ id k. refl })
    visit_all-VisitsAll (ctx ∷ ctxs) passed w next h =
        go (visit G H T S compiled trigger target history ctx passed w) (visit-Visits ctx passed w)
          (λ more v. visit_all-VisitsAll ctxs more v next) h
      where
        go :
            (r : Result ReconcileError Passed × S.World)
            → ((more : Passed) → r.0 ≡ ok more → Visits passed ctx more)
            → ((more : Passed) (v : S.World)
                → (visit_all G H T S compiled trigger target history ctxs more v).0 ≡ ok next
                → VisitsAll more ctxs next)
            → (proceed G H T S
                (λ more v. visit_all G H T S compiled trigger target history ctxs more v)
                r).0
              ≡ ok next
            → VisitsAll passed (ctx ∷ ctxs) next
        go (err e, v) first rest k = cc
        go (ok more, v) first rest k =
            let a = first more refl in
            let b = rest more v k in
            record {
              live = λ id. ground (arith, a.live id, b.live id);
              updates = λ n. b.updates (a.updates n);
              others = λ id n. ground (arith, a.others id, b.others id);
            }
