-- ===== src/Controller/Passes.antt =====
-- What one pass of internal/controller/controller.go's `Reconcile` does as a whole.
use herdr_tabline.Base.{ℕ, ◌≡◌, refl, String, Bool, false, not, ◌&&◌, none, [], arith, contains}
use herdr_tabline.Base.{inl, inr, ◌==◌, string_eq, if◌then◌else◌, Bool-cases}
use herdr_tabline.Base.Dict.{Dict, NodupKeys, lookup, lookup-nil}
use herdr_tabline.Base.Result.{Result, ok, err}
use herdr_tabline.Api.{Snapshot}
use herdr_tabline.Model.{History}
use herdr_tabline.Collector.Build.{build}
use herdr_tabline.Render.Width.{Graphemes}
use herdr_tabline.Render.Engine.{Templates}
use herdr_tabline.Config.Types.{Host, Compiled}
use herdr_tabline.Controller.{
  Trigger, is_action, Services, ReconcileError, Passed, flag, merge_and_purge, visit_all, persisted,
  commit, conclude, reconcile_snapshot, reconcile_history, current_config, reconcile_with,
  reconcile,
}
use herdr_tabline.Controller.Purge.{either_entry, lookup-merge_and_purge}
use herdr_tabline.Controller.Visits.{snapshot_ids, tab_ids-build, visit_all-VisitsAll}

module _ (G : Graphemes) (H : Host) (T : Templates) (S : Services H T) where
  -- What a pass from a snapshot on did, where it reports success: its last call, after the loop,
  -- is the update; and what the update's callback makes of the stored entries.
  pub record Committed (compiled : Compiled H T) (trigger : Trigger) (target : String)
      (history : History) (snapshot : Snapshot) (w v : S.World) : Type 0 where
    pub updates : History
    pub live : Dict Bool
    pub visited : S.World
    pub visits :
        visit_all G H T S compiled trigger target history
          (build snapshot history (S.now w).0)
          (record { updates = []; live = [] })
          (S.now w).1
        ≡ (ok (record { updates = updates; live = live }), visited)
    pub reported : Bool
    pub last_call : S.update (merge_and_purge updates live) visited ≡ (ok reported, v)
    pub stored :
        (tabs : History) (id : String)
        → lookup id (merge_and_purge updates live tabs).0 ≡ (
            if contains (snapshot_ids snapshot.tabs) id
            then either_entry (lookup id updates) (lookup id tabs)
            else none)
    pub target_present :
        (is_action trigger && not (contains (snapshot_ids snapshot.tabs) target)) ≡ false

  persisted-world :
      (r : Result String Bool × S.World) (v : S.World)
      → persisted G H T S r ≡ (ok tt, v)
      → (b : Bool) × (r ≡ (ok b, v))
  unfolding persisted
  persisted-world (err e, w) v h = cc
  persisted-world (ok b, w) v h = (b, ground arith)

  conclude-Committed :
      (compiled : Compiled H T) (trigger : Trigger) (target : String) (history : History)
      (snapshot : Snapshot) (start : S.World) (r : Result ReconcileError Passed × S.World)
      (v : S.World)
      → visit_all G H T S compiled trigger target history
          (build snapshot history (S.now start).0)
          (record { updates = []; live = [] })
          (S.now start).1
        ≡ r
      → ((passed : Passed)
          → r.0 ≡ ok passed
          → ((id : String)
              → flag (lookup id passed.live) ≡ contains (snapshot_ids snapshot.tabs) id)
            × NodupKeys passed.updates)
      → conclude G H T S trigger target r ≡ (ok tt, v)
      → Committed compiled trigger target history snapshot start v
  unfolding conclude commit
  conclude-Committed compiled trigger target history snapshot start (err e, w) v ran facts h = cc
  conclude-Committed compiled trigger target history snapshot start (ok passed, w) v ran facts h =
      let (live, nodup) = facts passed refl in
      elim (Bool-cases (is_action trigger && not (flag (lookup target passed.live)))) [
        | inl missing ↦ absurd (ground arith)
        | inr present ↦ record {
          updates = passed.updates;
          live = passed.live;
          visited = w;
          visits = ran;
          reported = (persisted-world _ v (rw present at h)).0;
          last_call = (persisted-world _ v (rw present at h)).1;
          stored = λ tabs id.
              ground
                (arith, lookup-merge_and_purge passed.updates passed.live tabs id nodup, live id);
          target_present = ground (arith, live target);
        }
      ]

  visited-facts :
      (compiled : Compiled H T) (trigger : Trigger) (target : String) (history : History)
      (snapshot : Snapshot) (now : ℕ) (w : S.World) (passed : Passed)
      → (visit_all G H T S compiled trigger target history
          (build snapshot history now)
          (record { updates = []; live = [] })
          w).0
        ≡ ok passed
      → ((id : String) → flag (lookup id passed.live) ≡ contains (snapshot_ids snapshot.tabs) id)
        × NodupKeys passed.updates
  visited-facts compiled trigger target history snapshot now w passed h =
      let all = visit_all-VisitsAll G H T S compiled trigger target history _ _ w passed h in
      (
        λ id.
            ground
              (arith, all.live id, tab_ids-build snapshot history now, lookup-nil {V = Bool} id),
        all.updates tt,
      )

  reconcile_snapshot-Committed :
      (compiled : Compiled H T) (trigger : Trigger) (target : String) (history : History)
      (r : Result String Snapshot × S.World) (v : S.World)
      → reconcile_snapshot G H T S compiled trigger target history r ≡ (ok tt, v)
      → (snapshot : Snapshot) × (r.0 ≡ ok snapshot)
        × Committed compiled trigger target history snapshot r.1 v
  unfolding reconcile_snapshot
  reconcile_snapshot-Committed compiled trigger target history (err e, w) v h = cc
  reconcile_snapshot-Committed compiled trigger target history (ok snapshot, w) v h = (
    snapshot,
    refl,
    conclude-Committed compiled trigger target history snapshot w _ v refl
        (λ passed e.
          visited-facts compiled trigger target history snapshot (S.now w).0 (S.now w).1 passed e)
        h,
  )

  -- The world in which the snapshot is taken.
  abbrev pub before_snapshot : S.World → S.World
  before_snapshot w = (S.load (current_config G H T S w).1).1

  reconcile_history-Committed :
      (compiled : Compiled H T) (trigger : Trigger) (target : String)
      (r : Result String History × S.World) (v : S.World)
      → reconcile_history G H T S compiled trigger target r ≡ (ok tt, v)
      → (history : History) × (snapshot : Snapshot) × (r.0 ≡ ok history)
        × ((S.snapshot r.1).0 ≡ ok snapshot)
        × Committed compiled trigger target history snapshot (S.snapshot r.1).1 v
  unfolding reconcile_history
  reconcile_history-Committed compiled trigger target (err e, w) v h = cc
  reconcile_history-Committed compiled trigger target (ok history, w) v h =
      let (snapshot, e, committed) =
        reconcile_snapshot-Committed compiled trigger target history (S.snapshot w) v h in
      (history, snapshot, refl, e, committed)

  reconcile_with-Committed :
      (trigger : Trigger) (target : String) (r : Result ReconcileError (Compiled H T) × S.World)
      (v : S.World)
      → reconcile_with G H T S trigger target r ≡ (ok tt, v)
      → (compiled : Compiled H T) × (history : History) × (snapshot : Snapshot) × (r.0
          ≡ ok compiled)
        × ((S.load r.1).0 ≡ ok history)
        × ((S.snapshot (S.load r.1).1).0 ≡ ok snapshot)
        × Committed compiled trigger target history snapshot (S.snapshot (S.load r.1).1).1 v
  unfolding reconcile_with
  reconcile_with-Committed trigger target (err e, w) v h = cc
  reconcile_with-Committed trigger target (ok compiled, w) v h =
      let (history, snapshot, e, f, committed) =
        reconcile_history-Committed compiled trigger target (S.load w) v h in
      (compiled, history, snapshot, refl, e, f, committed)

  -- For every trigger, target and world: a pass that reports success has a configuration,
  -- loaded a history and took a snapshot; it went through the whole loop over the contexts built
  -- of these, and its last call is an update of the stored history, which reports no error. That update, whatever is stored by then, leaves no entry for a tab
  -- that is not in the snapshot; a tab that is has the pass's own entry, or keeps its stored one.
  -- The target of an action is in the snapshot.
  pub reconcile-Committed :
      (trigger : Trigger) (target : String) (w v : S.World)
      → reconcile G H T S trigger target w ≡ (ok tt, v)
      → (compiled : Compiled H T) × (history : History) × (snapshot : Snapshot) × ((current_config G
            H T S w).0
          ≡ ok compiled)
        × ((S.load (current_config G H T S w).1).0 ≡ ok history)
        × ((S.snapshot (before_snapshot w)).0 ≡ ok snapshot)
        × Committed compiled trigger target history snapshot (S.snapshot (before_snapshot w)).1 v
  unfolding reconcile
  reconcile-Committed trigger target w v h = elim (Bool-cases (is_action trigger && target == "")) [
    | inl none_given ↦ absurd (ground arith)
    | inr given ↦
        reconcile_with-Committed trigger target (current_config G H T S w) v (rw given at h)
  ]
