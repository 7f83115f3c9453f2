-- ===== src/Session/Persistence.antt =====
-- What a pass of internal/controller leaves in the state file, through internal/state.
use herdr_tabline.Base.{
  ◌≡◌, ◌≢◌, refl, ap, sym, ◌∙◌, String, Bool, true, none, [], arith, inl, inr, Option-cases,
  contains, string_eq, if◌then◌else◌,
}
use herdr_tabline.Base.Dict.{Dict, lookup}
use herdr_tabline.Base.Result.{Result, ok, err, map_err}
use herdr_tabline.Api.{Snapshot}
use herdr_tabline.Model.{History}
use herdr_tabline.Collector.Build.{build}
use herdr_tabline.Render.Width.{Graphemes}
use herdr_tabline.Render.Width.Bounds
use herdr_tabline.Render.Engine.{Templates}
use herdr_tabline.Config.Types.{Host, Compiled}
use herdr_tabline.Config.Compile.{ConfigError}
use herdr_tabline.Config.Manager.{FileSystem}
use herdr_tabline.Controller.{
  Trigger, Services, merge_and_purge, visit_all, current_config, reconcile,
}
use herdr_tabline.Controller.Calls.{Calls, done, asked, renamed_to, visit_all-Calls}
use herdr_tabline.Controller.Purge.{either_entry}
use herdr_tabline.Controller.Visits.{snapshot_ids}
use herdr_tabline.Controller.Passes.{Committed, before_snapshot, reconcile-Committed}
use herdr_tabline.State.Store.{Codec, Paths, StoreError, Files, Faults, load, read, update}
use herdr_tabline.State.Store.Updates.{IsLawful}
use herdr_tabline.State.Store.Rewrites.{load-update_reported}
use herdr_tabline.Session.{Server, World, session}

map_err-ok {ℓ} :
    {E D A : Type ℓ} (f : E → D) (r : Result E A) {a : A} → map_err f r ≡ ok a → r ≡ ok a
map_err-ok f (ok a) h = ground arith
map_err-ok f (err e) h = cc

module _ (V : Server) (F : FileSystem) (C : Codec) (paths : Paths) (H : Host) (T : Templates)
    (config_text : ConfigError → String) (store_text : StoreError → String) (G : Graphemes) where
  abbrev S : Services H T
  S = session V F C paths H T config_text store_text

  -- The calls of the loop leave the files to the store.
  Calls-files :
      {Allowed : String → String → Type 0} {w v : World V F C paths H T}
      → Calls G H T S Allowed w v
      → (v.files ≡ w.files) × (v.update_faults ≡ w.update_faults)
  Calls-files done = (refl, refl)
  Calls-files (asked pane c) = Calls-files c
  Calls-files (renamed_to tab label a c) = Calls-files c

  visit_all-files :
      Bounds.IsLawful G
      → {compiled : Compiled H T} {trigger : Trigger} {target : String} {history : History}
        {snapshot : Snapshot} {w v : World V F C paths H T}
      → (committed : Committed G H T S compiled trigger target history snapshot w v)
      → (committed.visited.files ≡ w.files) × (committed.visited.update_faults ≡ w.update_faults)
  visit_all-files L {compiled} {trigger} {target} {history} {snapshot} {w} committed =
      let c = Calls-files (
        visit_all-Calls G H T S L trigger target compiled history
          (build snapshot history (S.now w).0) (record { updates = []; live = [] }) (S.now w).1) in
      let e : (visit_all G H T S compiled trigger target history
            (build snapshot history (S.now w).0) (record { updates = []; live = [] }) (S.now w).1).1
          ≡ committed.visited =
        ap (λ p. p.1) committed.visits in
      (ap (λ u. u.files) (sym e) ∙ c.0, ap (λ u. u.update_faults) (sym e) ∙ c.1)

  load-load :
      (f g : Faults) (files : Files) (tabs : History)
      → g.lock ≡ none
      → g.read ≡ none
      → load C paths f files ≡ ok tabs
      → load C paths g files ≡ ok tabs
  unfolding load read
  load-load f g files tabs locked readable h = elim (Option-cases f.lock) [
    | inr (x, e) ↦ absurd (ground arith)
    | inl free ↦ elim (Option-cases f.read) [
      | inr (x, e) ↦ absurd (ground arith)
      | inl given ↦ ground arith
    ]
  ]

  merge_and_purge-true :
      (updates : History) (live : Dict Bool) (tabs : History)
      → (merge_and_purge updates live tabs).1 ≡ true
  unfolding merge_and_purge
  merge_and_purge-true updates live tabs = refl

  ok-inj : {a b : History} → ◌≡◌ {A = Result StoreError History} (ok a) (ok b) → a ≡ b
  ok-inj h = cc

  -- For a lawful segmentation and codec, every trigger, target, session and later reader whose calls succeed, and
  -- whatever calls of the pass's own load and update fail, where the temporary name is not the
  -- state path: if a pass reports success, then what the reader finds in the state file
  -- afterwards has, for a tab of the server's snapshot, the entry that the pass recorded, or else the one that
  -- it finds there before the pass, and for any other tab none.
  pub reconcile-load :
      Bounds.IsLawful G
      → IsLawful C
      → (trigger : Trigger) (target : String) (w v : World V F C paths H T) (g : Faults)
      → w.update_faults.temporary ≢ paths.state
      → g.lock ≡ none
      → g.read ≡ none
      → reconcile G H T S trigger target w ≡ (ok tt, v)
      → (compiled : Compiled H T) × (history : History) × (snapshot : Snapshot) × (load C paths g
            w.files
          ≡ ok history)
        × ((V.snapshot w.server).0 ≡ ok snapshot)
        × (committed : Committed G H T S compiled trigger target history snapshot
            (S.snapshot (before_snapshot G H T S w)).1
            v)
        × (again : History) × (load C paths g v.files ≡ ok again)
        × ((id : String)
            → lookup id again ≡ (
                if contains (snapshot_ids snapshot.tabs) id
                then either_entry (lookup id committed.updates) (lookup id history)
                else none))
  unfolding current_config
  reconcile-load L K trigger target w v g other locked readable h =
      let (compiled, history, snapshot, configured, loaded, taken, committed) =
        reconcile-Committed G H T S trigger target w v h in
      let before : load C paths g w.files ≡ ok history =
        load-load w.load_faults g w.files history locked readable
          (map_err-ok store_text (load C paths w.load_faults w.files) loaded) in
      let (files, faults) = visit_all-files L committed in
      let mutate = merge_and_purge committed.updates committed.live in
      let done : (update C paths committed.visited.update_faults mutate committed.visited.files).0
          ≡ ok committed.reported =
        map_err-ok store_text
          (update C paths committed.visited.update_faults mutate committed.visited.files).0
          (ap (λ p. p.0) committed.last_call) in
      let left : (update C paths committed.visited.update_faults mutate committed.visited.files).1
          ≡ v.files =
        ap (λ p. p.1.files) committed.last_call in
      let changes : (t : History) → (mutate t).1 ≡ true =
        merge_and_purge-true committed.updates committed.live in
      let (tabs, read_before, again, read_after, same) =
        load-update_reported C paths K committed.visited.update_faults g mutate
          committed.visited.files committed.reported
          (λ e. other (ap (λ (f : Faults). f.temporary) (sym faults) ∙ e)) locked readable changes
          done in
      let known : tabs ≡ history = ok-inj (sym read_before ∙ ap (load C paths g) files ∙ before) in
      (
        compiled,
        history,
        snapshot,
        before,
        taken,
        committed,
        again,
        ap (load C paths g) (sym left) ∙ read_after,
        λ id. same id ∙ ap (λ t. lookup id (mutate t).0) known ∙ committed.stored history id,
      )
