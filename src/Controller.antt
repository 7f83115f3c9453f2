-- ===== src/Controller.antt =====
-- internal/controller/controller.go: one reconciliation pass over the tabs.
-- The server, the clock, the cancellation and the interfaces `ConfigSource` and `StateStore` are
-- operations on a world, which each call passes on. Logging is not modelled.
pub mod Sources
pub mod Purge
pub mod Calls
pub mod Visits
pub mod Passes
pub mod Settling
use herdr_tabline.Base.{ℕ, String, Bool, true, false, not, ◌&&◌, Option, none, some, List, [], ◌∷◌}
use herdr_tabline.Base.{◌==◌, string_eq, if◌then◌else◌}
use herdr_tabline.Base.Dict.{Dict, lookup, insert, merge, retain}
use herdr_tabline.Base.Result.{Result, ok, err}
use herdr_tabline.Api.{Snapshot, ProcessInfo}
use herdr_tabline.Model.{Context, LabelHistory, History, zero_history}
use herdr_tabline.Collector.Build.{build}
use herdr_tabline.Collector.Processes.{attach_process}
use herdr_tabline.Render.Width.{Graphemes}
use herdr_tabline.Render.Engine.{Templates, RenderError, execute}
use herdr_tabline.Config.Types.{Mode, mode_auto, mode_keybind, Host, Effective, Compiled}
use herdr_tabline.Config.Resolve.{resolve}

pub data Trigger : Type 0 where
  auto action : Trigger

abbrev pub is_action : Trigger → Bool
is_action auto = false
is_action action = true

-- `Options`: the client's calls, the configuration, the store and the clock. A call's error is its
-- text; `ctx_err` is `ctx.Err()`.
pub record Services (H : Host) (T : Templates) : Type 1 where
  pub World : Type 0
  pub snapshot : World → Result String Snapshot × World
  pub process_info : String → World → Result String ProcessInfo × World
  pub rename_tab : String → String → World → Result String (Unit {0}) × World
  pub ctx_err : World → Option String
  pub reload_if_changed : World → Result String Bool × World
  pub current : World → Option (Compiled H T)
  pub load : World → Result String History × World
  pub update : (History → History × Bool) → World → Result String Bool × World
  pub now : World → ℕ × World

pub data ReconcileError : Type 0 where
  no_target no_configuration : ReconcileError
  load_failed snapshot_failed cancelled target_absent persist_failed : String → ReconcileError
  -- those of one tab, which the pass only logs
  process_info_failed : String → String → ReconcileError
  render_failed : RenderError → ReconcileError
  rename_failed : String → ReconcileError

unfoldable pub eligible : Mode → Trigger → Bool
eligible mode trigger =
    if mode == mode_auto then true else if mode == mode_keybind then is_action trigger else false

abbrev prior_source : Option LabelHistory → String → String
prior_source none current = current
prior_source (some prior) current =
    if current == prior.rendered_label then prior.source_label else current

unfoldable pub source_label_for : History → Context → String
source_label_for history ctx = prior_source (lookup ctx.tab.id history) ctx.tab.current_label

-- Whether the entry changed, and the entry.
abbrev observed_entry : Option LabelHistory → String → Bool × LabelHistory
observed_entry none observed =
    if observed == ""
    then (false, zero_history)
    else (true, record zero_history { source_label = observed })
observed_entry (some entry) observed =
    if entry.source_label == observed
    then (false, entry)
    else (true, record entry { source_label = observed })

unfoldable pub observe_source_label : History → Context → Bool × LabelHistory
unfolding source_label_for
observe_source_label history ctx =
    observed_entry (lookup ctx.tab.id history) (source_label_for history ctx)

-- The maps that the loop over the contexts fills.
pub record Passed : Type 0 where
  pub updates : History
  pub live : Dict Bool

-- `m[k]` of a map of flags, and of the history
abbrev pub flag : Option Bool → Bool
flag none = false
flag (some b) = b

abbrev pub entry_or_zero : Option LabelHistory → LabelHistory
entry_or_zero none = zero_history
entry_or_zero (some entry) = entry

-- The start of the loop's body: the tab is live, and its source label is recorded.
unfoldable pub observe : History → Context → Passed → Passed
observe history ctx passed =
    let (changed, entry) = observe_source_label history ctx in
    record {
      updates = if changed then insert ctx.tab.id entry passed.updates else passed.updates;
      live = insert ctx.tab.id true passed.live;
    }

-- `continue`: an action passes over every tab but its target.
abbrev pub skips : Trigger → String → Context → Bool
skips trigger target ctx = is_action trigger && not (ctx.tab.id == target)

-- The callback of `commit`.
unfoldable pub merge_and_purge : History → Dict Bool → History → History × Bool
merge_and_purge updates live tabs =
    (retain (λ (id : String). flag (lookup id live)) (merge updates tabs), true)

module _ (G : Graphemes) (H : Host) (T : Templates) (S : Services H T) where
  renamed :
      History
      → Context
      → String
      → Result String (Unit {0}) × S.World
      → Result ReconcileError (Bool × LabelHistory) × S.World
  renamed history ctx desired (err e, w) = (err (rename_failed e), w)
  renamed history ctx desired (ok _, w) =
      let entry = entry_or_zero (lookup ctx.tab.id history) in
      (
        ok (
          true,
          record entry { source_label = source_label_for history ctx; rendered_label = desired },
        ),
        w,
      )

  -- From the rendered label on.
  unfoldable pub apply_label :
      History
      → Context
      → Result RenderError String
      → S.World
      → Result ReconcileError (Bool × LabelHistory) × S.World
  unfolding renamed
  apply_label history ctx (err e) w = (err (render_failed e), w)
  apply_label history ctx (ok desired) w =
      if desired == ctx.tab.current_label
      then (ok (false, zero_history), w)
      else renamed history ctx desired (S.rename_tab ctx.tab.id desired w)

  -- From the second resolution on, where the process is known.
  unfoldable pub render_and_rename :
      Compiled H T
      → Trigger
      → History
      → Result ReconcileError Context × S.World
      → Result ReconcileError (Bool × LabelHistory) × S.World
  render_and_rename compiled trigger history (err e, w) = (err e, w)
  render_and_rename compiled trigger history (ok ctx, w) =
      let effective = resolve H T compiled ctx in
      let profiled = record ctx { profile = effective.profile_name } in
      if eligible effective.mode trigger
      then apply_label history profiled
          (execute G T (some effective.template) profiled effective.max_width) w
      else (ok (false, zero_history), w)

  pub attached :
      Context → Result String ProcessInfo × S.World → Result ReconcileError Context × S.World
  attached ctx (err e, w) = (err (process_info_failed ctx.pane.id e), w)
  attached ctx (ok info, w) = (ok (attach_process ctx info), w)

  unfoldable pub with_process : Context → S.World → Result ReconcileError Context × S.World
  unfolding attached
  with_process ctx w =
      if ctx.pane.id == "" then (ok ctx, w) else attached ctx (S.process_info ctx.pane.id w)

  unfoldable pub reconcile_tab :
      Compiled H T
      → Trigger
      → Context
      → History
      → S.World
      → Result ReconcileError (Bool × LabelHistory) × S.World
  reconcile_tab compiled trigger ctx history w =
      if eligible (resolve H T compiled ctx).mode trigger
      then render_and_rename compiled trigger history (with_process ctx w)
      else (ok (false, zero_history), w)

  -- What the loop makes of a tab's outcome: an error is logged, and the tab skipped.
  pub record_written :
      Passed
      → String
      → Result ReconcileError (Bool × LabelHistory) × S.World
      → Result ReconcileError Passed × S.World
  record_written passed id (err e, w) = (ok passed, w)
  record_written passed id (ok (written, entry), w) = (
    ok (if written then record passed { updates = insert id entry passed.updates } else passed),
    w,
  )

  -- The body of the loop over the contexts.
  unfoldable pub visit :
      Compiled H T
      → Trigger
      → String
      → History
      → Context
      → Passed
      → S.World
      → Result ReconcileError Passed × S.World
  unfolding record_written
  visit compiled trigger target history ctx passed w =
      let seen = observe history ctx passed in
      if skips trigger target ctx then (ok seen, w) else elim (S.ctx_err w) [
        | some e ↦ (err (cancelled e), w)
        | none ↦ record_written seen ctx.tab.id (reconcile_tab compiled trigger ctx history w)
      ]

  -- An error ends the loop.
  abbrev pub proceed :
      (Passed → S.World → Result ReconcileError Passed × S.World)
      → Result ReconcileError Passed × S.World
      → Result ReconcileError Passed × S.World
  proceed rest (err e, w) = (err e, w)
  proceed rest (ok more, w) = rest more w

  unfoldable pub visit_all :
      Compiled H T
      → Trigger
      → String
      → History
      → List Context
      → Passed
      → S.World
      → Result ReconcileError Passed × S.World
  visit_all compiled trigger target history [] passed w = (ok passed, w)
  visit_all compiled trigger target history (ctx ∷ ctxs) passed w =
      proceed (λ more v. visit_all compiled trigger target history ctxs more v)
        (visit compiled trigger target history ctx passed w)

  persisted : Result String Bool × S.World → Result ReconcileError (Unit {0}) × S.World
  persisted (err e, w) = (err (persist_failed e), w)
  persisted (ok _, w) = (ok tt, w)

  unfoldable pub commit : Passed → S.World → Result ReconcileError (Unit {0}) × S.World
  unfolding persisted
  commit passed w = persisted (S.update (merge_and_purge passed.updates passed.live) w)

  -- From the end of the loop on.
  unfoldable pub conclude :
      Trigger
      → String
      → Result ReconcileError Passed × S.World
      → Result ReconcileError (Unit {0}) × S.World
  conclude trigger target (err e, w) = (err e, w)
  conclude trigger target (ok passed, w) =
      if is_action trigger && not (flag (lookup target passed.live))
      then (err (target_absent target), w)
      else commit passed w

  -- From the snapshot on.
  unfoldable pub reconcile_snapshot :
      Compiled H T
      → Trigger
      → String
      → History
      → Result String Snapshot × S.World
      → Result ReconcileError (Unit {0}) × S.World
  reconcile_snapshot compiled trigger target history (err e, w) = (err (snapshot_failed e), w)
  reconcile_snapshot compiled trigger target history (ok snapshot, w) =
      let (now, w') = S.now w in
      conclude trigger target (
        visit_all compiled trigger target history (build snapshot history now)
          (record { updates = []; live = [] }) w')

  -- From the label history on.
  unfoldable pub reconcile_history :
      Compiled H T
      → Trigger
      → String
      → Result String History × S.World
      → Result ReconcileError (Unit {0}) × S.World
  reconcile_history compiled trigger target (err e, w) = (err (load_failed e), w)
  reconcile_history compiled trigger target (ok history, w) =
      reconcile_snapshot compiled trigger target history (S.snapshot w)

  -- A failed reload is only logged.
  unfoldable pub current_config : S.World → Result ReconcileError (Compiled H T) × S.World
  current_config w =
      let (reloaded, w') = S.reload_if_changed w in
      (elim (S.current w') [ none ↦ err no_configuration | some compiled ↦ ok compiled ], w')

  reconcile_with :
      Trigger
      → String
      → Result ReconcileError (Compiled H T) × S.World
      → Result ReconcileError (Unit {0}) × S.World
  reconcile_with trigger target (err e, w) = (err e, w)
  reconcile_with trigger target (ok compiled, w) =
      reconcile_history compiled trigger target (S.load w)

  unfoldable pub reconcile : Trigger → String → S.World → Result ReconcileError (Unit {0}) × S.World
  unfolding reconcile_with
  reconcile trigger target w =
      if is_action trigger && target == ""
      then (err no_target, w)
      else reconcile_with trigger target (current_config w)
