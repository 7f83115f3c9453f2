-- ===== src/Controller/Settling/Repeats.antt =====
-- A second pass of internal/controller/controller.go's loop over a session that only it has changed.
use mathlib.Core.Path.{subst}
use herdr_tabline.Base.{
  ◌≡◌, sym, ◌∙◌, ◌⊎◌, inl, inr, String, Bool, false, List, [], ◌∷◌, All, ◌==◌, string_eq,
  Bool-cases, Option-cases,
}
use herdr_tabline.Base.Result.{Result, ok, err}
use herdr_tabline.Model.{Context, LabelHistory, History, zero_history}
use herdr_tabline.Render.Width.{Graphemes}
use herdr_tabline.Render.Engine.{Templates}
use herdr_tabline.Config.Types.{Host, Compiled}
use herdr_tabline.Config.Resolve.{resolve}
use herdr_tabline.Controller.{
  Trigger, Services, ReconcileError, Passed, eligible, skips, observe, with_process, reconcile_tab,
  visit, visit_all, proceed,
}
use herdr_tabline.Controller.Sources.{with_process-tab}
use herdr_tabline.Controller.Settling.{
  Sight, seen_again, IsBlind, shown_after, Renders, render_and_rename-Renders,
  render_and_rename-seen_again, resolve-seen_again, with_process-asked, record_written-world,
  attached-world,
}

module _ (G : Graphemes) (H : Host) (T : Templates) (S : Services H T) where
  -- No change, and at most the question for the process of the tab's pane.
  abbrev pub IsLeft :
      Context → S.World → Result ReconcileError (Bool × LabelHistory) × S.World → Type 0
  IsLeft ctx v r =
      (r ≡ (ok (false, zero_history), v))
      ⊎ (r ≡ (ok (false, zero_history), (with_process G H T S ctx v).1))

  shown_after-same :
      (seen ctx : Context) (outcome : Bool × LabelHistory)
      → seen.tab.current_label ≡ ctx.tab.current_label
      → shown_after G H T S seen outcome ≡ shown_after G H T S ctx outcome
  shown_after-same seen ctx (renamed_it, entry) same = rw same

  -- For every configuration, trigger, context, histories and worlds: where the reconciliation of a tab reports no error,
  -- renamed or not, the same tab at a later look, which shows the new label if there is one and else
  -- the one it had, is left alone in any world that gives the same answer to the question for its
  -- pane's process: no change is reported, and nothing but that question is asked. The condition is that no template
  -- that the configuration may choose depends on the label shown, the label written or the time.
  pub reconcile_tab-IsLeft :
      (compiled : Compiled H T) (trigger : Trigger) (ctx : Context) (history later : History)
      (w v : S.World) (outcome : Bool × LabelHistory) (sight : Sight)
      → ((seen : Context) → IsBlind T (resolve H T compiled seen).template.parsed)
      → (S.process_info ctx.pane.id v).0 ≡ (S.process_info ctx.pane.id w).0
      → (reconcile_tab G H T S compiled trigger ctx history w).0 ≡ ok outcome
      → sight.shown ≡ shown_after G H T S ctx outcome
      → IsLeft ctx v (reconcile_tab G H T S compiled trigger (seen_again sight ctx) later v)
  unfolding reconcile_tab
  reconcile_tab-IsLeft compiled trigger ctx history later w v outcome sight blind same h shown =
      elim (Bool-cases (eligible (resolve H T compiled ctx).mode trigger)) [
        | inr off ↦ inl (rw (resolve-seen_again H T compiled sight ctx, off))
        | inl on ↦
            let (seen, met, renders) =
              render_and_rename-Renders G H T S compiled trigger history
                (with_process G H T S ctx w) outcome.0 outcome.1 (rw on at h) in
            let (same_id, same_label) = with_process-tab G H T S ctx w seen met in
            let renders' : Renders G H T S compiled trigger sight.shown seen =
              subst (λ label. Renders G H T S compiled trigger label seen)
                (shown_after-same seen ctx outcome same_label ∙ sym shown) renders in
            inr (
              rw
                (
                  resolve-seen_again H T compiled sight ctx,
                  on,
                  with_process-asked G H T S ctx seen sight w v same met,
                )
                (render_and_rename-seen_again G H T S compiled trigger later seen _ sight
                  (blind seen) renders'))
      ]

  -- The calls from one world to another: any number of questions for processes, and no other.
  pub data Asks : S.World → S.World → Type 0 where
    done : {w : S.World} → Asks w w
    asked : {w v : S.World} (pane : String) → Asks (S.process_info pane w).1 v → Asks w v

  Asks-trans : {u v w : S.World} → Asks u v → Asks v w → Asks u w
  Asks-trans done k = k
  Asks-trans (asked pane h) k = asked pane (Asks-trans h k)

  with_process-Asks : (ctx : Context) (w : S.World) → Asks w (with_process G H T S ctx w).1
  unfolding with_process
  with_process-Asks ctx w = elim (Bool-cases (ctx.pane.id == "")) [
    | inl nowhere ↦ rw nowhere done
    | inr shown ↦
        rw (shown, attached-world G H T S ctx (S.process_info ctx.pane.id w))
          (asked ctx.pane.id done)
  ]

  IsLeft-Asks :
      (ctx : Context) (v : S.World) (r : Result ReconcileError (Bool × LabelHistory) × S.World)
      → IsLeft ctx v r
      → Asks v r.1
  IsLeft-Asks ctx v r (inl e) = rw e done
  IsLeft-Asks ctx v r (inr e) = rw e (with_process-Asks ctx v)

  -- A context of a tab that was reconciled before without an error, with the label that it was left with,
  -- and a pane whose process is the same in every world.
  pub record Settled (compiled : Compiled H T) (trigger : Trigger) (ctx : Context) : Type 0 where
    pub before : Context
    pub history : History
    pub world : S.World
    pub outcome : Bool × LabelHistory
    pub reconciled : (reconcile_tab G H T S compiled trigger before history world).0 ≡ ok outcome
    pub sight : Sight
    pub again : ctx ≡ seen_again sight before
    pub shown : sight.shown ≡ shown_after G H T S before outcome
    pub same_process :
        (v : S.World)
        → (S.process_info before.pane.id v).0 ≡ (S.process_info before.pane.id world).0

  module _ (compiled : Compiled H T) (trigger : Trigger) (target : String)
      (blind : (seen : Context) → IsBlind T (resolve H T compiled seen).template.parsed) where
    reconcile_tab-Asks :
        (history : History) (ctx : Context) (w : S.World)
        → Settled compiled trigger ctx
        → Asks w (reconcile_tab G H T S compiled trigger ctx history w).1
    reconcile_tab-Asks history ctx w s = rw (s.again) (
        IsLeft-Asks s.before w _ (
          reconcile_tab-IsLeft compiled trigger s.before s.history history s.world w s.outcome
            s.sight blind (s.same_process w) s.reconciled s.shown))

    visit-Asks :
        (history : History) (ctx : Context) (passed : Passed) (w : S.World)
        → Settled compiled trigger ctx
        → Asks w (visit G H T S compiled trigger target history ctx passed w).1
    unfolding visit
    visit-Asks history ctx passed w s = elim (Bool-cases (skips trigger target ctx)) [
      | inl skipped ↦ rw skipped done
      | inr met ↦ elim (Option-cases (S.ctx_err w)) [
        | inr (e, stopped) ↦ rw (met, stopped) done
        | inl going ↦
            rw (met, going, record_written-world G H T S (observe history ctx passed) ctx.tab.id _)
              (reconcile_tab-Asks history ctx w s)
      ]
    ]

    proceed-Asks :
        (rest : Passed → S.World → Result ReconcileError Passed × S.World) (w : S.World)
        (r : Result ReconcileError Passed × S.World)
        → Asks w r.1
        → ((more : Passed) (v : S.World) → Asks v (rest more v).1)
        → Asks w (proceed G H T S rest r).1
    proceed-Asks rest w (err e, v) k more = k
    proceed-Asks rest w (ok passed, v) k more = Asks-trans k (more passed v)

    -- For every configuration, trigger, target, history and world: where each context in the list is that of a tab which
    -- was reconciled before without an error, shows the label that it was left with, and has a pane with
    -- the same process in every world, the loop over the contexts renames nothing: all that it does is to ask for processes. The
    -- condition is that no template that the configuration may choose depends on the label shown, the label
    -- written or the time.
    pub visit_all-Asks :
        (history : History) (ctxs : List Context) (passed : Passed) (w : S.World)
        → All (λ ctx. Settled compiled trigger ctx) ctxs
        → Asks w (visit_all G H T S compiled trigger target history ctxs passed w).1
    unfolding visit_all
    visit_all-Asks history [] passed w all = done
    visit_all-Asks history (ctx ∷ ctxs) passed w all =
        proceed-Asks (λ more v. visit_all G H T S compiled trigger target history ctxs more v) w
          (visit G H T S compiled trigger target history ctx passed w)
          (visit-Asks history ctx passed w all.0)
          (λ more v. visit_all-Asks history ctxs more v all.1)
