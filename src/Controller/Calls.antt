-- ===== src/Controller/Calls.antt =====
-- Which calls internal/controller/controller.go makes while it visits the tabs.
use herdr_tabline.Base.{
  ◌≡◌, ◌≢◌, refl, String, true, false, some, List, [], ◌∷◌, Some, here, there, arith,
}
use herdr_tabline.Base.{◌⊎◌, inl, inr, ◌==◌, string_eq, Bool-cases, Option-cases}
use herdr_tabline.Base.Result.{Result, ok, err}
use herdr_tabline.Api.{ProcessInfo}
use herdr_tabline.Model.{Context, History}
use herdr_tabline.Collector.Processes.{attach_process}
use herdr_tabline.Render.Width.{Graphemes}
use herdr_tabline.Render.Width.Bounds.{IsLawful}
use herdr_tabline.Render.Engine.{Templates, RenderError, execute}
use herdr_tabline.Render.Engine.Labels.{IsFit, execute-IsFit}
use herdr_tabline.Config.Types.{Host, Compiled}
use herdr_tabline.Config.Resolve.{resolve}
use herdr_tabline.Controller.{
  Trigger, Services, ReconcileError, Passed, eligible, skips, renamed, apply_label,
  render_and_rename, attached, with_process, reconcile_tab, observe, visit, proceed, visit_all,
}
use herdr_tabline.Controller.Settling.{attached-world, record_written-world}

module _ (G : Graphemes) (H : Host) (T : Templates) (S : Services H T) where
  -- The calls from one world to another: any number of questions for processes and of renames, the
  -- renames of allowed tabs to allowed labels.
  pub data Calls (Allowed : String → String → Type 0) : S.World → S.World → Type 0 where
    done : {w : S.World} → Calls Allowed w w
    asked :
        {w v : S.World} (pane : String)
        → Calls Allowed (S.process_info pane w).1 v
        → Calls Allowed w v
    renamed_to :
        {w v : S.World} (tab label : String)
        → Allowed tab label
        → Calls Allowed (S.rename_tab tab label w).1 v
        → Calls Allowed w v

  Calls-trans :
      {Allowed : String → String → Type 0} {u v w : S.World}
      → Calls Allowed u v
      → Calls Allowed v w
      → Calls Allowed u w
  Calls-trans done k = k
  Calls-trans (asked pane h) k = asked pane (Calls-trans h k)
  Calls-trans (renamed_to tab label a h) k = renamed_to tab label a (Calls-trans h k)

  -- The context that a tab is rendered from: its own, or that with its process.
  abbrev pub Rendered : Context → Context → Type 0
  Rendered ctx seen = (seen ≡ ctx) ⊎ ((info : ProcessInfo) × (seen ≡ attach_process ctx info))

  Rendered-tab : (ctx seen : Context) → Rendered ctx seen → seen.tab ≡ ctx.tab
  unfolding attach_process
  Rendered-tab ctx seen (inl e) = ground arith
  Rendered-tab ctx seen (inr (info, e)) = ground arith

  -- What a rename of a tab may be, in a pass with a trigger: of the tab itself, which an action does
  -- not pass over and whose mode is eligible once the process is known, to a label that the server
  -- does not show and that fits the configured ceiling.
  pub record IsDue (compiled : Compiled H T) (trigger : Trigger) (target : String) (ctx : Context)
      (tab label : String) : Type 0 where
    pub same_tab : tab ≡ ctx.tab.id
    pub not_skipped : skips trigger target ctx ≡ false
    pub differs : label ≢ ctx.tab.current_label
    pub seen : Context
    pub seen_from : Rendered ctx seen
    pub is_eligible : eligible (resolve H T compiled seen).mode trigger ≡ true
    pub fit : IsFit G (resolve H T compiled seen).max_width label

  module _ (L : IsLawful G) (trigger : Trigger) (target : String) where
    renamed-world :
        (history : History) (ctx : Context) (desired : String)
        (r : Result String (Unit {0}) × S.World)
        → (renamed G H T S history ctx desired r).1 ≡ r.1
    unfolding renamed
    renamed-world history ctx desired (err e, w) = refl
    renamed-world history ctx desired (ok u, w) = refl

    apply_label-Calls :
        {Allowed : String → String → Type 0} (history : History) (ctx : Context)
        (label : Result RenderError String) (w : S.World)
        → ((text : String)
            → label ≡ ok text
            → text ≢ ctx.tab.current_label
            → Allowed ctx.tab.id text)
        → Calls Allowed w (apply_label G H T S history ctx label w).1
    unfolding apply_label
    apply_label-Calls history ctx (err e) w allow = done
    apply_label-Calls history ctx (ok desired) w allow =
        elim (Bool-cases (desired == ctx.tab.current_label)) [
          | inl same ↦ rw same done
          | inr other ↦
              rw (other, renamed-world history ctx desired (S.rename_tab ctx.tab.id desired w))
                (renamed_to ctx.tab.id desired (allow desired refl (ground arith)) done)
        ]

    render_and_rename-Calls :
        {Allowed : String → String → Type 0} (compiled : Compiled H T) (history : History)
        (start : Context) (r : Result ReconcileError Context × S.World)
        → ((ctx : Context) → r.0 ≡ ok ctx → Rendered start ctx)
        → skips trigger target start ≡ false
        → ((tab text : String) → IsDue compiled trigger target start tab text → Allowed tab text)
        → Calls Allowed r.1 (render_and_rename G H T S compiled trigger history r).1
    unfolding render_and_rename
    render_and_rename-Calls compiled history start (err e, w) same met allow = done
    render_and_rename-Calls compiled history start (ok ctx, w) same met allow =
        let effective = resolve H T compiled ctx in
        let profiled : Context = record ctx { profile = effective.profile_name } in
        let e : ctx.tab ≡ start.tab = Rendered-tab start ctx (same ctx refl) in
        elim (Bool-cases (eligible effective.mode trigger)) [
          | inr off ↦ rw off done
          | inl on ↦ rw on (
              apply_label-Calls history profiled
                (execute G T (some effective.template) profiled effective.max_width) w
                (λ text shown other. allow ctx.tab.id text (record {
                  same_tab = ground arith;
                  not_skipped = met;
                  differs = ground arith;
                  seen = ctx;
                  seen_from = same ctx refl;
                  is_eligible = on;
                  fit =
                      execute-IsFit G L T (some effective.template) profiled effective.max_width
                        text shown;
                })))
        ]

    with_process-Calls :
        {Allowed : String → String → Type 0} (ctx : Context) (w : S.World)
        → Calls Allowed w (with_process G H T S ctx w).1
    unfolding with_process
    with_process-Calls ctx w = elim (Bool-cases (ctx.pane.id == "")) [
      | inl nowhere ↦ rw nowhere done
      | inr shown ↦
          rw (shown, attached-world G H T S ctx (S.process_info ctx.pane.id w))
            (asked ctx.pane.id done)
    ]

    attached-Rendered :
        (start : Context) (r : Result String ProcessInfo × S.World) (ctx : Context)
        → (attached G H T S start r).0 ≡ ok ctx
        → Rendered start ctx
    unfolding attached
    attached-Rendered start (err e, w) ctx h = cc
    attached-Rendered start (ok info, w) ctx h = inr (info, ground arith)

    with_process-Rendered :
        (start : Context) (w : S.World) (ctx : Context)
        → (with_process G H T S start w).0 ≡ ok ctx
        → Rendered start ctx
    unfolding with_process
    with_process-Rendered start w ctx h = elim (Bool-cases (start.pane.id == "")) [
      | inl nowhere ↦ inl (ground arith)
      | inr shown ↦ attached-Rendered start (S.process_info start.pane.id w) ctx (rw shown at h)
    ]

    reconcile_tab-Calls :
        {Allowed : String → String → Type 0} (compiled : Compiled H T) (ctx : Context)
        (history : History) (w : S.World)
        → skips trigger target ctx ≡ false
        → ((tab text : String) → IsDue compiled trigger target ctx tab text → Allowed tab text)
        → Calls Allowed w (reconcile_tab G H T S compiled trigger ctx history w).1
    unfolding reconcile_tab
    reconcile_tab-Calls compiled ctx history w met allow =
        elim (Bool-cases (eligible (resolve H T compiled ctx).mode trigger)) [
          | inr off ↦ rw off done
          | inl on ↦ rw on (
              Calls-trans (with_process-Calls ctx w) (
                render_and_rename-Calls compiled history ctx (with_process G H T S ctx w)
                  (with_process-Rendered ctx w) met allow))
        ]

    visit-Calls :
        {Allowed : String → String → Type 0} (compiled : Compiled H T) (history : History)
        (ctx : Context) (passed : Passed) (w : S.World)
        → ((tab text : String) → IsDue compiled trigger target ctx tab text → Allowed tab text)
        → Calls Allowed w (visit G H T S compiled trigger target history ctx passed w).1
    unfolding visit
    visit-Calls compiled history ctx passed w allow = elim (Bool-cases (skips trigger target ctx)) [
      | inl skipped ↦ rw skipped done
      | inr met ↦ elim (Option-cases (S.ctx_err w)) [
        | inr (e, stopped) ↦ rw (met, stopped) done
        | inl going ↦
            rw (met, going, record_written-world G H T S (observe history ctx passed) ctx.tab.id _)
              (reconcile_tab-Calls compiled ctx history w met allow)
      ]
    ]

    visit_all-Calls_of :
        {Allowed : String → String → Type 0} (compiled : Compiled H T) (history : History)
        (ctxs : List Context) (passed : Passed) (w : S.World)
        → ((tab text : String)
            → Some (λ ctx. IsDue compiled trigger target ctx tab text) ctxs
            → Allowed tab text)
        → Calls Allowed w (visit_all G H T S compiled trigger target history ctxs passed w).1
    unfolding visit_all
    visit_all-Calls_of compiled history [] passed w allow = done
    visit_all-Calls_of {Allowed = Allowed} compiled history (ctx ∷ ctxs) passed w allow =
        let first =
          visit-Calls compiled history ctx passed w (λ tab text due. allow tab text (here due)) in
        go (visit G H T S compiled trigger target history ctx passed w) first (λ more v.
          visit_all-Calls_of compiled history ctxs more v
            (λ tab text due. allow tab text (there due)))
      where
        go :
            (r : Result ReconcileError Passed × S.World)
            → Calls Allowed w r.1
            → ((more : Passed) (v : S.World)
                → Calls Allowed v (visit_all G H T S compiled trigger target history ctxs more v).1)
            → Calls Allowed w
                (proceed G H T S
                  (λ more v. visit_all G H T S compiled trigger target history ctxs more v)
                  r).1
        go (err e, v) k rest = k
        go (ok more, v) k rest = Calls-trans k (rest more v)

    -- For every lawful segmentation, configuration, trigger, target, history, list of contexts and
    -- world: what the loop does to the world is a sequence of questions for processes and of renames. Each
    -- rename is of a tab with a context in the list, under an action of the target only; it is
    -- eligible by the mode that the configuration gives the tab's context, or that with a process
    -- attached; and the new label is not the one of the context, has no control character and is no
    -- wider than the ceiling that the configuration gives there.
    pub visit_all-Calls :
        (compiled : Compiled H T) (history : History) (ctxs : List Context) (passed : Passed)
        (w : S.World)
        → Calls
            (λ tab text. Some (λ ctx. IsDue compiled trigger target ctx tab text) ctxs)
            w
            (visit_all G H T S compiled trigger target history ctxs passed w).1
    visit_all-Calls compiled history ctxs passed w =
        visit_all-Calls_of compiled history ctxs passed w (λ tab text due. due)
