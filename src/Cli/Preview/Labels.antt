-- ===== src/Cli/Preview/Labels.antt =====
-- What `preview` of internal/cli/app.go shows is what a pass would do.
use herdr_tabline.Base.{
  inl, inr, ℕ, ◌≡◌, ◌≢◌, refl, ◌∙◌, arith, String, true, false, Option, List, [], ◌∷◌, ◌==◌,
  string_eq, Bool-cases,
}
use herdr_tabline.Base.Result.{Result, ok, err}
use herdr_tabline.Model.{Context, History, zero_history}
use herdr_tabline.Collector.Processes.{attach_process}
use herdr_tabline.Render.Width.{Graphemes}
use herdr_tabline.Render.Engine.{Templates}
use herdr_tabline.Config.Types.{Host, Compiled}
use herdr_tabline.Config.Resolve.{resolve}
use herdr_tabline.Controller.{
  Trigger, Services, eligible, source_label_for, apply_label, render_and_rename, with_process,
  reconcile_tab,
}
use herdr_tabline.Api.{Snapshot}
use herdr_tabline.Collector.Build.{build}
use herdr_tabline.Cli.{
  Env, CliError, snapshot_failed, history_failed, and_then, wrapped, require, three_names,
  resolve_tab_id,
}
use herdr_tabline.Cli.Preview.{preview, Shown, preview_tab, preview_first}

and_then-ok {ℓ} :
    {W A B : Type ℓ} (r : Result CliError A × W) (k : A → W → Result CliError B × W) {b : B} {v : W}
    → and_then r k ≡ (ok b, v)
    → (a : A) × (w : W) × (r ≡ (ok a, w)) × (k a w ≡ (ok b, v))
and_then-ok (err e, w) k h = cc
and_then-ok (ok a, w) k h = (a, w, refl, h)

wrapped-ok {ℓ} :
    {W A E : Type ℓ} (f : E → CliError) (r : Result E A × W) {a : A} {w : W}
    → wrapped f r ≡ (ok a, w)
    → r ≡ (ok a, w)
wrapped-ok f (err e, w) h = cc
wrapped-ok f (ok a, w) h = ground arith

module _ (G : Graphemes) (H : Host) (T : Templates) (S : Services H T) where
  -- For every configuration, trigger, tab, history and world: where `preview` shows a label for the
  -- tab, and both the mode that is resolved without the process and the shown one admit the trigger, a
  -- pass over the tab in that world does with that label what it does with a rendered one, after
  -- the same calls: it keeps the tab where it has the label, and renames it to the label where not.
  pub preview_tab-reconcile_tab :
      (compiled : Compiled H T) (trigger : Trigger) (ctx : Context) (history : History)
      (w v : S.World) (shown : Shown)
      → preview_tab G H T S compiled ctx w ≡ (ok shown, v)
      → eligible (resolve H T compiled ctx).mode trigger ≡ true
      → eligible shown.mode trigger ≡ true
      → reconcile_tab G H T S compiled trigger ctx history w
        ≡ apply_label G H T S history ctx (ok shown.label) v
  unfolding preview_tab reconcile_tab with_process render_and_rename apply_label source_label_for
      attach_process
  preview_tab-reconcile_tab compiled trigger ctx history w v shown h first second = ground arith

  -- A tab whose mode does not admit the trigger before its process is known is left alone, also
  -- where `preview` shows a label for it and a mode that does.
  reconcile_tab-ineligible :
      (compiled : Compiled H T) (trigger : Trigger) (ctx : Context) (history : History)
      (w : S.World)
      → eligible (resolve H T compiled ctx).mode trigger ≡ false
      → reconcile_tab G H T S compiled trigger ctx history w ≡ (ok (false, zero_history), w)
  unfolding reconcile_tab
  reconcile_tab-ineligible compiled trigger ctx history w h = rw h refl

  preview_tab-tab :
      (compiled : Compiled H T) (ctx : Context) (w v : S.World) (shown : Shown)
      → preview_tab G H T S compiled ctx w ≡ (ok shown, v)
      → shown.tab ≡ ctx.tab.id
  unfolding preview_tab attach_process
  preview_tab-tab compiled ctx w v shown h = ground arith

  -- The first context of the tab.
  pub data IsFirst (id : String) (ctx : Context) : List Context → Type 0 where
    here : {ctxs : List Context} → ctx.tab.id ≡ id → IsFirst id ctx (ctx ∷ ctxs)
    there :
        {other : Context} {ctxs : List Context}
        → other.tab.id ≢ id
        → IsFirst id ctx ctxs
        → IsFirst id ctx (other ∷ ctxs)

  IsFirst-id :
      {id : String} {ctx : Context} {ctxs : List Context} → IsFirst id ctx ctxs → ctx.tab.id ≡ id
  IsFirst-id (here e) = e
  IsFirst-id (there e first) = IsFirst-id first

  preview_first-ok :
      (compiled : Compiled H T) (id : String) (ctxs : List Context) (w v : S.World) (shown : Shown)
      → preview_first G H T S compiled id ctxs w ≡ (ok shown, v)
      → (ctx : Context) × IsFirst id ctx ctxs × (preview_tab G H T S compiled ctx w ≡ (ok shown, v))
  unfolding preview_first
  preview_first-ok compiled id [] w v shown h = ground arith
  preview_first-ok compiled id (ctx ∷ ctxs) w v shown h = elim (Bool-cases (ctx.tab.id == id)) [
    | inl same ↦ (ctx, here (ground arith), ground arith)
    | inr other ↦
        let (found, first, shows) = preview_first-ok compiled id ctxs w v shown (ground arith) in
        (found, there (ground arith) first, shows)
  ]

  -- For every reading of the configuration, decoding, environment, services and world: where `preview`
  -- succeeds, it resolved a tab id as `rename-current` does, the configuration, the snapshot and
  -- the history were read, and its report is that of the snapshot's first tab with this id.
  pub preview-IsFirst :
      (load : S.World → Result CliError (Compiled H T) × S.World)
      (decode : String → Result String (Option String)) (env : Env) (w v : S.World) (shown : Shown)
      → preview G H T S load decode env w ≡ (ok shown, v)
      → (id : String) × (compiled : Compiled H T) × (snapshot : Snapshot) × (history : History)
        × (now : ℕ) × (ctx : Context) × (start : S.World) × ((resolve_tab_id decode G H T S env
              (load w).1).0
            ≡ ok id)
        × ((load w).0 ≡ ok compiled)
        × ((S.snapshot (resolve_tab_id decode G H T S env (load w).1).1).0 ≡ ok snapshot)
        × ((S.load (S.snapshot (resolve_tab_id decode G H T S env (load w).1).1).1).0 ≡ ok history)
        × (shown.tab ≡ id)
        × IsFirst id ctx (build snapshot history now)
        × (preview_tab G H T S compiled ctx start ≡ (ok shown, v))
  unfolding preview
  preview-IsFirst load decode env w v shown h =
      let (_, w0, e0, h0) = and_then-ok (require env three_names, w) _ h in
      let (compiled, w1, e1, h1) = and_then-ok (load w0) _ h0 in
      let (id, w2, e2, h2) = and_then-ok (resolve_tab_id decode G H T S env w1) _ h1 in
      let (snapshot, w3, e3, h3) = and_then-ok (wrapped snapshot_failed (S.snapshot w2)) _ h2 in
      let (history, w4, e4, h4) = and_then-ok (wrapped history_failed (S.load w3)) _ h3 in
      let (ctx, first, shows) =
        preview_first-ok compiled id (build snapshot history (S.now w4).0) (S.now w4).1 v shown
          h4 in
      (
        id,
        compiled,
        snapshot,
        history,
        (S.now w4).0,
        ctx,
        (S.now w4).1,
        ground arith,
        ground arith,
        ground arith,
        ground arith,
        preview_tab-tab compiled ctx (S.now w4).1 v shown shows ∙ IsFirst-id first,
        first,
        shows,
      )
