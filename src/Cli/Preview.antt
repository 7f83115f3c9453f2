-- ===== src/Cli/Preview.antt =====
-- internal/cli/app.go's `preview`: the label that a tab would be given, shown and not applied.
pub mod Labels
use herdr_tabline.Base.{
  ℕ, String, Bool, true, false, Option, none, some, List, [], ◌∷◌, ◌==◌, string_eq, if◌then◌else◌,
}
use herdr_tabline.Base.Result.{Result, ok, err}
use herdr_tabline.Api.{Snapshot, ProcessInfo}
use herdr_tabline.Model.{Context, History}
use herdr_tabline.Collector.Build.{build}
use herdr_tabline.Collector.Processes.{attach_process}
use herdr_tabline.Render.Width.{Graphemes}
use herdr_tabline.Render.Engine.{Templates, execute}
use herdr_tabline.Config.Types.{Mode, Host, Compiled}
use herdr_tabline.Config.Resolve.{resolve}
use herdr_tabline.Controller.{Services}
use herdr_tabline.Cli.{
  Env, CliError, snapshot_failed, tab_absent, history_failed, process_info_failed, render_failed,
  and_then, wrapped, require, three_names, resolve_tab_id,
}

-- The fields of the report.
pub record Shown : Type 0 where
  pub profile : String
  pub mode : Mode
  pub tab : String
  pub workspace : String
  pub pane : String
  pub label : String

module _ (G : Graphemes) (H : Host) (T : Templates) (S : Services H T) where
  abbrev attached :
      Context → Result String ProcessInfo × S.World → Result CliError Context × S.World
  attached ctx (err e, w) = (err (process_info_failed ctx.pane.id e), w)
  attached ctx (ok info, w) = (ok (attach_process ctx info), w)

  abbrev preview_process : Context → S.World → Result CliError Context × S.World
  preview_process ctx w =
      if ctx.pane.id == "" then (ok ctx, w) else attached ctx (S.process_info ctx.pane.id w)

  abbrev preview_label : Compiled H T → Context → S.World → Result CliError Shown × S.World
  preview_label compiled ctx w =
      let effective = resolve H T compiled ctx in
      let profiled = record ctx { profile = effective.profile_name } in
      elim (execute G T (some effective.template) profiled effective.max_width) [
        | err e ↦ (err (render_failed e), w)
        | ok label ↦ (
          ok (record {
            profile = effective.profile_name;
            mode = effective.mode;
            tab = ctx.tab.id;
            workspace = ctx.workspace.label;
            pane = ctx.pane.id;
            label = label;
          }),
          w,
        )
      ]

  -- The body of the loop, for the tab that is looked for.
  unfoldable pub preview_tab : Compiled H T → Context → S.World → Result CliError Shown × S.World
  preview_tab compiled ctx w = and_then (preview_process ctx w) (preview_label compiled)

  unfoldable pub preview_first :
      Compiled H T → String → List Context → S.World → Result CliError Shown × S.World
  preview_first compiled id [] w = (err (tab_absent id), w)
  preview_first compiled id (ctx ∷ ctxs) w =
      let rest = preview_first compiled id ctxs w in
      if ctx.tab.id == id then preview_tab compiled ctx w else rest

  abbrev preview_built :
      Compiled H T → String → Snapshot → History → S.World → Result CliError Shown × S.World
  preview_built compiled id snapshot history w =
      let (now, w') = S.now w in preview_first compiled id (build snapshot history now) w'

  -- `preview`, with `load` and the decoding of the context.
  unfoldable pub preview :
      (S.World → Result CliError (Compiled H T) × S.World)
      → (String → Result String (Option String))
      → Env
      → S.World
      → Result CliError Shown × S.World
  preview load decode env w =
      and_then (require env three_names, w)
        (λ _ w0. and_then (load w0) (λ compiled w1.
          and_then (resolve_tab_id decode G H T S env w1) (λ id w2.
            and_then (wrapped snapshot_failed (S.snapshot w2)) (λ snapshot w3.
              and_then (wrapped history_failed (S.load w3))
                (λ history w4. preview_built compiled id snapshot history w4)))))
