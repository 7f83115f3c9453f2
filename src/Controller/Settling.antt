-- ===== src/Controller/Settling.antt =====
-- What internal/controller/controller.go makes of a tab at a later look, when only the label that it shows,
-- the label that was written, and the time have changed.
pub mod Repeats
pub mod Snapshots
pub mod Notes
use herdr_tabline.Base.{ℕ, ◌≡◌, refl, ◌∙◌, String, true, false, some, List, [], ◌∷◌, arith}
use herdr_tabline.Base.{inl, inr, ◌⊎◌, Bool, if◌then◌else◌, ◌==◌, string_eq, Bool-cases}
use herdr_tabline.Base.Int.{ℤ}
use herdr_tabline.Base.Result.{Result, ok, err}
use herdr_tabline.Api.{ProcessInfo}
use herdr_tabline.Model.{Context, LabelHistory, History, zero_history}
use herdr_tabline.Collector.Processes.{attach_process}
use herdr_tabline.Render.Width.{Graphemes}
use herdr_tabline.Render.Engine.{Templates, Template, RenderError, execute}
use herdr_tabline.Config.Types.{Host, Effective, CompiledMatch, CompiledProfile, Compiled}
use herdr_tabline.Config.Matching.{matches}
use herdr_tabline.Config.Resolve.{apply_profile, apply_profiles, resolve}
use herdr_tabline.Controller.{
  Trigger, Services, ReconcileError, eligible, renamed, apply_label, render_and_rename, attached,
  with_process, reconcile_tab, Passed, record_written,
}

-- What a later look at a tab may show anew: its label, the label that was recorded as written, and
-- the time.
pub record Sight : Type 0 where
  pub shown : String
  pub rendered : String
  pub now : ℕ

-- The context of a tab at a later look: the source label stays.
abbrev pub seen_again : Sight → Context → Context
seen_again sight ctx = record ctx {
  tab = record (ctx.tab) { current_label = sight.shown; rendered_label = sight.rendered };
  now = sight.now;
}

-- A program that gives the same for a tab whatever label the tab shows, and whenever.
abbrev pub IsBlind : (T : Templates) → T.Program → Type 0
IsBlind T program =
    (sight : Sight) (ctx : Context) → T.run program (seen_again sight ctx) ≡ T.run program ctx

module _ (H : Host) (T : Templates) where
  matches-seen_again :
      (m : CompiledMatch H) (sight : Sight) (ctx : Context)
      → matches H m (seen_again sight ctx) ≡ matches H m ctx
  unfolding matches
  matches-seen_again m sight ctx = refl

  apply_profile-seen_again :
      (sight : Sight) (ctx : Context) (profile : CompiledProfile H T) (effective : Effective T)
      → apply_profile H T (seen_again sight ctx) profile effective
        ≡ apply_profile H T ctx profile effective
  unfolding apply_profile
  apply_profile-seen_again sight ctx profile effective =
      rw (matches-seen_again profile.match sight ctx)

  apply_profiles-seen_again :
      (sight : Sight) (ctx : Context) (profiles : List (CompiledProfile H T))
      (effective : Effective T)
      → apply_profiles H T (seen_again sight ctx) profiles effective
        ≡ apply_profiles H T ctx profiles effective
  unfolding apply_profiles
  apply_profiles-seen_again sight ctx [] effective = refl
  apply_profiles-seen_again sight ctx (profile ∷ profiles) effective =
      rw (apply_profile-seen_again sight ctx profile effective)
        (apply_profiles-seen_again sight ctx profiles _)

  pub resolve-seen_again :
      (compiled : Compiled H T) (sight : Sight) (ctx : Context)
      → resolve H T compiled (seen_again sight ctx) ≡ resolve H T compiled ctx
  unfolding resolve
  resolve-seen_again compiled sight ctx = apply_profiles-seen_again sight ctx compiled.profiles _

  attach_process-seen_again :
      (sight : Sight) (ctx : Context) (info : ProcessInfo)
      → attach_process (seen_again sight ctx) info ≡ seen_again sight (attach_process ctx info)
  unfolding attach_process
  attach_process-seen_again sight ctx info = refl

  execute-seen_again :
      (G : Graphemes) (tpl : Template T) (sight : Sight) (ctx : Context) (max_width : ℤ)
      → IsBlind T tpl.parsed
      → execute G T (some tpl) (seen_again sight ctx) max_width
        ≡ execute G T (some tpl) ctx max_width
  unfolding execute
  execute-seen_again G tpl sight ctx max_width blind = rw (blind sight ctx)

module _ (G : Graphemes) (H : Host) (T : Templates) (S : Services H T) where
  -- The label that a tab shows behind an outcome without an error.
  abbrev pub shown_after : Context → Bool × LabelHistory → String
  shown_after ctx (renamed_it, entry) =
      if renamed_it then entry.rendered_label else ctx.tab.current_label

  apply_label-shown_after :
      (history : History) (ctx : Context) (label : Result RenderError String) (w : S.World)
      (renamed_it : Bool) (entry : LabelHistory)
      → (apply_label G H T S history ctx label w).0 ≡ ok (renamed_it, entry)
      → label ≡ ok (shown_after ctx (renamed_it, entry))
  unfolding apply_label renamed
  apply_label-shown_after history ctx (err e) w renamed_it entry h = cc
  apply_label-shown_after history ctx (ok desired) w renamed_it entry h = ground arith

  -- A context, with its process, that is not eligible or that renders a label.
  abbrev pub Renders : Compiled H T → Trigger → String → Context → Type 0
  Renders compiled trigger label seen =
      (eligible (resolve H T compiled seen).mode trigger ≡ false)
      ⊎ ((eligible (resolve H T compiled seen).mode trigger ≡ true)
          × (execute G T (some (resolve H T compiled seen).template)
                (record seen { profile = (resolve H T compiled seen).profile_name })
                (resolve H T compiled seen).max_width
              ≡ ok label))

  pub render_and_rename-Renders :
      (compiled : Compiled H T) (trigger : Trigger) (history : History)
      (r : Result ReconcileError Context × S.World) (renamed_it : Bool) (entry : LabelHistory)
      → (render_and_rename G H T S compiled trigger history r).0 ≡ ok (renamed_it, entry)
      → (seen : Context) × (r.0 ≡ ok seen)
        × Renders compiled trigger (shown_after seen (renamed_it, entry)) seen
  unfolding render_and_rename
  render_and_rename-Renders compiled trigger history (err e, w) renamed_it entry h = cc
  render_and_rename-Renders compiled trigger history (ok seen, w) renamed_it entry h =
      let effective = resolve H T compiled seen in
      let profiled : Context = record seen { profile = effective.profile_name } in
      elim (Bool-cases (eligible effective.mode trigger)) [
        | inl on ↦ (
          seen,
          refl,
          inr (on, apply_label-shown_after history profiled _ w renamed_it entry (rw on at h)),
        )
        | inr off ↦ (seen, refl, inl off)
      ]

  apply_label-same :
      (history : History) (ctx : Context) (w : S.World)
      → apply_label G H T S history ctx (ok ctx.tab.current_label) w ≡ (ok (false, zero_history), w)
  unfolding apply_label
  apply_label-same history ctx w = ground arith

  pub render_and_rename-seen_again :
      (compiled : Compiled H T) (trigger : Trigger) (history : History) (seen : Context)
      (w : S.World) (sight : Sight)
      → IsBlind T (resolve H T compiled seen).template.parsed
      → Renders compiled trigger sight.shown seen
      → render_and_rename G H T S compiled trigger history (ok (seen_again sight seen), w)
        ≡ (ok (false, zero_history), w)
  unfolding render_and_rename
  render_and_rename-seen_again compiled trigger history seen w sight blind (inl off) =
      rw (resolve-seen_again H T compiled sight seen, off)
  render_and_rename-seen_again compiled trigger history seen w sight blind (inr (on, shown)) =
      let effective = resolve H T compiled seen in
      let profiled : Context = record seen { profile = effective.profile_name } in
      rw
        (
          resolve-seen_again H T compiled sight seen,
          on,
          execute-seen_again H T G effective.template sight profiled effective.max_width blind
              ∙ shown,
        )
        (apply_label-same history (seen_again sight profiled) w)

  attached-seen_again :
      (ctx seen : Context) (sight : Sight) (r later : Result String ProcessInfo × S.World)
      → later.0 ≡ r.0
      → (attached G H T S ctx r).0 ≡ ok seen
      → (attached G H T S (seen_again sight ctx) later).0 ≡ ok (seen_again sight seen)
  unfolding attached
  attached-seen_again ctx seen sight (err e, w) later same h = cc
  attached-seen_again ctx seen sight (ok info, w) (err e, v) same h = cc
  attached-seen_again ctx seen sight (ok info, w) (ok again, v) same h =
      let p : again ≡ info = cc in
      let q : attach_process ctx info ≡ seen = cc in
      rw (p, attach_process-seen_again H T sight ctx info, q) refl

  with_process-seen_again :
      (ctx seen : Context) (sight : Sight) (w v : S.World)
      → (S.process_info ctx.pane.id v).0 ≡ (S.process_info ctx.pane.id w).0
      → (with_process G H T S ctx w).0 ≡ ok seen
      → (with_process G H T S (seen_again sight ctx) v).0 ≡ ok (seen_again sight seen)
  unfolding with_process
  with_process-seen_again ctx seen sight w v same h = elim (Bool-cases (ctx.pane.id == "")) [
    | inl nowhere ↦ let q : ctx ≡ seen = ground arith in rw (nowhere, q) refl
    | inr shown ↦ rw shown (
        attached-seen_again ctx seen sight (S.process_info ctx.pane.id w)
          (S.process_info ctx.pane.id v) same (rw shown at h))
  ]

  pub attached-world :
      (ctx : Context) (r : Result String ProcessInfo × S.World) → (attached G H T S ctx r).1 ≡ r.1
  unfolding attached
  attached-world ctx (err e, w) = refl
  attached-world ctx (ok info, w) = refl

  with_process-world :
      (ctx : Context) (sight : Sight) (v : S.World)
      → (with_process G H T S (seen_again sight ctx) v).1 ≡ (with_process G H T S ctx v).1
  unfolding with_process
  with_process-world ctx sight v = elim (Bool-cases (ctx.pane.id == "")) [
    | inl nowhere ↦ rw nowhere refl
    | inr shown ↦
        rw
          (
            shown,
            attached-world ctx (S.process_info ctx.pane.id v),
            attached-world (seen_again sight ctx) (S.process_info ctx.pane.id v),
          )
          refl
  ]

  pub with_process-asked :
      (ctx seen : Context) (sight : Sight) (w v : S.World)
      → (S.process_info ctx.pane.id v).0 ≡ (S.process_info ctx.pane.id w).0
      → (with_process G H T S ctx w).0 ≡ ok seen
      → with_process G H T S (seen_again sight ctx) v
        ≡ (ok (seen_again sight seen), (with_process G H T S ctx v).1)
  with_process-asked ctx seen sight w v same h =
      let asked = with_process-seen_again ctx seen sight w v same h in
      let world = with_process-world ctx sight v in cc

  pub record_written-world :
      (passed : Passed) (id : String) (r : Result ReconcileError (Bool × LabelHistory) × S.World)
      → (record_written G H T S passed id r).1 ≡ r.1
  unfolding record_written
  record_written-world passed id (err e, w) = refl
  record_written-world passed id (ok (written, entry), w) = refl
