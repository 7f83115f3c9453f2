-- ===== src/Render/Engine/Labels.antt =====
-- What internal/render/engine.go guarantees of the labels that it renders.
use Prim.Native.Char.{Char}
use mathlib.Core.Path.{subst}
use text.Mathlib.TextEquality.{Char-path}
use herdr_tabline.Base.{
  ℕ, zero, suc, ◌-◌, ◌≤◌, ◌<◌, ◌≡◌, ◌≢◌, ◌⊎◌, inl, inr, refl, ap, String, ◌<>◌, true, false, ◌&&◌,
  ◌||◌, Option, none, some, arith,
}
use herdr_tabline.Base.{◌==◌, string_eq, nat_eq, leb, Bool-cases, Option-cases}
use herdr_tabline.Base.Int.{ℤ, pos, negsuc}
use herdr_tabline.Base.Text.{has_prefix, has_suffix, without_ends}
use herdr_tabline.Base.Result.{Result, ok, err, ◌>>=◌, map_err}
use herdr_tabline.Model.{Context}
use herdr_tabline.Render.Width.{Graphemes, display_width, truncate}
use herdr_tabline.Render.Width.Bounds.{IsLawful, empty_width, truncate_width}
use herdr_tabline.Render.Engine.Controls.{
  HasNoControls, HasNoControls-append, sanitize_controls-HasNoControls, without_ends-HasNoControls,
  truncate-HasNoControls,
}
use herdr_tabline.Render.Engine.{
  Templates, template_execute, no_displayable_text, slice_out_of_range, Template, sanitize_controls,
  strip_missing_values, is_control_only, apply_max_width, finish, execute,
}

-- Only a single space begins with a space and has no inside.
without_ends-none :
    (label : String) → without_ends label ≡ none → has_prefix label " " ≡ true → label ≡ " "
unfolding without_ends has_prefix nat_eq
without_ends-none String.[] e h = cc
without_ends-none (String.◌∷◌ c String.[]) e h =
    ap (λ (d : Char). String.◌∷◌ d String.[]) (Char-path c " " (ground arith))
without_ends-none (String.◌∷◌ c (String.◌∷◌ d s)) e h = cc

-- No wider than a ceiling, where there is one: 0 and negative ceilings are none.
abbrev pub Within : Graphemes → ℤ → String → Type 0
Within G (negsuc n) out = Unit
Within G (pos zero) out = Unit
Within G (pos (suc n)) out = display_width G out ≤ suc n

-- What a finished label is, at any ceiling.
pub record IsFit (G : Graphemes) (max : ℤ) (out : String) : Type 0 where
  pub clean : HasNoControls out
  pub within : Within G max out

shown_nonempty : (s : String) → is_control_only s ≡ false → (s == "") ≡ false
unfolding is_control_only
shown_nonempty s h = elim (Bool-cases (s == "")) [
  | inl e ↦
      let p : s ≡ "" = ground arith in
      let q : true ≡ false = subst (λ (t : String). is_control_only t ≡ false) p h in cc
  | inr n ↦ n
]

module _ (G : Graphemes) (L : IsLawful G) where
  -- The ways in which a width ceiling is applied.
  data Applied (label : String) (max : ℕ) (out : String) : Type 0 where
    kept : (max ≡ 0) ⊎ (display_width G label ≤ max) → out ≡ label → Applied label max out
    padded :
        (interior : String)
        → 3 ≤ max
        → without_ends label ≡ some interior
        → out ≡ " " <> (truncate G interior (pos (max - 2)) <> " ")
        → Applied label max out
    cut : out ≡ truncate G label (pos max) → Applied label max out

  applied_padded :
      (label : String) (max : ℕ)
      → 3 ≤ max
      → max < display_width G label
      → has_prefix label " " ≡ true
      → (interior : String) × (without_ends label ≡ some interior)
  applied_padded label max h wide begins = elim (Option-cases (without_ends label)) [
    | inl e ↦
        absurd
          (omega (arith, L.space_width, ap (display_width G) (without_ends-none label e begins)))
    | inr found ↦ found
  ]

  applied :
      (label : String) (max : ℕ)
      → (out : String) × (apply_max_width G label (pos max) ≡ some out) × Applied label max out
  unfolding apply_max_width
  applied label max = elim (Bool-cases (leb max 0 || leb (display_width G label) max)) [
    | inl fits ↦ (label, rw fits, kept (ground arith) refl)
    | inr wide ↦ elim (Bool-cases (leb 3 max && (has_prefix label " " && has_suffix label " "))) [
      | inl ends ↦
          let (interior, e) =
            applied_padded label max (ground arith) (ground arith) (ground arith) in
          (_, rw (wide, ends, e), padded interior (ground arith) e refl)
      | inr plain ↦ (_, rw (wide, plain), cut refl)
    ]
  ]

  Applied-width :
      (label : String) (max : ℕ) (out : String)
      → Applied label max out
      → 0 < max
      → display_width G out ≤ max
  Applied-width label max out (kept (inl z) e) h = absurd (omega arith)
  Applied-width label max out (kept (inr fits) e) h = rw e fits
  Applied-width label max out (padded interior three e same) h =
      let core = truncate G interior (pos (max - 2)) in
      rw same (
        omega (
          arith,
          truncate_width G L interior (max - 2),
          L.width_then_space core,
          L.width_after_space (core <> " "),
        ))
  Applied-width label max out (cut e) h = rw e (truncate_width G L label max)

  Applied-HasNoControls :
      (label : String) (max : ℕ) (out : String)
      → Applied label max out
      → HasNoControls label
      → HasNoControls out
  Applied-HasNoControls label max out (kept _ e) h = rw e h
  Applied-HasNoControls label max out (padded interior three e same) h =
      let core = truncate G interior (pos (max - 2)) in
      let core_clean : HasNoControls core =
        truncate-HasNoControls G L interior (max - 2)
          (without_ends-HasNoControls label interior e h) in
      rw same (
        HasNoControls-append " " (core <> " ") (refl, tt)
          (HasNoControls-append core " " core_clean (refl, tt)))
  Applied-HasNoControls label max out (cut e) h = rw e (truncate-HasNoControls G L label max h)

  apply_max_width-IsFit :
      (label : String) (max : ℤ)
      → HasNoControls label
      → (out : String) × (apply_max_width G label max ≡ some out) × IsFit G max out
  apply_max_width-IsFit label (negsuc n) h =
      (label, unfold apply_max_width in refl, record { clean = h; within = tt })
  apply_max_width-IsFit label (pos zero) h =
      let (out, e, how) = applied label 0 in
      (out, e, record { clean = Applied-HasNoControls label 0 out how h; within = tt })
  apply_max_width-IsFit label (pos (suc n)) h =
      let (out, e, how) = applied label (suc n) in
      (
        out,
        e,
        record {
          clean = Applied-HasNoControls label (suc n) out how h;
          within = Applied-width label (suc n) out how (omega arith);
        },
      )

  finish_cases :
      (name rendered : String) (max : ℤ)
      → (finish G name rendered max ≡ err (no_displayable_text name))
        ⊎ ((out : String) × (finish G name rendered max ≡ ok out) × IsFit G max out)
  unfolding finish
  finish_cases name rendered max = elim (Bool-cases (rendered == "" || is_control_only rendered)) [
    | inl blank ↦ inl (rw blank)
    | inr shown ↦
        let text = sanitize_controls (strip_missing_values rendered) in
        let (out, e, fit) = apply_max_width-IsFit text max (sanitize_controls-HasNoControls _) in
        inr (out, rw (shown, e), fit)
  ]

  apply_max_width_nil : (max : ℤ) → apply_max_width G "" max ≡ some ""
  unfolding apply_max_width
  apply_max_width_nil (negsuc n) = refl
  apply_max_width_nil (pos max) = ground (arith, empty_width G L)

  finish_nil :
      (name rendered : String) (max : ℤ)
      → is_control_only rendered ≡ false
      → strip_missing_values rendered ≡ ""
      → finish G name rendered max ≡ ok ""
  unfolding finish
  finish_nil name rendered max shown gone =
      rw (shown_nonempty rendered shown, shown, gone)
        (unfold sanitize_controls in rw (apply_max_width_nil max))

  module _ (T : Templates) where
    -- For every lawful segmentation, every template (nil or not), context and width ceiling: a label that
    -- `Execute` returns has no control character, and under a ceiling of at least 1 it is no wider than
    -- the ceiling.
    pub execute-IsFit :
        (tpl : Option (Template T)) (ctx : Context) (max : ℤ) (label : String)
        → execute G T tpl ctx max ≡ ok label
        → IsFit G max label
    unfolding execute
    execute-IsFit none ctx max label h = cc
    execute-IsFit (some tpl) ctx max label h = go (T.run tpl.parsed ctx) h
      where
        go :
            (r : Result String String)
            → (map_err (template_execute (T.name tpl.parsed)) r >>= λ (rendered : String).
                finish G (T.name tpl.parsed) rendered max)
              ≡ ok label
            → IsFit G max label
        go (err e) k = cc
        go (ok rendered) k = elim (finish_cases (T.name tpl.parsed) rendered max) [
          | inl blank ↦ absurd (ground arith)
          | inr (out, done, fit) ↦ subst (IsFit G max) (ground arith) fit
        ]

    -- For every lawful segmentation, template, context and width ceiling: `Execute` never slices out of
    -- range when it cuts the padding off a label.
    pub execute-ne-slice_out_of_range :
        (tpl : Option (Template T)) (ctx : Context) (max : ℤ)
        → execute G T tpl ctx max ≢ err slice_out_of_range
    unfolding execute
    execute-ne-slice_out_of_range none ctx max h = cc
    execute-ne-slice_out_of_range (some tpl) ctx max h = go (T.run tpl.parsed ctx) h
      where
        go :
            (r : Result String String)
            → (map_err (template_execute (T.name tpl.parsed)) r >>= λ (rendered : String).
                finish G (T.name tpl.parsed) rendered max)
              ≢ err slice_out_of_range
        go (err e) k = ground arith
        go (ok rendered) k = elim (finish_cases (T.name tpl.parsed) rendered max) [
          | inl blank ↦ ground arith
          | inr (out, done, fit) ↦ ground arith
        ]

    -- For every lawful segmentation, template, context and ceiling: where the template's text is not all control
    -- characters, and nothing is left of it without the placeholders of missing values, `Execute`
    -- returns the empty label and no error.
    pub execute-eq-ok_nil :
        (tpl : Template T) (ctx : Context) (max : ℤ) (rendered : String)
        → T.run tpl.parsed ctx ≡ ok rendered
        → is_control_only rendered ≡ false
        → strip_missing_values rendered ≡ ""
        → execute G T (some tpl) ctx max ≡ ok ""
    unfolding execute
    execute-eq-ok_nil tpl ctx max rendered ran shown gone =
        rw ran (finish_nil (T.name tpl.parsed) rendered max shown gone)
