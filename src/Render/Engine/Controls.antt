-- ===== src/Render/Engine/Controls.antt =====
-- No control character passes from a template into a label: internal/render/engine.go's
-- `sanitizeControls`, and the cuts that come after it.
use Prim.Native.Char.{Char}
use Prim.Native.String.append
use mathlib.Core.Option.{some-injective}
use mathlib.Core.Path.{subst}
use text.Mathlib.TextLemmas.{append_assoc}
use herdr_tabline.Base.{ℕ, ◌≡◌, ◌∙◌, ap, sym, refl, String, ◌<>◌, false, some, List, [], ◌∷◌, ◌++◌}
use herdr_tabline.Base.{leb, ◌==◌, nat_eq, if◌then◌else◌, Bool-cases, inl, inr}
use herdr_tabline.Base.Int.{ℤ, pos, negsuc}
use herdr_tabline.Base.Text.{without_last, without_ends}
use herdr_tabline.Render.Width.{Graphemes, ellipsis, text_of, take_prefix, display_width, truncate}
use herdr_tabline.Render.Width.Bounds.{IsLawful, take_prefix_lem}
use herdr_tabline.Render.Engine.{is_control, sanitize_controls}

abbrev pub HasNoControls : String → Type 0
HasNoControls String.[] = Unit
HasNoControls (String.◌∷◌ c s) = (is_control c ≡ false) × HasNoControls s

blank_lem : (c : Char) → is_control (if is_control c then " " else c) ≡ false
blank_lem c = elim (Bool-cases (is_control c)) [ inl e ↦ rw e | inr e ↦ rw e e ]

pub sanitize_controls-HasNoControls : (s : String) → HasNoControls (sanitize_controls s)
unfolding sanitize_controls
sanitize_controls-HasNoControls String.[] = tt
sanitize_controls-HasNoControls (String.◌∷◌ c s) = (blank_lem c, sanitize_controls-HasNoControls s)

pub HasNoControls-append :
    (s t : String) → HasNoControls s → HasNoControls t → HasNoControls (s <> t)
HasNoControls-append String.[] t hs ht = rw (append.nil t) ht
HasNoControls-append (String.◌∷◌ c s) t hs ht =
    rw (append.cons c s t) (hs.0, HasNoControls-append s t hs.1 ht)

HasNoControls-left : (s t : String) → HasNoControls (s <> t) → HasNoControls s
HasNoControls-left String.[] t h = tt
HasNoControls-left (String.◌∷◌ c s) t h =
    let h' : HasNoControls (String.◌∷◌ c (s <> t)) = rw (append.cons c s t) at h in
    (h'.0, HasNoControls-left s t h'.1)

text_of-append : (xs ys : List (String × ℕ)) → text_of (xs ++ ys) ≡ text_of xs <> text_of ys
text_of-append [] ys = sym (append.nil _)
text_of-append ((part, w) ∷ xs) ys = rw (text_of-append xs ys) (sym (append_assoc part _ _))

without_last-HasNoControls :
    (c : Char) (s : String)
    → is_control c ≡ false
    → HasNoControls s
    → HasNoControls (without_last c s)
unfolding without_last
without_last-HasNoControls c String.[] hc hs = tt
without_last-HasNoControls c (String.◌∷◌ d s) hc hs = (hc, without_last-HasNoControls d s hs.0 hs.1)

pub without_ends-HasNoControls :
    (s interior : String)
    → without_ends s ≡ some interior
    → HasNoControls s
    → HasNoControls interior
unfolding without_ends
without_ends-HasNoControls String.[] interior h hs = cc
without_ends-HasNoControls (String.◌∷◌ c String.[]) interior h hs = cc
without_ends-HasNoControls (String.◌∷◌ c (String.◌∷◌ d s)) interior h hs =
    subst HasNoControls (some-injective _ _ h) (without_last-HasNoControls d s hs.1.0 hs.1.1)

module _ (G : Graphemes) (L : IsLawful G) where
  take_prefix-HasNoControls :
      (value : String) (max : ℤ) → HasNoControls value → HasNoControls (take_prefix G value max)
  take_prefix-HasNoControls value (negsuc n) h = unfold take_prefix in tt
  take_prefix-HasNoControls value (pos max) h =
      let (taken, rest, split, taken_text, _, _, _) = take_prefix_lem G L value max in
      rw taken_text (
        HasNoControls-left (text_of taken) (text_of rest) (
          subst HasNoControls
            (sym (L.text_of-clusters value) ∙ ap text_of split ∙ text_of-append taken rest) h))

  pub truncate-HasNoControls :
      (value : String) (max : ℕ) → HasNoControls value → HasNoControls (truncate G value (pos max))
  unfolding truncate
  truncate-HasNoControls value max h = elim (Bool-cases (max == 0)) [
    | inl e ↦ rw e tt
    | inr e ↦ rw e (elim (Bool-cases (leb (display_width G value) max)) [
      | inl fits ↦ rw fits h
      | inr wide ↦ rw wide (elim (Bool-cases (max == 1)) [
        | inl one ↦ rw one (refl, tt)
        | inr more ↦ rw more (
            HasNoControls-append (take_prefix G value _) ellipsis
              (take_prefix-HasNoControls value _ h) (refl, tt))
      ])
    ])
  ]
