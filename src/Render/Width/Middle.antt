-- ===== src/Render/Width/Middle.antt =====
-- Which clusters internal/render/width.go's truncation in the middle keeps.
use mathlib.Core.List.{reverse, reverse-reverse, reverse-append, reverse-cons}
use native.Mathlib.Nat.{zero-add}
use herdr_tabline.Base.{
  ℕ, ◌+◌, ◌-◌, ◌/◌, ◌≤◌, ◌<◌, ◌≡◌, refl, sym, ap, ◌∙◌, String, ◌<>◌, List, [], ◌∷◌, ◌++◌, arith,
}
use herdr_tabline.Base.{nat_eq}
use herdr_tabline.Base.Int.{pos, sub_ℕ, half_ℤ, suc_ℤ}
use herdr_tabline.Render.Width.{
  Graphemes, ellipsis, total_width, text_of, display_width, take_prefix, take_suffix,
  reverse_graphemes, truncate_middle, truncate_middle_to,
}
use herdr_tabline.Render.Width.Bounds.{
  IsLawful, fitting, leftover, Exceeds, take_clusters-fitting, fitting-append, fitting_width,
  fitting_longest, take_prefix_lem, budget,
}

total_width-append :
    (xs ys : List (String × ℕ)) → total_width (xs ++ ys) ≡ total_width xs + total_width ys
total_width-append [] ys = omega arith
total_width-append ((part, w) ∷ xs) ys = omega (arith, total_width-append xs ys)

total_width-reverse : (xs : List (String × ℕ)) → total_width (reverse xs) ≡ total_width xs
total_width-reverse [] = refl
total_width-reverse ((part, w) ∷ xs) =
    rw
      (
        reverse-cons (part, w) xs,
        total_width-append (reverse xs) ((part, w) ∷ []),
        total_width-reverse xs,
      )
      (omega arith)

-- A leading and a trailing run of a list do not meet where they are narrower together than the list.
between :
    (front rest start back : List (String × ℕ))
    → front ++ rest ≡ start ++ back
    → total_width front + total_width back < total_width (front ++ rest)
    → (middle : List (String × ℕ)) × (rest ≡ middle ++ back) × (start ≡ front ++ middle)
between [] rest start back e h = (start, e, refl)
between ((part, w) ∷ front) rest [] back e h =
    absurd (omega (arith, total_width-append front rest, ap total_width e))
between ((part, w) ∷ front) rest ((p, v) ∷ start) back e h =
    let same : w ≡ v = cc in
    let tails : front ++ rest ≡ start ++ back = cc in
    let (middle, q, r) = between front rest start back tails (omega arith) in (middle, q, cc)

-- In the text of each trailing run of a value's clusters, set in reverse, the same clusters are found: they do
-- not merge with others in that order.
abbrev pub IsReversible : Graphemes → String → Type 0
IsReversible G value =
    (taken rest : List (String × ℕ))
    → reverse (G.clusters value) ≡ taken ++ rest
    → G.clusters (text_of taken) ≡ taken

module _ (G : Graphemes) where
  take_suffix_lem :
      (value : String) (max : ℕ)
      → IsReversible G value
      → (taken rest : List (String × ℕ)) × (G.clusters value ≡ rest ++ taken)
        × (take_suffix G value (pos max) ≡ text_of taken)
        × (total_width taken ≤ max)
        × Exceeds (max - total_width taken) (reverse rest)
  unfolding take_suffix reverse_graphemes
  take_suffix_lem value max back =
      let cs = reverse (G.clusters value) in
      let taken = fitting max 0 cs in
      let rest = leftover max 0 cs in
      let split : cs ≡ taken ++ rest = fitting-append max 0 cs in
      (
        reverse taken,
        reverse rest,
        sym (reverse-reverse (G.clusters value)) ∙ ap reverse split ∙ reverse-append taken rest,
        ap (reverse_graphemes G) (take_clusters-fitting max 0 cs)
            ∙ ap (λ kept. text_of (reverse kept)) (back taken rest split),
        rw (total_width-reverse taken) (omega (arith, fitting_width max 0 cs (omega arith))),
        rw (total_width-reverse taken, reverse-reverse rest)
            (rw zero-add at (fitting_longest max 0 cs (omega arith))),
      )

  halves :
      (L : IsLawful G) (max : ℕ)
      → 1 < max
      → (half_ℤ (suc_ℤ (sub_ℕ max (display_width G ellipsis))) ≡ pos (max / 2))
        × (half_ℤ (sub_ℕ max (display_width G ellipsis)) ≡ pos ((max - 1) / 2))
  halves L max h = rw (budget G L max h) (ground arith)

  truncate_middle_wide :
      (L : IsLawful G) (value : String) (max : ℕ)
      → 1 < max
      → max < display_width G value
      → truncate_middle G value (pos max)
        ≡ take_prefix G value (pos (max / 2))
          <> (ellipsis <> take_suffix G value (pos ((max - 1) / 2)))
  unfolding truncate_middle truncate_middle_to
  truncate_middle_wide L value max h wide = ground (arith, halves L max h)

  -- For every lawful segmentation, width of at least 2, and text that is wider and whose clusters stay apart when their
  -- order is reversed: truncation in the middle keeps a run of leading clusters and one of trailing
  -- clusters, with the ellipsis between them in the place of the others. The leading run has at most half of the cells, the
  -- trailing run at most half of what is left beside the ellipsis, and neither could be longer.
  pub truncate_middle_longest :
      (L : IsLawful G) (value : String) (max : ℕ)
      → 1 < max
      → max < display_width G value
      → IsReversible G value
      → (front middle back : List (String × ℕ)) × (G.clusters value ≡ front ++ (middle ++ back))
        × (truncate_middle G value (pos max) ≡ text_of front <> (ellipsis <> text_of back))
        × (total_width front ≤ max / 2)
        × (total_width back ≤ (max - 1) / 2)
        × Exceeds (max / 2 - total_width front) (middle ++ back)
        × Exceeds ((max - 1) / 2 - total_width back) (reverse (front ++ middle))
  unfolding display_width
  truncate_middle_longest L value max h wide reversible =
      let (front, rest, split, front_text, front_fits, front_longest, same_width) =
        take_prefix_lem G L value (max / 2) in
      let (back, start, split', back_text, back_fits, back_longest) =
        take_suffix_lem value ((max - 1) / 2) reversible in
      let narrow : total_width front + total_width back < total_width (front ++ rest) =
        omega (arith, ap total_width split) in
      let (middle, e, s) = between front rest start back (sym split ∙ split') narrow in
      (
        front,
        middle,
        back,
        split ∙ ap (λ more. front ++ more) e,
        rw (← front_text, ← back_text) (truncate_middle_wide L value max h wide),
        front_fits,
        back_fits,
        rw e at front_longest,
        rw s at back_longest,
      )
