-- ===== src/Render/Width/Bounds.antt =====
-- How wide the texts are that internal/render/width.go makes, and which clusters they keep.
use native.Mathlib.Nat.{add_assoc, zero-add}
use herdr_tabline.Base.{
  ℕ, ◌+◌, ◌-◌, ◌≤◌, ◌<◌, ◌≡◌, inl, inr, refl, ap, String, ◌<>◌, List, [], ◌∷◌, ◌++◌, arith,
}
use herdr_tabline.Base.{nat_eq, ltb, if◌then◌else◌, Bool-cases}
use herdr_tabline.Base.Int.{pos, sub_ℕ}
use herdr_tabline.Render.Width.{
  Graphemes, ellipsis, total_width, text_of, take_clusters, display_width, take_prefix, truncate,
}

-- What the program relies on of `uniseg`: the clusters of a text make up the text, leading clusters
-- of a text stand alone as they stand in it, an ellipsis and a space are one cell wide, and
-- setting one beside a text adds at most that cell.
pub record IsLawful (G : Graphemes) : Type 0 where
  pub text_of-clusters : (s : String) → text_of (G.clusters s) ≡ s
  pub clusters_leading :
      (s : String) (taken rest : List (String × ℕ))
      → G.clusters s ≡ taken ++ rest
      → G.clusters (text_of taken) ≡ taken
  pub ellipsis_width : display_width G ellipsis ≡ 1
  pub space_width : display_width G " " ≡ 1
  pub width_then_ellipsis : (s : String) → display_width G (s <> ellipsis) ≤ display_width G s + 1
  pub width_then_space : (s : String) → display_width G (s <> " ") ≤ display_width G s + 1
  pub width_after_space : (s : String) → display_width G (" " <> s) ≤ display_width G s + 1

-- The longest run of leading clusters that fits beside a width.
abbrev pub fitting : ℕ → ℕ → List (String × ℕ) → List (String × ℕ)
fitting max width [] = []
fitting max width ((part, w) ∷ rest) =
    let more = (part, w) ∷ fitting max (width + w) rest in if ltb max (width + w) then [] else more

abbrev pub leftover : ℕ → ℕ → List (String × ℕ) → List (String × ℕ)
leftover max width [] = []
leftover max width ((part, w) ∷ rest) =
    let more = leftover max (width + w) rest in
    if ltb max (width + w) then (part, w) ∷ rest else more

pub take_clusters-fitting :
    (max width : ℕ) (cs : List (String × ℕ))
    → take_clusters max width cs ≡ text_of (fitting max width cs)
unfolding take_clusters
take_clusters-fitting max width [] = refl
take_clusters-fitting max width ((part, w) ∷ rest) =
    ground (arith, take_clusters-fitting max (width + w) rest)

pub fitting-append :
    (max width : ℕ) (cs : List (String × ℕ)) → cs ≡ fitting max width cs ++ leftover max width cs
fitting-append max width [] = refl
fitting-append max width ((part, w) ∷ rest) = ground (arith, fitting-append max (width + w) rest)

pub fitting_width :
    (max width : ℕ) (cs : List (String × ℕ))
    → width ≤ max
    → width + total_width (fitting max width cs) ≤ max
fitting_width max width [] h = omega arith
fitting_width max width ((part, w) ∷ rest) h = ground (arith, fitting_width max (width + w) rest)

-- The next cluster would not fit.
abbrev pub Exceeds : ℕ → List (String × ℕ) → Type 0
Exceeds room [] = Unit
Exceeds room ((part, w) ∷ rest) = room < w

pub fitting_longest :
    (max width : ℕ) (cs : List (String × ℕ))
    → width ≤ max
    → Exceeds (max - (width + total_width (fitting max width cs))) (leftover max width cs)
fitting_longest max width [] h = tt
fitting_longest max width ((part, w) ∷ rest) h = elim (Bool-cases (ltb max (width + w))) [
  | inl e ↦ rw e (ground arith)
  | inr e ↦ rw e (rw (← add_assoc width w _) (fitting_longest max (width + w) rest (ground arith)))
]

module _ (G : Graphemes) (L : IsLawful G) where
  pub take_prefix_lem :
      (value : String) (max : ℕ)
      → (taken rest : List (String × ℕ)) × (G.clusters value ≡ taken ++ rest)
        × (take_prefix G value (pos max) ≡ text_of taken)
        × (total_width taken ≤ max)
        × Exceeds (max - total_width taken) rest
        × (display_width G (text_of taken) ≡ total_width taken)
  unfolding take_prefix display_width
  take_prefix_lem value max =
      let cs = G.clusters value in
      let taken = fitting max 0 cs in
      (
        taken,
        leftover max 0 cs,
        fitting-append max 0 cs,
        take_clusters-fitting max 0 cs,
        omega (arith, fitting_width max 0 cs),
        rw zero-add at (fitting_longest max 0 cs (omega arith)),
        ap total_width
            (L.clusters_leading value taken (leftover max 0 cs) (fitting-append max 0 cs)),
      )

  pub empty_width : display_width G "" ≡ 0
  empty_width =
      unfold display_width in ap total_width (L.clusters_leading "" [] (G.clusters "") refl)

  pub budget : (max : ℕ) → 1 < max → sub_ℕ max (display_width G ellipsis) ≡ pos (max - 1)
  budget max h = rw L.ellipsis_width (ground arith)

  -- For every lawful segmentation, text and width: truncation never gives a text wider than asked
  -- for.
  pub truncate_width :
      (value : String) (max : ℕ) → display_width G (truncate G value (pos max)) ≤ max
  unfolding truncate
  truncate_width value max =
      let (taken, rest, split, taken_text, fits, longest, same_width) =
        take_prefix_lem value (max - 1) in
      ground (
        arith,
        L.ellipsis_width,
        empty_width,
        budget max,
        taken_text,
        fits,
        same_width,
        L.width_then_ellipsis (text_of taken),
      )

  -- For every lawful segmentation, width of at least 2 and text that is wider: truncation keeps a
  -- run of leading clusters and puts the ellipsis behind it; the run leaves a cell for the ellipsis,
  -- and no longer run would.
  pub truncate_longest :
      (value : String) (max : ℕ)
      → 1 < max
      → max < display_width G value
      → (taken rest : List (String × ℕ)) × (G.clusters value ≡ taken ++ rest)
        × (truncate G value (pos max) ≡ text_of taken <> ellipsis)
        × (total_width taken ≤ max - 1)
        × Exceeds (max - 1 - total_width taken) rest
  unfolding truncate
  truncate_longest value max h k =
      let (taken, rest, split, taken_text, fits, longest, same_width) =
        take_prefix_lem value (max - 1) in
      (taken, rest, split, ground (arith, budget max, taken_text), fits, longest)
