-- ===== src/Render/Width.antt =====
-- internal/render/width.go: display width, truncation and padding by grapheme clusters.
-- The segmentation is `github.com/rivo/uniseg`'s, which is not part of the program: a parameter.
pub mod Bounds
pub mod Middle
use mathlib.Core.List.{reverse}
use herdr_tabline.Base.{
  ℕ, zero, suc, ◌+◌, ◌-◌, String, ◌<>◌, List, [], ◌∷◌, ◌==◌, nat_eq, ltb, leb, if◌then◌else◌,
}
use herdr_tabline.Base.Int.{ℤ, pos, negsuc, sub_ℕ, suc_ℤ, half_ℤ}

-- `uniseg.NewGraphemes(value)`: the text and the width of each cluster, in order.
pub record Graphemes : Type 0 where
  pub clusters : String → List (String × ℕ)

abbrev pub ellipsis : String
ellipsis = "…"

abbrev pub spaces : ℕ → String
spaces zero = ""
spaces (suc n) = " " <> spaces n

-- The widths of the clusters, added up.
abbrev pub total_width : List (String × ℕ) → ℕ
total_width [] = 0
total_width ((part, w) ∷ rest) = w + total_width rest

-- `strings.Join` of the clusters.
abbrev pub text_of : List (String × ℕ) → String
text_of [] = ""
text_of ((part, w) ∷ rest) = part <> text_of rest

-- The loop of `takePrefix` and of `takeSuffix`, over the clusters left, with the width taken.
pub take_clusters : ℕ → ℕ → List (String × ℕ) → String
take_clusters max width [] = ""
take_clusters max width ((part, w) ∷ rest) =
    let more = take_clusters max (width + w) rest in
    if ltb max (width + w) then "" else part <> more

module _ (G : Graphemes) where
  unfoldable pub display_width : String → ℕ
  display_width value = total_width (G.clusters value)

  -- With a negative width no cluster fits.
  unfoldable pub take_prefix : String → ℤ → String
  unfolding take_clusters
  take_prefix value (pos max) = take_clusters max 0 (G.clusters value)
  take_prefix value (negsuc n) = ""

  reverse_graphemes : String → String
  reverse_graphemes value = text_of (reverse (G.clusters value))

  unfoldable pub take_suffix : String → ℤ → String
  unfolding take_clusters reverse_graphemes
  take_suffix value (pos max) = reverse_graphemes (take_clusters max 0 (reverse (G.clusters value)))
  take_suffix value (negsuc n) = reverse_graphemes ""

  truncate_to : String → ℕ → String
  truncate_to value max =
      if max == 0
      then ""
      else if leb (display_width value) max
      then value
      else if max == 1
      then ellipsis
      else take_prefix value (sub_ℕ max (display_width ellipsis)) <> ellipsis

  unfoldable pub truncate : String → ℤ → String
  unfolding truncate_to
  truncate value (pos max) = truncate_to value max
  truncate value (negsuc n) = ""

  truncate_middle_to : String → ℕ → String
  truncate_middle_to value max =
      let budget = sub_ℕ max (display_width ellipsis) in
      if max == 0
      then ""
      else if leb (display_width value) max
      then value
      else if max == 1
      then ellipsis
      else take_prefix value (half_ℤ (suc_ℤ budget))
        <> (ellipsis <> take_suffix value (half_ℤ budget))

  unfoldable pub truncate_middle : String → ℤ → String
  unfolding truncate_middle_to
  truncate_middle value (pos max) = truncate_middle_to value max
  truncate_middle value (negsuc n) = ""

  -- `max(0, width - displayWidth(value))` spaces
  padding : String → ℤ → String
  padding value (pos width) = spaces (width - display_width value)
  padding value (negsuc n) = ""

  unfoldable pub pad_left : String → ℤ → String
  unfolding padding
  pad_left value width = padding value width <> value

  unfoldable pub pad_right : String → ℤ → String
  unfolding padding
  pad_right value width = value <> padding value width
