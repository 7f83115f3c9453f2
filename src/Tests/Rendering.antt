-- ===== src/Tests/Rendering.antt =====
-- internal/render with one cell for each character.
use mathlib.Core.List.{reverse}
use herdr_tabline.Render.Width.{truncate_middle, take_suffix}
use herdr_tabline.Render.Width.Middle.{IsReversible, truncate_middle_longest}
use herdr_tabline.Base.{◌/◌, ◌∙◌}
use herdr_tabline.Base.{
  ℕ, ◌-◌, ◌≡◌, ◌≤◌, ◌<◌, ◌<>◌, ◌++◌, refl, arith, String, some, false, List, string_eq, nat_eq,
}
use herdr_tabline.Base.Int.{pos}
use herdr_tabline.Base.Text.{has_prefix, has_suffix, without_ends}
use herdr_tabline.Base.Result.{ok}
use herdr_tabline.Render.Width.{
  display_width, take_prefix, truncate, text_of, ellipsis, total_width,
}
use herdr_tabline.Render.Width.Bounds.{Exceeds, truncate_longest}
use herdr_tabline.Render.Engine.{
  Template, execute, finish, apply_max_width, sanitize_controls, strip_missing_values,
  is_control_only,
}
use herdr_tabline.Render.Engine.Labels.{IsFit, execute-IsFit, execute-eq-ok_nil}
use herdr_tabline.Tests.Fixtures.{cells, cells-IsLawful, constant_templates, sample_context}

abbrev template_of : String → Template constant_templates
template_of text = record { source = text; parsed = text }

six_cells : 4 < display_width cells "abcdef"
unfolding display_width
six_cells = omega arith

truncate_longest_example :
    (taken : List (String × ℕ)) × (rest : List (String × ℕ)) × (cells.clusters "abcdef"
      ≡ taken ++ rest)
    × (truncate cells "abcdef" (pos 4) ≡ text_of taken <> ellipsis)
    × (total_width taken ≤ 4 - 1)
    × Exceeds (4 - 1 - total_width taken) rest
truncate_longest_example = truncate_longest cells cells-IsLawful "abcdef" 4 (omega arith) six_cells

truncated : truncate cells "abcdef" (pos 4) ≡ "abc…"
unfolding truncate display_width take_prefix string_eq nat_eq
truncated = refl

reversible : IsReversible cells "abcdef"
reversible taken rest h = cells-IsLawful.clusters_leading "fedcba" taken rest (reversed ∙ h)
  where
    reversed : cells.clusters "fedcba" ≡ reverse (cells.clusters "abcdef")
    reversed = refl

truncate_middle_longest_example :
    (front middle back : List (String × ℕ)) × (cells.clusters "abcdef" ≡ front ++ (middle ++ back))
    × (truncate_middle cells "abcdef" (pos 4) ≡ text_of front <> (ellipsis <> text_of back))
    × (total_width front ≤ 4 / 2)
    × (total_width back ≤ (4 - 1) / 2)
    × Exceeds (4 / 2 - total_width front) (middle ++ back)
    × Exceeds ((4 - 1) / 2 - total_width back) (reverse (front ++ middle))
truncate_middle_longest_example =
    truncate_middle_longest cells cells-IsLawful "abcdef" 4 (omega arith) six_cells reversible

shortened_middle : truncate_middle cells "abcdef" (pos 4) ≡ "ab…f"
unfolding truncate_middle display_width take_prefix take_suffix string_eq nat_eq
shortened_middle = refl

padded_label :
    execute cells constant_templates (some (template_of " abcdef ")) sample_context (pos 5)
    ≡ ok " ab… "
unfolding execute finish apply_max_width truncate display_width take_prefix sanitize_controls
    strip_missing_values is_control_only has_prefix has_suffix without_ends string_eq nat_eq
padded_label = refl

execute-IsFit_example : IsFit cells (pos 5) " ab… "
execute-IsFit_example =
    execute-IsFit cells cells-IsLawful constant_templates (some (template_of " abcdef "))
      sample_context (pos 5) " ab… " padded_label

placeholder_shown : is_control_only "<no value>" ≡ false
unfolding is_control_only
placeholder_shown = refl

placeholder_gone : strip_missing_values "<no value>" ≡ ""
unfolding strip_missing_values string_eq nat_eq
placeholder_gone = refl

execute-eq-ok_nil_example :
    execute cells constant_templates (some (template_of "<no value>")) sample_context (pos 5)
    ≡ ok ""
execute-eq-ok_nil_example =
    execute-eq-ok_nil cells cells-IsLawful constant_templates (template_of "<no value>")
      sample_context (pos 5) "<no value>" refl placeholder_shown placeholder_gone
