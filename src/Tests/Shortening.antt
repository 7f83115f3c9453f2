-- ===== src/Tests/Shortening.antt =====
-- The helpers of internal/render/helpers.go on concrete values.
use herdr_tabline.Base.{◌≡◌, ◌≢◌, refl, String, ◌<>◌, true, [], ◌∷◌, string_eq, nat_eq, text_apart}
use herdr_tabline.Base.Int.{pos, int_eq}
use herdr_tabline.Base.Dict.{lookup}
use herdr_tabline.Base.Text.{has_prefix}
use herdr_tabline.Render.Helpers.{
  home_relative, home_relative_in, trim_prefix, cut, nil, text, number, slice, ends, is_zero,
  coalesce, last, alias,
}
use herdr_tabline.Render.Helpers.Homes.{is_name, home_relative_lem}

abbrev user : String
user = "ana"

named : user ≢ ""
named = text_apart "ana" "" refl

single_name : is_name user ≡ true
unfolding nat_eq
single_name = refl

home_relative_lem_example :
    (home_relative ("/Users/" <> (user <> ("/" <> "src/x"))) ≡ "~/" <> "src/x")
    × (home_relative ("/home/" <> (user <> ("/" <> "src/x"))) ≡ "~/" <> "src/x")
    × (home_relative ("/Users/" <> user) ≡ "~")
    × (home_relative ("/home/" <> user) ≡ "~")
home_relative_lem_example = home_relative_lem user "src/x" named single_name

unnamed : home_relative "/home//x" ≡ "/home//x"
unfolding home_relative home_relative_in trim_prefix cut has_prefix string_eq nat_eq
unnamed = refl

first_given : coalesce (nil ∷ text "" ∷ number (pos 0) ∷ text "a" ∷ text "b" ∷ []) ≡ text "a"
unfolding coalesce is_zero string_eq int_eq nat_eq
first_given = refl

empty_slice : last (slice (text "") ends) ≡ text ""
unfolding last
empty_slice = refl

other_group : alias (("dirs", ("src", "S") ∷ []) ∷ []) "icons" "src" ≡ "src"
unfolding alias lookup string_eq
other_group = refl
