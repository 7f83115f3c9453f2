-- ===== src/Render/Helpers.antt =====
-- internal/render/helpers.go: the functions of the repository that templates call.
-- A template's value is what `reflect` tells apart: a nil interface, a text, a Boolean, an integer, a
-- struct, or a slice with the zero value of its elements and, where it is not nil, its elements.
-- The functions that only pass on a call of the standard library are left out.
pub mod Homes
pub mod Choices
use Prim.Native.Char.{code}
use herdr_tabline.Base.{
  ℕ, zero, suc, String, ◌<>◌, Bool, true, false, not, ◌&&◌, Option, none, some, List, [], ◌∷◌, ◌==◌,
  string_eq, nat_eq, if◌then◌else◌,
}
use herdr_tabline.Base.Int.{ℤ, pos, int_eq}
use herdr_tabline.Base.Dict.{Dict, lookup}
use herdr_tabline.Base.Text.{has_prefix, chars, join}

abbrev pub drop : ℕ → String → String
drop zero s = s
drop (suc n) String.[] = String.[]
drop (suc n) (String.◌∷◌ c s) = drop n s

-- `strings.TrimPrefix`
unfoldable pub trim_prefix : String → String → String
trim_prefix s prefix = if has_prefix s prefix then drop (chars prefix) s else s

-- `strings.Cut`, with the separator as its code: what is before it, and what is behind it, if it is there.
unfoldable pub cut : ℕ → String → String × Option String
cut sep String.[] = ("", none)
cut sep (String.◌∷◌ c s) =
    let rest = cut sep s in if code c == sep then ("", some s) else (String.◌∷◌ c rest.0, rest.1)

abbrev pub from_home : String → String × Option String → String
from_home value (user, relative) =
    if user == "" then value else elim relative [ none ↦ "~" | some path ↦ "~/" <> path ]

unfoldable pub home_relative_in : List String → String → String
home_relative_in [] value = value
home_relative_in (root ∷ roots) value =
    let rest = home_relative_in roots value in
    if has_prefix value root then from_home value (cut b'/' (trim_prefix value root)) else rest

-- `homeRelative`
unfoldable pub home_relative : String → String
home_relative value = home_relative_in ("/Users/" ∷ "/home/" ∷ []) value

mutual
  pub data Value : Type 0 where
    nil : Value
    text : String → Value
    flag : Bool → Value
    number : ℤ → Value
    structure : Values → Value
    -- the zero value of the elements, and the elements of a slice that is not nil
    nil_slice : Value → Value
    slice : Value → Values → Value

  pub data Values : Type 0 where
    ends : Values
    another : Value → Values → Values

unfoldable mutual
  -- `isEmpty`
  pub is_zero : Value → Bool
  is_zero nil = true
  is_zero (text s) = s == ""
  is_zero (flag b) = not b
  is_zero (number n) = n == pos 0
  is_zero (structure fields) = all_zero fields
  is_zero (nil_slice z) = true
  is_zero (slice z items) = false

  pub all_zero : Values → Bool
  all_zero ends = true
  all_zero (another v vs) = is_zero v && all_zero vs

-- `defaultValue`
unfoldable pub default_value : Value → Value → Value
default_value fallback value = if is_zero value then fallback else value

unfoldable pub coalesce : List Value → Value
coalesce [] = text ""
coalesce (v ∷ vs) = let rest = coalesce vs in if is_zero v then rest else v

abbrev pub head_or : Value → Values → Value
head_or zero_value ends = zero_value
head_or zero_value (another v vs) = v

abbrev pub last_or : Value → Values → Value
last_or zero_value ends = zero_value
last_or zero_value (another v vs) = last_or v vs

-- `first`, by `collectionEnd`, and `last`. Of what is no slice it is the empty text.
unfoldable pub first : Value → Value
first (nil_slice z) = z
first (slice z items) = head_or z items
first v = text ""

unfoldable pub last : Value → Value
last (nil_slice z) = z
last (slice z items) = last_or z items
last v = text ""

abbrev pub printed : (Value → String) → Values → List String
printed sprint ends = []
printed sprint (another v vs) = sprint v ∷ printed sprint vs

-- `join`, with `fmt.Sprint`
unfoldable pub join_values : (Value → String) → String → Value → String
join_values sprint separator (nil_slice z) = ""
join_values sprint separator (slice z items) = join separator (printed sprint items)
join_values sprint separator v = ""

abbrev pub or_itself : String → Option String → String
or_itself value none = value
or_itself value (some replacement) = replacement

-- `m[group]`, where a missing map is an empty one
abbrev pub group_of : Option (Dict String) → Dict String
group_of none = []
group_of (some entries) = entries

unfoldable pub alias : Dict (Dict String) → String → String → String
alias aliases group value = or_itself value (lookup value (group_of (lookup group aliases)))

unfoldable pub status_icon : Dict (Dict String) → String → String
status_icon icons status = or_itself status (lookup status (group_of (lookup "agent_status" icons)))
