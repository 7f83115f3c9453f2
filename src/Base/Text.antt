-- ===== src/Base/Text.antt =====
-- Go's `strings`, as far as the program uses it, on native texts.
use Prim.Native.Nat.{ℕ, zero, suc, ◌-◌}
use Prim.Native.Char.{Char, code}
use Prim.Native.String.{String, ◌++◌}
use mathlib.Core.Bool.{Bool, true, false, ◌&&◌, ◌||◌}
use mathlib.Core.Option.{Option, none, some}
use mathlib.Core.List.{List, [], ◌∷◌}
use herdr_tabline.Base.Equality.{◌==◌, nat_eq, string_eq, leb, if◌then◌else◌}

-- `strings.HasPrefix(s, prefix)`
unfoldable pub has_prefix : String → String → Bool
has_prefix s String.[] = true
has_prefix String.[] (String.◌∷◌ c t) = false
has_prefix (String.◌∷◌ d s) (String.◌∷◌ c t) = code d == code c && has_prefix s t

abbrev onto_first : Char → List String → List String
onto_first c [] = String.◌∷◌ c String.[] ∷ []
onto_first c (w ∷ ws) = String.◌∷◌ c w ∷ ws

-- `strings.Split(s, "/")`, with the separator as its code
unfoldable pub split : ℕ → String → List String
split sep String.[] = "" ∷ []
split sep (String.◌∷◌ c s) =
    let rest = split sep s in if code c == sep then "" ∷ rest else onto_first c rest

-- `strings.Join(words, separator)`
unfoldable pub join : String → List String → String
join separator [] = ""
join separator (w ∷ []) = w
join separator (w ∷ v ∷ ws) = w ++ (separator ++ join separator (v ∷ ws))

-- `strings.HasSuffix(s, suffix)`
unfoldable pub has_suffix : String → String → Bool
has_suffix String.[] suffix = suffix == ""
has_suffix (String.◌∷◌ c s) suffix = String.◌∷◌ c s == suffix || has_suffix s suffix

abbrev pub chars : String → ℕ
chars String.[] = 0
chars (String.◌∷◌ c s) = suc (chars s)

remove_loop : String → ℕ → String → String
unfolding has_prefix
remove_loop pattern skip String.[] = String.[]
remove_loop pattern (suc skip) (String.◌∷◌ c s) = remove_loop pattern skip s
remove_loop pattern zero (String.◌∷◌ c s) =
    let rest = String.◌∷◌ c (remove_loop pattern zero s) in
    let skipped = remove_loop pattern (chars pattern - 1) s in
    if has_prefix (String.◌∷◌ c s) pattern then skipped else rest

-- `strings.ReplaceAll(s, pattern, "")`, for a pattern that is not empty: from the left, each
-- occurrence goes, and the search goes on behind it.
unfoldable pub remove_all : String → String → String
unfolding remove_loop
remove_all pattern s = remove_loop pattern 0 s

unfoldable pub without_last : Char → String → String
without_last c String.[] = String.[]
without_last c (String.◌∷◌ d s) = String.◌∷◌ c (without_last d s)

-- `s[1 : len(s)-1]` of a text that begins and ends with one-byte characters; `none` is the panic
-- where the text is too short.
unfoldable pub without_ends : String → Option String
unfolding without_last
without_ends String.[] = none
without_ends (String.◌∷◌ c String.[]) = none
without_ends (String.◌∷◌ c (String.◌∷◌ d s)) = some (without_last d s)

-- `unicode.IsSpace`
unfoldable pub is_space : Char → Bool
is_space c =
    let n = code c in
    (leb 9 n && leb n 13)
    || n == 32
    || n == 133
    || n == 160
    || n == 5760
    || (leb 8192 n && leb n 8202)
    || n == 8232
    || n == 8233
    || n == 8239
    || n == 8287
    || n == 12288

unfoldable pub trim_left : String → String
unfolding is_space
trim_left String.[] = String.[]
trim_left (String.◌∷◌ c s) = let rest = trim_left s in if is_space c then rest else String.◌∷◌ c s

unfoldable pub trim_right : String → String
unfolding is_space
trim_right String.[] = String.[]
trim_right (String.◌∷◌ c s) =
    let rest = trim_right s in if is_space c && rest == "" then "" else String.◌∷◌ c rest

-- `strings.TrimSpace(s)`
unfoldable pub trim_space : String → String
unfolding trim_left trim_right
trim_space s = trim_right (trim_left s)

-- `s[n:]` of a text that begins with `n` one-byte characters
unfoldable pub drop_chars : ℕ → String → String
drop_chars zero s = s
drop_chars (suc n) String.[] = String.[]
drop_chars (suc n) (String.◌∷◌ c s) = drop_chars n s
