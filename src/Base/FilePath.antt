-- ===== src/Base/FilePath.antt =====
-- Go's `path/filepath` on a unix system: `Base`, `Clean`, `Join`, `IsAbs` and `Abs`.
use mathlib.Core.List.{reverse}
use mathlib.Core.Option
use herdr_tabline.Base.Equality.{◌==◌, string_eq, if◌then◌else◌}
use herdr_tabline.Base.Text.{has_prefix, split, join}
use Prim.Native.String.{String, ◌++◌}
use mathlib.Core.Bool.{Bool, true, false, ◌||◌}
use mathlib.Core.Option.{Option, none, some}
use mathlib.Core.List.{List, [], ◌∷◌}

-- The components between slashes, without the empty ones.
nonempty : List String → List String
nonempty [] = []
nonempty (w ∷ ws) = let rest = nonempty ws in if w == "" then rest else w ∷ rest

last_or : String → List String → String
last_or d [] = d
last_or d (w ∷ ws) = last_or w ws

-- `filepath.Base`
unfoldable pub base : String → String
unfolding nonempty last_or split
base path = if path == "" then "." else last_or "/" (nonempty (split b'/' path))

-- `filepath.IsAbs`
unfoldable pub is_abs : String → Bool
unfolding has_prefix
is_abs path = has_prefix path "/"

-- What `..` does to the components kept so far, the last one first.
ascend : Bool → List String → List String
ascend true [] = []
ascend false [] = ".." ∷ []
ascend rooted (w ∷ ws) = if w == ".." then ".." ∷ w ∷ ws else ws

keep_component : Bool → List String → String → List String
unfolding ascend
keep_component rooted kept w =
    if w == "" || w == "." then kept else if w == ".." then ascend rooted kept else w ∷ kept

keep_components : Bool → List String → List String → List String
unfolding keep_component
keep_components rooted kept [] = reverse kept
keep_components rooted kept (w ∷ ws) = keep_components rooted (keep_component rooted kept w) ws

-- `filepath.Clean`
unfoldable pub clean : String → String
unfolding is_abs keep_components split join
clean path =
    let rooted = is_abs path in
    let kept = join "/" (keep_components rooted [] (split b'/' path)) in
    if rooted then "/" ++ kept else if kept == "" then "." else kept

-- `filepath.Join(a, b)`
unfoldable pub join_path : String → String → String
unfolding clean
join_path a b =
    if a == ""
    then (if b == "" then "" else clean b)
    else if b == ""
    then clean a
    else clean (a ++ ("/" ++ b))

-- `filepath.Abs`, which needs the working directory of a relative path; `none` is its error.
unfoldable pub abs : Option String → String → Option String
unfolding is_abs clean join_path
abs cwd path = if is_abs path then some (clean path) else Option.map (λ dir. join_path dir path) cwd
