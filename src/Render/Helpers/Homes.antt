-- ===== src/Render/Helpers/Homes.antt =====
-- What internal/render/helpers.go's `homeRelative` keeps of a path.
use Prim.Native.Char.{code}
use Prim.Native.String.append
use herdr_tabline.Base.{
  ◌≡◌, ◌≢◌, ◌⊎◌, inl, inr, refl, ap, ◌∙◌, arith, String, ◌<>◌, Bool, true, false, not, ◌&&◌, Option,
  none, some, List, [], ◌∷◌, ◌==◌, string_eq, nat_eq, Bool-cases, Option-cases,
}
use herdr_tabline.Base.Text.{has_prefix, chars}
use herdr_tabline.Render.Helpers.{
  drop, trim_prefix, cut, from_home, home_relative_in, home_relative,
}

-- No `/` in a text.
abbrev pub is_name : String → Bool
is_name String.[] = true
is_name (String.◌∷◌ c s) = not (code c == 47) && is_name s

has_prefix-append : (p s : String) → has_prefix (p <> s) p ≡ true
unfolding has_prefix
has_prefix-append String.[] s = refl
has_prefix-append (String.◌∷◌ c p) s =
    rw (append.cons c p s) (ground (arith, has_prefix-append p s))

drop-append : (p s : String) → drop (chars p) (p <> s) ≡ s
drop-append String.[] s = rw (append.nil s) refl
drop-append (String.◌∷◌ c p) s = rw (append.cons c p s) (drop-append p s)

cut-name :
    (user rest : String) → is_name user ≡ true → cut 47 (user <> ("/" <> rest)) ≡ (user, some rest)
unfolding cut
cut-name String.[] rest h =
    rw (append.nil ("/" <> rest), append.cons "/" "" rest, append.nil rest) (unfold nat_eq in refl)
cut-name (String.◌∷◌ c user) rest h =
    rw (append.cons c user ("/" <> rest)) (ground (arith, cut-name user rest))

cut-alone : (user : String) → is_name user ≡ true → cut 47 user ≡ (user, none)
unfolding cut
cut-alone String.[] h = refl
cut-alone (String.◌∷◌ c user) h = ground (arith, cut-alone user)

home_relative_in_root :
    (root user tail : String) (roots : List String)
    → home_relative_in (root ∷ roots) (root <> tail) ≡ from_home (root <> tail) (cut 47 tail)
unfolding home_relative_in trim_prefix
home_relative_in_root root user tail roots =
    rw (has_prefix-append root tail, drop-append root tail) refl

home_relative_in_other :
    (root value : String) (roots : List String)
    → has_prefix value root ≡ false
    → home_relative_in (root ∷ roots) value ≡ home_relative_in roots value
unfolding home_relative_in
home_relative_in_other root value roots h = rw h refl

not_users : (tail : String) → has_prefix ("/home/" <> tail) "/Users/" ≡ false
unfolding has_prefix nat_eq
not_users tail = rw (append.cons "/" "home/" tail, append.cons "h" "ome/" tail) refl

from_home-name :
    (value user : String) (relative : Option String)
    → user ≢ ""
    → from_home value (user, relative) ≡ elim relative [ none ↦ "~" | some path ↦ "~/" <> path ]
from_home-name value user relative h = ground arith

home_relative-root :
    (tail : String)
    → (home_relative ("/Users/" <> tail) ≡ from_home ("/Users/" <> tail) (cut 47 tail))
      × (home_relative ("/home/" <> tail) ≡ from_home ("/home/" <> tail) (cut 47 tail))
unfolding home_relative
home_relative-root tail = (
  home_relative_in_root "/Users/" "" tail _,
  home_relative_in_other "/Users/" ("/home/" <> tail) _ (not_users tail)
      ∙ home_relative_in_root "/home/" "" tail _,
)

-- For every user's name that is not empty and has no slash, and every path: below the home directory
-- of either system the user is cut off, and `~` stands for the directory, alone or before the path.
pub home_relative_lem :
    (user rest : String)
    → user ≢ ""
    → is_name user ≡ true
    → (home_relative ("/Users/" <> (user <> ("/" <> rest))) ≡ "~/" <> rest)
      × (home_relative ("/home/" <> (user <> ("/" <> rest))) ≡ "~/" <> rest)
      × (home_relative ("/Users/" <> user) ≡ "~")
      × (home_relative ("/home/" <> user) ≡ "~")
home_relative_lem user rest h k =
    let (users, home) = home_relative-root (user <> ("/" <> rest)) in
    let (users', home') = home_relative-root user in
    let c = cut-name user rest k in
    let d = cut-alone user k in
    (
      users ∙ ap (from_home _) c ∙ from_home-name _ user (some rest) h,
      home ∙ ap (from_home _) c ∙ from_home-name _ user (some rest) h,
      users' ∙ ap (from_home _) d ∙ from_home-name _ user none h,
      home' ∙ ap (from_home _) d ∙ from_home-name _ user none h,
    )

from_home-cases :
    (value : String) (r : String × Option String)
    → (from_home value r ≡ value)
      ⊎ (from_home value r ≡ "~")
      ⊎ ((path : String) × (from_home value r ≡ "~/" <> path))
from_home-cases value (user, relative) = elim (Bool-cases (user == "")) [
  | inl unnamed ↦ inl (ground arith)
  | inr named ↦ elim (Option-cases relative) [
    | inl alone ↦ inr (inl (ground arith))
    | inr (path, e) ↦ inr (inr (path, ground arith))
  ]
]

home_relative_in-cases :
    (roots : List String) (value : String)
    → (home_relative_in roots value ≡ value)
      ⊎ (home_relative_in roots value ≡ "~")
      ⊎ ((path : String) × (home_relative_in roots value ≡ "~/" <> path))
unfolding home_relative_in
home_relative_in-cases [] value = inl refl
home_relative_in-cases (root ∷ roots) value = elim (Bool-cases (has_prefix value root)) [
  | inl below ↦ rw below (from_home-cases value (cut 47 (trim_prefix value root)))
  | inr other ↦ rw other (home_relative_in-cases roots value)
]

home_relative-tilde : home_relative "~" ≡ "~"
unfolding home_relative home_relative_in has_prefix nat_eq
home_relative-tilde = refl

home_relative-path : (path : String) → home_relative ("~/" <> path) ≡ "~/" <> path
unfolding home_relative home_relative_in has_prefix nat_eq
home_relative-path path = rw (append.cons "~" "/" path) refl

-- For every text: shortening it again changes nothing.
pub home_relative-home_relative :
    (value : String) → home_relative (home_relative value) ≡ home_relative value
unfolding home_relative
home_relative-home_relative value =
    elim (home_relative_in-cases ("/Users/" ∷ "/home/" ∷ []) value) [
      | inl same ↦ ap home_relative same
      | inr (inl home) ↦ rw home home_relative-tilde
      | inr (inr (path, below)) ↦ rw below (home_relative-path path)
    ]
