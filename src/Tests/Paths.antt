-- ===== src/Tests/Paths.antt =====
-- Go's `path/filepath` and `strings`, on inputs whose results the Go documentation gives.
use herdr_tabline.Base.{◌≡◌, refl, string_eq, nat_eq}
use herdr_tabline.Base.Text.{remove_all, trim_space}
use herdr_tabline.Base.FilePath.{base, clean, join_path}

clean_rooted : clean "/a/./b//../c/" ≡ "/a/c"
unfolding clean string_eq nat_eq
clean_rooted = refl

clean_relative : clean "../x/.." ≡ ".."
unfolding clean string_eq nat_eq
clean_relative = refl

base_slashes : base "/a/b/" ≡ "b"
unfolding base string_eq nat_eq
base_slashes = refl

join_path_up : join_path "/a/b" "../c" ≡ "/a/c"
unfolding join_path string_eq nat_eq
join_path_up = refl

remove_all_twice : remove_all "ab" "xababy" ≡ "xy"
unfolding remove_all string_eq nat_eq
remove_all_twice = refl

trim_space_both : trim_space "  a b " ≡ "a b"
unfolding trim_space string_eq nat_eq
trim_space_both = refl
