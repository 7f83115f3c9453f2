-- ===== src/Config/Matching.antt =====
-- internal/config/profile.go: the matchers of a profile, and the normalization of globs and paths.
-- `filepath.ToSlash` changes nothing on a unix system.
pub mod Categories
use herdr_tabline.Base.{
  String, Bool, true, false, ◌&&◌, Option, none, some, List, [], ◌∷◌, ◌==◌, string_eq,
  if◌then◌else◌,
}
use herdr_tabline.Base.Text.{has_prefix, drop_chars}
use herdr_tabline.Base.FilePath.{is_abs, abs, clean, join_path}
use herdr_tabline.Base.Result.{Result, ok, err, ◌>>=◌}
use herdr_tabline.Model
use herdr_tabline.Model.{Context}
use herdr_tabline.Config.Types.{Host, CompiledMatch}

pub data GlobError : Type 0 where
  expand_home normalize_cwd_glob : GlobError

abbrev pane_cwd : Model.Pane → String
pane_cwd pane =
    if pane.effective_cwd == ""
    then (if pane.foreground_cwd == "" then pane.cwd else pane.foreground_cwd)
    else pane.effective_cwd

string_is_one : List String → String → Bool
string_is_one [] value = false
string_is_one (candidate ∷ values) value =
    let rest = string_is_one values value in if candidate == value then true else rest

unfoldable pub string_matches : List String → String → Bool
unfolding string_is_one
string_matches [] value = true
string_matches (v ∷ values) value = string_is_one (v ∷ values) value

module _ (H : Host) where
  regex_is_one : List H.Regexp → String → Bool
  regex_is_one [] value = false
  regex_is_one (pattern_ ∷ patterns) value =
      let rest = regex_is_one patterns value in if H.match_regexp pattern_ value then true else rest

  unfoldable pub regex_matches : List H.Regexp → String → Bool
  unfolding regex_is_one
  regex_matches [] value = true
  regex_matches (p ∷ patterns) value = regex_is_one (p ∷ patterns) value

  -- The first absolute form of a path; `none` is the failure of `filepath.Abs`.
  absolute : String → Option String
  absolute path = if is_abs path then some path else abs H.cwd path

  unfoldable pub normalize_path : String → Option String
  unfolding absolute
  normalize_path path =
      if path == "" then some "" else elim (absolute path) [ none ↦ none | some p ↦ some (clean p) ]

  expanded : String → Result GlobError String
  expanded pattern_ =
      if has_prefix pattern_ "~/"
      then elim H.home [
        | none ↦ err expand_home
        | some home ↦ ok (join_path home (drop_chars 2 pattern_))
      ]
      else ok pattern_

  unfoldable pub normalize_glob : String → Result GlobError String
  unfolding expanded absolute
  normalize_glob pattern_ = do
    p ← expanded pattern_
    elim (absolute p) [ none ↦ err normalize_cwd_glob | some q ↦ ok (clean q) ]

  glob_is_one : List String → String → Bool
  glob_is_one [] path = false
  glob_is_one (pattern_ ∷ patterns) path =
      let rest = glob_is_one patterns path in
      elim (H.match_glob pattern_ path) [
        | none ↦ rest
        | some matched ↦ if matched then true else rest
      ]

  unfoldable pub glob_matches : List String → String → Bool
  unfolding glob_is_one normalize_path
  glob_matches [] cwd = true
  glob_matches (p ∷ patterns) cwd = elim (normalize_path cwd) [
    | none ↦ false
    | some path ↦ glob_is_one (p ∷ patterns) path
  ]

  unfoldable pub matches : CompiledMatch H → Context → Bool
  matches m context =
      regex_matches m.workspace_label context.workspace.label
      && (regex_matches m.tab_label context.tab.label
          && (glob_matches m.cwd_glob (pane_cwd context.pane)
              && (regex_matches m.process context.process.name
                  && (regex_matches m.agent context.agent.kind
                      && string_matches m.agent_status context.agent.status))))
