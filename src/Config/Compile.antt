-- ===== src/Config/Compile.antt =====
-- internal/config/load.go: `compile` and what it calls.
pub mod Validity
use herdr_tabline.Base.{
  ℕ, suc, ◌+◌, String, Bool, true, false, not, ◌&&◌, ◌||◌, Option, none, some, List, [], ◌∷◌, ◌++◌,
}
use herdr_tabline.Base.{◌==◌, string_eq, contains, if◌then◌else◌}
use herdr_tabline.Base.Int.{ℤ, pos, int_eq, ltb_ℤ}
use herdr_tabline.Base.Dict.{Dict, merge, clone_nested}
use herdr_tabline.Base.Result.{Result, ok, err, ◌>>=◌, map_err}
use herdr_tabline.Render.Engine
use herdr_tabline.Render.Engine.{Engine, Templates, Template, RenderError, new_engine}
use herdr_tabline.Config.Types.{
  Mode, mode_auto, mode_keybind, mode_off, default_template, default_status_template, Match,
  Profile, Source, Host, CompiledMatch, CompiledProfile, Compiled,
}
use herdr_tabline.Config.Matching.{GlobError, normalize_glob}

pub data ConfigError : Type 0 where
  unsupported_schema_version : ℤ → ConfigError
  invalid_mode : Mode → ConfigError
  invalid_duration : String → String → String → ConfigError
  duration_out_of_range : String → ℤ → ConfigError
  invalid_max_width : ℤ → ConfigError
  invalid_template : RenderError → ConfigError
  profile_without_name : ℕ → ConfigError
  duplicate_profile : String → ConfigError
  profile_invalid_mode : String → Mode → ConfigError
  profile_invalid_max_width : String → ConfigError
  profile_invalid : String → ConfigError → ConfigError
  invalid_regexp : String → String → String → ConfigError
  invalid_glob : String → ConfigError
  glob_not_normalized : GlobError → ConfigError
  read_failed : String → ConfigError
  decode_failed : String → ConfigError
  unknown_key : String → ConfigError
  stat_failed : String → ConfigError

-- Fails with the error where the test is true: Go's `if test { return nil, err }`.
unfoldable pub reject : Bool → ConfigError → Result ConfigError (Unit {0})
reject true e = err e
reject false e = ok tt

infixl 5 ◌>>◌
abbrev pub ◌>>◌ {ℓ} :
    {B : Type ℓ} → Result ConfigError (Unit {0}) → Result ConfigError B → Result ConfigError B
first >> second = first >>= λ _. second

unfoldable pub valid_mode : Mode → Bool
valid_mode mode = mode == mode_auto || (mode == mode_keybind || mode == mode_off)

-- `x < 0 || x > 1024`
abbrev pub bad_width : ℤ → Bool
bad_width width = ltb_ℤ width (pos 0) || ltb_ℤ (pos 1024) width

-- `*p` or the default of a nil pointer
abbrev pub default_of {ℓ} : {A : Type ℓ} → A → Option A → A
default_of d none = d
default_of d (some a) = a

abbrev default_text : String → String → String
default_text d s = if s == "" then d else s

abbrev pub default_icons : Dict String
default_icons =
    ("working", "◐") ∷ ("blocked", "×") ∷ ("done", "✓") ∷ ("idle", "○") ∷ ("unknown", "·") ∷ []

-- nanoseconds
abbrev pub hundred_milliseconds : ℤ
hundred_milliseconds = pos 100_000_000

abbrev pub two_seconds : ℤ
two_seconds = pos 2_000_000_000

abbrev pub minute : ℤ
minute = pos 60_000_000_000

module _ (H : Host) where
  unfoldable pub parse_bounded_duration : String → String → ℤ → ℤ → Result ConfigError ℤ
  parse_bounded_duration field value low high = do
    parsed ← map_err (invalid_duration field value) (H.parse_duration value)
    reject (ltb_ℤ parsed low || ltb_ℤ high parsed) (duration_out_of_range field parsed)
    ok parsed

  compile_regexes : String → List String → Result ConfigError (List H.Regexp)
  compile_regexes kind [] = ok []
  compile_regexes kind (value ∷ values) = do
    re ← map_err (invalid_regexp kind value) (H.compile_regexp value)
    rest ← compile_regexes kind values
    ok (re ∷ rest)

  compile_globs : List String → Result ConfigError (List String)
  compile_globs [] = ok []
  compile_globs (glob ∷ globs) = do
    normalized ← map_err glob_not_normalized (normalize_glob H glob)
    reject (not (H.valid_glob normalized)) (invalid_glob glob)
    rest ← compile_globs globs
    ok (normalized ∷ rest)

  unfoldable pub compile_match : Match → Result ConfigError (CompiledMatch H)
  unfolding compile_regexes compile_globs
  compile_match input = do
    workspace ← compile_regexes "workspace_label_regex" input.workspace_label_regex
    tab ← compile_regexes "tab_label_regex" input.tab_label_regex
    process ← compile_regexes "process_regex" input.process_regex
    agent ← compile_regexes "agent_regex" input.agent_regex
    globs ← compile_globs input.cwd_glob
    ok (record {
      workspace_label = workspace;
      tab_label = tab;
      cwd_glob = globs;
      process = process;
      agent = agent;
      agent_status = input.agent_status;
    })

abbrev set_mode_is_bad : Option Mode → Bool
set_mode_is_bad none = false
set_mode_is_bad (some mode) = not (valid_mode mode)

abbrev set_width_is_bad : Option ℤ → Bool
set_width_is_bad none = false
set_width_is_bad (some width) = bad_width width

-- The default icons under those of the configuration.
abbrev pub configured_icons : Source → Dict (Dict String)
configured_icons input = ("agent_status", merge input.icons_agent_status default_icons) ∷ []

module _ (H : Host) (T : Templates) where
  abbrev compile_template : Engine → String → String → Result ConfigError (Template T)
  compile_template engine name source =
      map_err invalid_template (Engine.compile T engine name source)

  abbrev compile_optional :
      Engine → String → Option String → Result ConfigError (Option (Template T))
  compile_optional engine name none = ok none
  compile_optional engine name (some source) = do
    template ← compile_template engine name source
    ok (some template)

  -- The body of the loop over the profiles, at an index and with the names seen.
  unfoldable pub compile_profile :
      Engine → ℕ → List String → Profile → Result ConfigError (CompiledProfile H T)
  compile_profile engine index names profile = do
    reject (profile.name == "") (profile_without_name (index + 1))
    reject (contains names profile.name) (duplicate_profile profile.name)
    reject (set_mode_is_bad profile.mode)
        (profile_invalid_mode profile.name (default_of mode_auto profile.mode))
    reject (set_width_is_bad profile.max_width) (profile_invalid_max_width profile.name)
    matcher ← map_err (profile_invalid profile.name) (compile_match H profile.match)
    template ← compile_optional engine profile.name profile.template
    ok (record {
      name = profile.name;
      mode = profile.mode;
      template = template;
      max_width = profile.max_width;
      match = matcher;
    })

  unfoldable pub compile_profiles :
      Engine → ℕ → List String → List Profile → Result ConfigError (List (CompiledProfile H T))
  compile_profiles engine index names [] = ok []
  compile_profiles engine index names (profile ∷ profiles) = do
    item ← compile_profile engine index names profile
    rest ← compile_profiles engine (index + 1) (profile.name ∷ names) profiles
    ok (item ∷ rest)

  unfoldable pub compile : Source → Result ConfigError (Compiled H T)
  compile input = do
    let schema_version = default_of (pos 1) input.schema_version
    reject (not (schema_version == pos 1)) (unsupported_schema_version schema_version)
    let mode = default_of mode_auto input.mode
    reject (not (valid_mode mode)) (invalid_mode mode)
    poll_interval ←
        parse_bounded_duration H "poll_interval" (default_text "2s" input.poll_interval)
          hundred_milliseconds minute
    refresh_debounce ←
        parse_bounded_duration H "refresh_debounce" (default_text "80ms" input.refresh_debounce)
          (pos 0) two_seconds
    reject (bad_width input.max_width) (invalid_max_width input.max_width)
    let icons = configured_icons input
    let engine = new_engine input.aliases icons
    template ← compile_template engine "default" (default_text default_template input.template)
    status ←
        compile_template engine "status"
          (default_text default_status_template input.status_template)
    profiles ← compile_profiles engine 0 [] input.profiles
    ok (record {
      mode = mode;
      template = template;
      max_width = input.max_width;
      poll_interval = poll_interval;
      refresh_debounce = refresh_debounce;
      aliases = clone_nested input.aliases;
      icons = clone_nested icons;
      status = status;
      profiles = profiles;
    })
