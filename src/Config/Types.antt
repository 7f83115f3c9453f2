-- ===== src/Config/Types.antt =====
-- internal/config/types.go, and what the package uses that is not part of the program: regular
-- expressions, doublestar globs, the parsing of durations and of TOML, the home and the working
-- directory. Durations are nanoseconds.
use herdr_tabline.Base.{String, ◌<>◌, Option, List}
use herdr_tabline.Base.Int.{ℤ}
use herdr_tabline.Base.Dict.{Dict}
use herdr_tabline.Base.Result.{Result}
use herdr_tabline.Render.Engine.{Templates, Template}

-- `type Mode string`
abbrev pub Mode : Type 0
Mode = String

abbrev pub mode_auto : Mode
mode_auto = "auto"

abbrev pub mode_keybind : Mode
mode_keybind = "keybind"

abbrev pub mode_off : Mode
mode_off = "off"

abbrev pub default_template : String
default_template =
    " {{ .Tab.Number }}: {{ .Pane.Directory }} > "
    <> ("{{ if .Agent.Active }}{{ statusIcon .Agent.Status }} "
        <> ("{{ coalesce .Agent.DisplayName .Agent.Kind }}"
            <> "{{ else }}{{ .Process.Name }}{{ end }} "))

abbrev pub default_status_template : String
default_status_template =
    "{{ if .Blocked }}{{ statusIcon \"blocked\" }}{{ .Blocked }} {{ end }}"
    <> ("{{ if .Working }}{{ statusIcon \"working\" }}{{ .Working }} {{ end }}"
        <> ("{{ if .Done }}{{ statusIcon \"done\" }}{{ .Done }} {{ end }}"
            <> "{{ .Workspace.Label }}"))

pub record Match : Type 0 where
  pub workspace_label_regex : List String
  pub tab_label_regex : List String
  pub cwd_glob : List String
  pub process_regex : List String
  pub agent_regex : List String
  pub agent_status : List String

pub record Profile : Type 0 where
  pub name : String
  pub mode : Option Mode
  pub template : Option String
  pub max_width : Option ℤ
  pub match : Match

-- `source`, with `Icons.AgentStatus` and `Status.Template` as fields of their own.
pub record Source : Type 0 where
  pub schema_version : Option ℤ
  pub mode : Option Mode
  pub template : String
  pub poll_interval : String
  pub refresh_debounce : String
  pub max_width : ℤ
  pub aliases : Dict (Dict String)
  pub icons_agent_status : Dict String
  pub profiles : List Profile
  pub status_template : String

-- `regexp`, `github.com/bmatcuk/doublestar`, `os` and `time.ParseDuration`. A failure of `match_glob`,
-- of the working directory and of the home directory is `none`.
pub record Host : Type 1 where
  pub Regexp : Type 0
  pub compile_regexp : String → Result String Regexp
  pub match_regexp : Regexp → String → herdr_tabline.Base.Bool
  pub valid_glob : String → herdr_tabline.Base.Bool
  pub match_glob : String → String → Option herdr_tabline.Base.Bool
  pub cwd : Option String
  pub home : Option String
  pub parse_duration : String → Result String ℤ

pub record Effective (T : Templates) : Type 0 where
  pub mode : Mode
  pub template : Template T
  pub max_width : ℤ
  pub profile_name : String

pub record CompiledMatch (H : Host) : Type 0 where
  pub workspace_label : List H.Regexp
  pub tab_label : List H.Regexp
  pub cwd_glob : List String
  pub process : List H.Regexp
  pub agent : List H.Regexp
  pub agent_status : List String

pub record CompiledProfile (H : Host) (T : Templates) : Type 0 where
  pub name : String
  pub mode : Option Mode
  pub template : Option (Template T)
  pub max_width : Option ℤ
  pub match : CompiledMatch H

pub record Compiled (H : Host) (T : Templates) : Type 0 where
  pub mode : Mode
  pub template : Template T
  pub max_width : ℤ
  pub poll_interval : ℤ
  pub refresh_debounce : ℤ
  pub aliases : Dict (Dict String)
  pub icons : Dict (Dict String)
  pub status : Template T
  pub profiles : List (CompiledProfile H T)
