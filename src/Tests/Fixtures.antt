-- ===== src/Tests/Fixtures.antt =====
-- Concrete stand-ins for the code that the program only calls, and sample data.
use Prim.Native.String.append
use herdr_tabline.Base.{
  ℕ, ◌+◌, ◌≡◌, refl, String, ◌<>◌, true, false, none, some, List, [], ◌∷◌, ◌++◌, arith, ◌==◌,
  string_eq,
}
use herdr_tabline.Base.Int.{pos}
use herdr_tabline.Base.Result.{ok}
use herdr_tabline.Api
use herdr_tabline.Api.{Snapshot}
use herdr_tabline.Model.{Context, zero_workspace, zero_pane, zero_process, zero_shell}
use herdr_tabline.Render.Width.{Graphemes, ellipsis, total_width, text_of, display_width}
use herdr_tabline.Render.Width.Bounds.{IsLawful}
use herdr_tabline.Render.Engine.{Templates}
use herdr_tabline.Config.Types.{Host, Match, Profile, Source}

-- Each character is a cluster of one cell.
abbrev pub cells_of : String → List (String × ℕ)
cells_of String.[] = []
cells_of (String.◌∷◌ c s) = (String.◌∷◌ c String.[], 1) ∷ cells_of s

abbrev pub cells : Graphemes
cells = record { clusters = cells_of }

text_of-cells_of : (s : String) → text_of (cells_of s) ≡ s
text_of-cells_of String.[] = refl
text_of-cells_of (String.◌∷◌ c s) =
    rw (text_of-cells_of s, append.cons c String.[] s, append.nil s) refl

cells_of_leading :
    (s : String) (taken rest : List (String × ℕ))
    → cells_of s ≡ taken ++ rest
    → cells_of (text_of taken) ≡ taken
cells_of_leading s [] rest h = refl
cells_of_leading String.[] (x ∷ taken) rest h = cc
cells_of_leading (String.◌∷◌ c s) ((part, w) ∷ taken) rest h =
    let p : part ≡ String.◌∷◌ c String.[] = cc in
    let q : w ≡ 1 = cc in
    let r : cells_of s ≡ taken ++ rest = cc in
    rw
      (
        p,
        q,
        append.cons c String.[] (text_of taken),
        append.nil (text_of taken),
        cells_of_leading s taken rest r,
      )
      refl

cells_of_width :
    (s t : String)
    → total_width (cells_of (s <> t)) ≡ total_width (cells_of s) + total_width (cells_of t)
cells_of_width String.[] t = rw (append.nil t) (omega arith)
cells_of_width (String.◌∷◌ c s) t = rw (append.cons c s t) (omega (arith, cells_of_width s t))

pub cells-IsLawful : IsLawful cells
unfolding display_width
cells-IsLawful = record {
  text_of-clusters = text_of-cells_of;
  clusters_leading = cells_of_leading;
  ellipsis_width = refl;
  space_width = refl;
  width_then_ellipsis = λ s. omega (arith, cells_of_width s ellipsis);
  width_then_space = λ s. omega (arith, cells_of_width s " ");
  width_after_space = λ s. omega (arith, cells_of_width " " s);
}

-- A program is the text that it gives.
abbrev pub constant_templates : Templates
constant_templates = record {
  Program = String;
  name = λ program. program;
  parse = λ engine name source. ok source;
  run = λ program ctx. ok program;
  run_session = λ program session. ok program;
}

-- Expressions and globs that match themselves only; every duration is a second.
abbrev pub plain_host : Host
plain_host = record {
  Regexp = String;
  compile_regexp = λ s. ok s;
  match_regexp = λ re s. re == s;
  valid_glob = λ s. true;
  match_glob = λ glob s. some (glob == s);
  cwd = some "/w";
  home = some "/home/u";
  parse_duration = λ s. ok (pos 1_000_000_000);
}

abbrev pub workspace_one : Api.Workspace
workspace_one = record {
  workspace_id = "w1";
  number = pos 7;
  label = "api";
  focused = true;
  tab_count = pos 2;
  pane_count = pos 1;
  active_tab_id = "t1";
  agent_status = "";
  tokens = [];
  worktree = none;
}

abbrev pub raw_tab : String → String → String → Api.Tab
raw_tab id workspace label = record {
  tab_id = id;
  workspace_id = workspace;
  number = pos 9;
  label = label;
  focused = false;
  pane_count = pos 0;
  agent_status = "";
}

abbrev pub agent_in : String → String → Api.Agent
agent_in pane status = record {
  pane_id = pane;
  tab_id = "t1";
  workspace_id = "w1";
  agent = "claude";
  name = "";
  display_agent = "";
  agent_status = status;
  focused = false;
  cwd = "";
  foreground_cwd = "";
  terminal_id = "";
  revision = pos 0;
  interactive_ready = false;
  launch_pending = false;
  state_change_seq = pos 0;
  title = "";
  terminal_title = "";
  terminal_title_stripped = "";
  state_labels = [];
  tokens = [];
  agent_session = "";
}

abbrev pub two_tabs : Snapshot
two_tabs = record {
  protocol = pos 1;
  version = "1";
  workspaces = workspace_one ∷ [];
  tabs = raw_tab "t1" "w1" "old" ∷ raw_tab "t2" "w1" "new" ∷ [];
  panes = [];
  layouts = [];
  agents = agent_in "p1" "working" ∷ agent_in "p2" "odd" ∷ [];
  focused_workspace_id = "w1";
  focused_tab_id = "t1";
  focused_pane_id = "";
}

abbrev pub sample_context : Context
sample_context = record {
  workspace = zero_workspace;
  tab = record {
    id = "t1";
    label = "old";
    current_label = "old";
    rendered_label = "";
    index = 0;
    number = 1;
    native_number = pos 1;
    pane_count = pos 0;
    focused = true;
  };
  pane = zero_pane;
  panes = [];
  process = zero_process;
  processes = [];
  process_by_pgid = zero_process;
  shell = zero_shell;
  agent = record {
    active = false;
    kind = "";
    name = "";
    display_name = "";
    status = "";
    interactive_ready = false;
    launch_pending = false;
    state_change_seq = pos 0;
    title = "";
    terminal_title = "";
    terminal_title_stripped = "";
    state_labels = [];
    tokens = [];
    has_session = false;
  };
  profile = "default";
  now = 0;
}

abbrev pub no_match : Match
no_match = record {
  workspace_label_regex = [];
  tab_label_regex = [];
  cwd_glob = [];
  process_regex = [];
  agent_regex = [];
  agent_status = [];
}

abbrev pub sample_profile : Profile
sample_profile = record {
  name = "quiet";
  mode = some "off";
  template = none;
  max_width = some (pos 10);
  match = no_match;
}

abbrev pub sample_source : Source
sample_source = record {
  schema_version = some (pos 1);
  mode = some "auto";
  template = "shell";
  poll_interval = "1s";
  refresh_debounce = "1s";
  max_width = pos 20;
  aliases = [];
  icons_agent_status = [];
  profiles = sample_profile ∷ [];
  status_template = "status";
}
