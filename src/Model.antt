-- ===== src/Model.antt =====
-- internal/model/context.go: the values that templates and profiles see.
-- A position that the program counts is a native ℕ; an `int` that it passes on is a `ℤ`. A
-- `time.Time` is the number of its nanosecond.
use herdr_tabline.Base.{ℕ, String, Bool, false, List, []}
use herdr_tabline.Base.Int.{ℤ, pos}
use herdr_tabline.Base.Dict.{Dict}
use herdr_tabline.Api.{Json}

pub record Worktree : Type 0 where
  pub present : Bool
  pub repo_key : String
  pub repo_name : String
  pub repo_root : String
  pub checkout_path : String
  pub is_linked_worktree : Bool

pub record Workspace : Type 0 where
  pub id : String
  pub label : String
  pub active_tab_id : String
  pub agent_status : String
  pub number : ℕ
  pub native_number : ℤ
  pub tab_count : ℤ
  pub pane_count : ℤ
  pub focused : Bool
  pub tokens : Dict Json
  pub worktree : Worktree

pub record Tab : Type 0 where
  pub id : String
  pub label : String
  pub current_label : String
  pub rendered_label : String
  pub index : ℕ
  pub number : ℕ
  pub native_number : ℤ
  pub pane_count : ℤ
  pub focused : Bool

pub record Pane : Type 0 where
  pub id : String
  pub label : String
  pub title : String
  pub focused : Bool
  pub focused_in_tab : Bool
  pub cwd : String
  pub foreground_cwd : String
  pub effective_cwd : String
  pub directory : String
  pub terminal_id : String
  pub terminal_title : String
  pub terminal_title_stripped : String
  pub agent : String
  pub display_agent : String
  pub agent_status : String
  pub state_labels : List String
  pub tokens : Dict Json

pub record Process : Type 0 where
  pub pid : ℤ
  pub name : String
  pub argv0 : String
  pub argv : List String
  pub command_line : String
  pub cwd : String

pub record Shell : Type 0 where
  pub pid : ℤ
  pub tty : String

pub record Agent : Type 0 where
  pub active : Bool
  pub kind : String
  pub name : String
  pub display_name : String
  pub status : String
  pub interactive_ready : Bool
  pub launch_pending : Bool
  pub state_change_seq : ℤ
  pub title : String
  pub terminal_title : String
  pub terminal_title_stripped : String
  pub state_labels : List String
  pub tokens : Dict Json
  pub has_session : Bool

pub record Context : Type 0 where
  pub workspace : Workspace
  pub tab : Tab
  pub pane : Pane
  pub panes : List Pane
  pub process : Process
  pub processes : List Process
  pub process_by_pgid : Process
  pub shell : Shell
  pub agent : Agent
  pub profile : String
  pub now : ℕ

pub record LabelHistory : Type 0 where
  pub source_label : String
  pub rendered_label : String

-- The persisted map, from tab ids.
abbrev pub History : Type 0
History = Dict LabelHistory

pub record Session : Type 0 where
  pub workspace : Workspace
  pub workspaces : ℕ
  pub agents : ℕ
  pub blocked : ℕ
  pub working : ℕ
  pub done : ℕ
  pub idle : ℕ
  pub unknown : ℕ
  pub attention : ℕ
  pub now : ℕ

-- The zero values.
abbrev pub zero_worktree : Worktree
zero_worktree = record {
  present = false;
  repo_key = "";
  repo_name = "";
  repo_root = "";
  checkout_path = "";
  is_linked_worktree = false;
}

abbrev pub zero_workspace : Workspace
zero_workspace = record {
  id = "";
  label = "";
  active_tab_id = "";
  agent_status = "";
  number = 0;
  native_number = pos 0;
  tab_count = pos 0;
  pane_count = pos 0;
  focused = false;
  tokens = [];
  worktree = zero_worktree;
}

abbrev pub zero_pane : Pane
zero_pane = record {
  id = "";
  label = "";
  title = "";
  focused = false;
  focused_in_tab = false;
  cwd = "";
  foreground_cwd = "";
  effective_cwd = "";
  directory = "";
  terminal_id = "";
  terminal_title = "";
  terminal_title_stripped = "";
  agent = "";
  display_agent = "";
  agent_status = "";
  state_labels = [];
  tokens = [];
}

abbrev pub zero_process : Process
zero_process = record { pid = pos 0; name = ""; argv0 = ""; argv = []; command_line = ""; cwd = "" }

abbrev pub zero_shell : Shell
zero_shell = record { pid = pos 0; tty = "" }

abbrev pub zero_history : LabelHistory
zero_history = record { source_label = ""; rendered_label = "" }
