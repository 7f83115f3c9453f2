-- ===== src/Api.antt =====
-- internal/herdrapi/types.go: what the server sends, decoded.
-- A Go `int` is a `ℤ`, a pointer that may be nil an `Option`, a `json.RawMessage` its text. A
-- decoded JSON value (`any`) is a `Json`, where a number keeps its text; so does the `float64`
-- of a split, which the program never reads.
use herdr_tabline.Base.{String, Bool, Option, List}
use herdr_tabline.Base.Int.{ℤ}
use herdr_tabline.Base.Dict.{Dict}

-- `any`, as `encoding/json` decodes into it.
mutual
  pub data Json : Type 0 where
    null : Json
    bool : Bool → Json
    num : String → Json
    str : String → Json
    arr : Items → Json
    obj : Members → Json

  pub data Items : Type 0 where
    nil : Items
    cons : Json → Items → Items

  pub data Members : Type 0 where
    end : Members
    member : String → Json → Members → Members

pub record Worktree : Type 0 where
  pub repo_key : String
  pub repo_name : String
  pub repo_root : String
  pub checkout_path : String
  pub is_linked_worktree : Bool

pub record Workspace : Type 0 where
  pub workspace_id : String
  pub number : ℤ
  pub label : String
  pub focused : Bool
  pub tab_count : ℤ
  pub pane_count : ℤ
  pub active_tab_id : String
  pub agent_status : String
  pub tokens : Dict Json
  pub worktree : Option Worktree

pub record Tab : Type 0 where
  pub tab_id : String
  pub workspace_id : String
  pub number : ℤ
  pub label : String
  pub focused : Bool
  pub pane_count : ℤ
  pub agent_status : String

pub record Scroll : Type 0 where
  pub max_offset_from_bottom : ℤ
  pub offset_from_bottom : ℤ
  pub viewport_rows : ℤ

pub record Pane : Type 0 where
  pub pane_id : String
  pub tab_id : String
  pub workspace_id : String
  pub label : String
  pub title : String
  pub focused : Bool
  pub cwd : String
  pub foreground_cwd : String
  pub terminal_id : String
  pub terminal_title : String
  pub terminal_title_stripped : String
  pub agent : String
  pub display_agent : String
  pub agent_status : String
  pub agent_session : String
  pub revision : ℤ
  pub scroll : Scroll
  pub state_labels : List String
  pub tokens : Dict Json

pub record Rect : Type 0 where
  pub height : ℤ
  pub width : ℤ
  pub x : ℤ
  pub y : ℤ

pub record LayoutPane : Type 0 where
  pub pane_id : String
  pub focused : Bool
  pub rect : Rect

pub record Split : Type 0 where
  pub direction : String
  pub id : String
  pub ratio : String
  pub rect : Rect

pub record Layout : Type 0 where
  pub tab_id : String
  pub workspace_id : String
  pub focused_pane_id : String
  pub area : Rect
  pub panes : List LayoutPane
  pub splits : List Split
  pub zoomed : Bool

pub record Agent : Type 0 where
  pub pane_id : String
  pub tab_id : String
  pub workspace_id : String
  pub agent : String
  pub name : String
  pub display_agent : String
  pub agent_status : String
  pub focused : Bool
  pub cwd : String
  pub foreground_cwd : String
  pub terminal_id : String
  pub revision : ℤ
  pub interactive_ready : Bool
  pub launch_pending : Bool
  pub state_change_seq : ℤ
  pub title : String
  pub terminal_title : String
  pub terminal_title_stripped : String
  pub state_labels : List String
  pub tokens : Dict Json
  pub agent_session : String

pub record Snapshot : Type 0 where
  pub protocol : ℤ
  pub version : String
  pub workspaces : List Workspace
  pub tabs : List Tab
  pub panes : List Pane
  pub layouts : List Layout
  pub agents : List Agent
  pub focused_workspace_id : String
  pub focused_tab_id : String
  pub focused_pane_id : String

pub record Process : Type 0 where
  pub pid : ℤ
  pub name : String
  pub argv0 : String
  pub argv : List String
  pub command_line : String
  pub cwd : String

pub record ProcessInfo : Type 0 where
  pub pane_id : String
  pub foreground_process_group_id : Option ℤ
  pub foreground_processes : List Process
  pub shell_pid : Option ℤ
  pub tty : String
