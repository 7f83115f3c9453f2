-- ===== src/Collector/Normalize.antt =====
-- internal/collector/collector.go: `normalizeWorkspace`, `normalizePane`, `normalizeAgent` and
-- `normalizeProcess`.
use herdr_tabline.Base.{ℕ, ◌+◌, Bool, true, false, not, ◌&&◌, Option, none, some}
use herdr_tabline.Base.{◌==◌, string_eq, if◌then◌else◌}
use herdr_tabline.Base.Int.{pos}
use herdr_tabline.Base.FilePath.{base}
use herdr_tabline.Api
use herdr_tabline.Model
use herdr_tabline.Model.{zero_workspace, zero_worktree}

normalize_worktree : Option Api.Worktree → Model.Worktree
normalize_worktree none = zero_worktree
normalize_worktree (some raw) = record {
  present = true;
  repo_key = raw.repo_key;
  repo_name = raw.repo_name;
  repo_root = raw.repo_root;
  checkout_path = raw.checkout_path;
  is_linked_worktree = raw.is_linked_worktree;
}

unfoldable pub normalize_workspace : Api.Workspace → ℕ → Model.Workspace
unfolding normalize_worktree
normalize_workspace raw index = record {
  id = raw.workspace_id;
  number = index + 1;
  native_number = raw.number;
  label = raw.label;
  focused = raw.focused;
  tab_count = raw.tab_count;
  pane_count = raw.pane_count;
  active_tab_id = raw.active_tab_id;
  agent_status = raw.agent_status;
  tokens = raw.tokens;
  worktree = normalize_worktree raw.worktree;
}

unfoldable pub normalize_pane : Api.Pane → Bool → Model.Pane
unfolding base
normalize_pane raw focused_in_tab =
    let effective_cwd = if raw.foreground_cwd == "" then raw.cwd else raw.foreground_cwd in
    let directory = if effective_cwd == "" then "" else base effective_cwd in
    record {
      id = raw.pane_id;
      label = raw.label;
      title = raw.title;
      focused = raw.focused;
      focused_in_tab = focused_in_tab;
      cwd = raw.cwd;
      foreground_cwd = raw.foreground_cwd;
      effective_cwd = effective_cwd;
      directory = directory;
      terminal_id = raw.terminal_id;
      terminal_title = raw.terminal_title;
      terminal_title_stripped = raw.terminal_title_stripped;
      agent = raw.agent;
      display_agent = raw.display_agent;
      agent_status = raw.agent_status;
      state_labels = raw.state_labels;
      tokens = raw.tokens;
    }

unfoldable pub normalize_agent : Option Api.Agent → Api.Pane → Model.Agent
normalize_agent none pane = record {
  active = false;
  kind = pane.agent;
  name = "";
  display_name = pane.display_agent;
  status = pane.agent_status;
  interactive_ready = false;
  launch_pending = false;
  state_change_seq = pos 0;
  title = "";
  terminal_title = "";
  terminal_title_stripped = "";
  state_labels = pane.state_labels;
  tokens = pane.tokens;
  has_session = false;
}
normalize_agent (some raw) pane = record {
  active = true;
  kind = raw.agent;
  name = raw.name;
  display_name = raw.display_agent;
  status = raw.agent_status;
  interactive_ready = raw.interactive_ready;
  launch_pending = raw.launch_pending;
  state_change_seq = raw.state_change_seq;
  title = raw.title;
  terminal_title = raw.terminal_title;
  terminal_title_stripped = raw.terminal_title_stripped;
  state_labels = raw.state_labels;
  tokens = raw.tokens;
  has_session = not (raw.agent_session == "") && not (raw.agent_session == "null");
}

unfoldable pub normalize_process : Api.Process → Model.Process
normalize_process raw = record {
  pid = raw.pid;
  name = raw.name;
  argv0 = raw.argv0;
  argv = raw.argv;
  command_line = raw.command_line;
  cwd = raw.cwd;
}
