-- ===== src/Collector/Sessions.antt =====
-- internal/collector/session.go: `BuildSession`.
pub mod Counts
use herdr_tabline.Base.{
  ℕ, ◌+◌, String, not, ◌&&◌, List, [], ◌∷◌, ◌==◌, string_eq, if◌then◌else◌, length,
}
use herdr_tabline.Api
use herdr_tabline.Api.{Snapshot}
use herdr_tabline.Model
use herdr_tabline.Model.{Session, zero_workspace}
use herdr_tabline.Collector.Normalize.{normalize_workspace}

-- The loop over the workspaces: the last one with the focused id stays.
focused_workspace : String → ℕ → Model.Workspace → List Api.Workspace → Model.Workspace
unfolding normalize_workspace
focused_workspace focused index found [] = found
focused_workspace focused index found (raw ∷ raws) =
    focused_workspace focused (index + 1)
      (if raw.workspace_id == focused && not (focused == "")
        then normalize_workspace raw index
        else found)
      raws

-- The `switch` on the status of an agent.
count_status : String → Session → Session
count_status status s =
    if status == "blocked"
    then record s { blocked = s.blocked + 1 }
    else if status == "working"
    then record s { working = s.working + 1 }
    else if status == "done"
    then record s { done = s.done + 1 }
    else if status == "idle"
    then record s { idle = s.idle + 1 }
    else record s { unknown = s.unknown + 1 }

-- The body of the loop over the agents.
count_agent : Api.Agent → Session → Session
unfolding count_status
count_agent raw s =
    if raw.agent == ""
    then s
    else count_status raw.agent_status (record s { agents = s.agents + 1 })

unfoldable pub count_agents : List Api.Agent → Session → Session
unfolding count_agent
count_agents [] s = s
count_agents (raw ∷ raws) s = count_agents raws (count_agent raw s)

-- The session before the loop over the agents.
initial_session : Snapshot → ℕ → Session
unfolding focused_workspace
initial_session snapshot now = record {
  workspace = focused_workspace snapshot.focused_workspace_id 0 zero_workspace snapshot.workspaces;
  workspaces = length snapshot.workspaces;
  agents = 0;
  blocked = 0;
  working = 0;
  done = 0;
  idle = 0;
  unknown = 0;
  attention = 0;
  now = now;
}

unfoldable pub build_session : Snapshot → ℕ → Session
unfolding initial_session count_agents
build_session snapshot now =
    let counted = count_agents snapshot.agents (initial_session snapshot now) in
    record counted { attention = counted.blocked }
