-- ===== src/Collector/Sessions/Counts.antt =====
-- What the counts of internal/collector/session.go are.
use herdr_tabline.Base.{
  ℕ, suc, ◌+◌, ◌≡◌, ◌≢◌, refl, String, Bool, not, ◌&&◌, ◌||◌, List, [], ◌∷◌, arith,
}
use herdr_tabline.Base.{◌==◌, string_eq, if◌then◌else◌, text_apart}
use herdr_tabline.Api
use herdr_tabline.Api.{Snapshot}
use herdr_tabline.Model.{Session}
use herdr_tabline.Collector.Sessions.{initial_session, count_agent, count_agents, build_session}

-- How many agents pass a test.
abbrev pub tally : (Api.Agent → Bool) → List Api.Agent → ℕ
tally test [] = 0
tally test (raw ∷ raws) = let rest = tally test raws in if test raw then suc rest else rest

-- The pane runs something that the server has identified as an agent.
abbrev pub identified : Api.Agent → Bool
identified raw = not (raw.agent == "")

abbrev pub in_status : String → Api.Agent → Bool
in_status status raw = identified raw && raw.agent_status == status

abbrev pub in_other_status : Api.Agent → Bool
in_other_status raw =
    identified raw
    && not (
        raw.agent_status == "blocked"
        || raw.agent_status == "working"
        || raw.agent_status == "done"
        || raw.agent_status == "idle")

-- The four texts of the `switch` are different.
blocked_only : (s : String) → s ≡ "blocked" → (s ≢ "working") × (s ≢ "done") × (s ≢ "idle")
blocked_only s p = rw p (text_apart _ _ refl, text_apart _ _ refl, text_apart _ _ refl)

working_only : (s : String) → s ≡ "working" → (s ≢ "done") × (s ≢ "idle")
working_only s p = rw p (text_apart _ _ refl, text_apart _ _ refl)

done_only : (s : String) → s ≡ "done" → s ≢ "idle"
done_only s p = rw p (text_apart _ _ refl)

total :
    (raws : List Api.Agent)
    → tally identified raws
      ≡ tally (in_status "blocked") raws
        + tally (in_status "working") raws
        + tally (in_status "done") raws
        + tally (in_status "idle") raws
        + tally in_other_status raws
total [] = omega arith
total (raw ∷ raws) = ground (
  arith,
  total raws,
  blocked_only raw.agent_status,
  working_only raw.agent_status,
  done_only raw.agent_status,
)

count_agents_lem :
    (raws : List Api.Agent) (s : Session)
    → count_agents raws s ≡ record s {
      agents = s.agents + tally identified raws;
      blocked = s.blocked + tally (in_status "blocked") raws;
      working = s.working + tally (in_status "working") raws;
      done = s.done + tally (in_status "done") raws;
      idle = s.idle + tally (in_status "idle") raws;
      unknown = s.unknown + tally in_other_status raws;
    }
unfolding count_agents
count_agents_lem [] s = ground arith
count_agents_lem (raw ∷ raws) s = ground (
  arith,
  count_agents_lem raws (count_agent raw s),
  blocked_only raw.agent_status,
  working_only raw.agent_status,
  done_only raw.agent_status,
)

-- For every snapshot: the session counts the identified agents, and those of each status; every
-- identified agent is counted under exactly one status, so the five counts add up to `agents`;
-- and `attention` is the number of blocked ones.
pub build_session_counts :
    (snapshot : Snapshot) (now : ℕ)
    → let s = build_session snapshot now in
      (s.agents ≡ tally identified snapshot.agents)
      × (s.blocked ≡ tally (in_status "blocked") snapshot.agents)
      × (s.working ≡ tally (in_status "working") snapshot.agents)
      × (s.done ≡ tally (in_status "done") snapshot.agents)
      × (s.idle ≡ tally (in_status "idle") snapshot.agents)
      × (s.unknown ≡ tally in_other_status snapshot.agents)
      × (s.agents ≡ s.blocked + s.working + s.done + s.idle + s.unknown)
      × (s.attention ≡ s.blocked)
unfolding build_session
build_session_counts snapshot now =
    ground (
      arith,
      count_agents_lem snapshot.agents (initial_session snapshot now),
      total snapshot.agents,
    )
