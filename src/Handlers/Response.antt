-- ===== src/Handlers/Response.antt =====
-- domain/tick/tick_response.py and the executor's value in domain/specs/executor_agent.py.
use agentic_dag.Prelude.{ℕ, ◌+◌, String, Bool, false, ◌||◌, Option, none, some}
use agentic_dag.Domain.{ExecutorAgent, claude, codex}
use agentic_dag.World.{World}

pub record TickResponse : Type 0 where
  pub events_applied : ℕ
  pub sessions_started : ℕ
  pub is_complete : Bool

abbrev pub response : (events_applied sessions_started : ℕ) → TickResponse
response events_applied sessions_started = record {
  events_applied = events_applied;
  sessions_started = sessions_started;
  is_complete = false;
}

unfoldable pub increment_with : TickResponse → TickResponse → TickResponse
increment_with a b = record {
  events_applied = a.events_applied + b.events_applied;
  sessions_started = a.sessions_started + b.sessions_started;
  is_complete = a.is_complete || b.is_complete;
}

unfoldable pub executor_value : ExecutorAgent → String
executor_value claude = "claude"
executor_value codex = "codex"

-- `launchers.get(executor_agent) if executor_agent else None`, as to whether there is one.
unfoldable pub can_launch : World → Option ExecutorAgent → Bool
can_launch world none = false
can_launch world (some executor_agent) = world.has_launcher executor_agent
