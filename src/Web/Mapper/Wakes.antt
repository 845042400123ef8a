-- ===== src/Web/Mapper/Wakes.antt =====
-- The wakes that api/web/mappers/dag_mapper.py shows of an agent, beside those that
-- services/node_state_handlers/resting_node_handler.py counts against its budget.
use agentic_dag.Prelude.{ℕ, Bool, List, keep, length}
use agentic_dag.Domain.{AgentSession, trigger_eq}
use agentic_dag.World.{World}
use agentic_dag.Web.Mapper.{is_wake}

abbrev was_woken : AgentSession → Bool
was_woken session = is_wake session.triggered_by

abbrev wakes : List AgentSession → ℕ
wakes sessions = length (keep was_woken sessions)
