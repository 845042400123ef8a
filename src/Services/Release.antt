-- ===== src/Services/Release.antt =====
-- services/run/dependent_release_service.py: dependents that an upstream stop had stopped go back to
-- pending.
pub mod Effects
pub mod Return
use agentic_dag.Prelude.{
  ℕ, String, Bool, true, false, not, ◌&&◌, List, [], ◌∷◌, map, Option, none, some, ◌==◌, string_eq,
  keep, mem, if◌then◌else◌,
}
use agentic_dag.Domain.{
  NodeState, pending, GraphNode, Graph, Node, NodeAgent, AuditEntry, NodeEvent, retried,
  node_retried_event,
}
use agentic_dag.Domain.NodeMethods
use agentic_dag.Labels
use agentic_dag.GraphService.{node_ids, get_descendants}
use agentic_dag.Store.{
  M, Store, pure, query, modify, ◌>>=◌, ◌>>◌, get_by_node_id, get_nodes_by_ids, record_move,
}

abbrev later_note : Option String → AuditEntry → String → Option String
later_note (some later) entry node_id = some later
later_note none entry node_id = if entry.node_id == node_id then some entry.note else none

-- `{entry.node_id: entry.note for entry in audit_entries}.get(node_id)`
unfoldable pub latest_note : List AuditEntry → String → Option String
latest_note [] node_id = none
latest_note (entry ∷ entries) node_id = later_note (latest_note entries node_id) entry node_id

unfoldable pub is_upstream_stop : Graph → Option String → Bool
unfolding mem
is_upstream_stop graph none = false
is_upstream_stop graph (some note) =
    mem (map (λ graph_node. Labels.upstream_stopped graph_node.id) graph.nodes) note

unfoldable pub is_released : Graph → Store → Node → Bool
unfolding latest_note is_upstream_stop NodeMethods.needs_human_without_agent get_by_node_id
is_released graph store node =
    NodeMethods.needs_human_without_agent node (get_by_node_id node.id store.agents)
    && is_upstream_stop graph (latest_note store.audit_entries node.id)

-- `_get_stopped_nodes`, on the rows of the descendants.
unfoldable pub stopped_dependents : Graph → String → Store → List Node
unfolding keep get_nodes_by_ids
stopped_dependents graph node_id store =
    keep (is_released graph store)
      (get_nodes_by_ids (node_ids (get_descendants graph node_id)) store.nodes)

unfoldable pub retried_event : Node → ℕ → NodeEvent
unfolding NodeMethods.get_agent_name
retried_event node current_time = record {
  node_id = node.id;
  type = retried;
  created_at = current_time;
  updated_at = current_time;
  title = node.title;
  agent_name = NodeMethods.get_agent_name node;
  content = node_retried_event;
}

-- `for node in stopped_nodes: await self._record(node, current_time)`
unfoldable pub record_released : List Node → ℕ → M (Unit {0})
record_released [] current_time = pure tt
record_released (node ∷ nodes) current_time = do
  modify (record_move (retried_event node current_time) pending Labels.upstream_skipped)
  record_released nodes current_time

unfoldable pub release : Graph → String → ℕ → M (List String)
release graph node_id current_time = do
  stopped_nodes ← query (stopped_dependents graph node_id)
  record_released stopped_nodes current_time
  pure (map (λ (node : Node). node.id) stopped_nodes)
