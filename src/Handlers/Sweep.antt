-- ===== src/Handlers/Sweep.antt =====
-- services/node_state_handlers/node_state_handling_facade.py and the `handle` loops of the handlers:
-- one control pass over the nodes of each state, in the order of api/cli/handlers/tick_command_handler.py.
pub mod Cap
use agentic_dag.Prelude.{ℕ, String, Bool, List, [], ◌∷◌, ◌||◌}
use agentic_dag.Domain.{
  NodeState, in_progress, resting, pending, merged, GraphNode, Graph, Node, DagSpec,
}
use agentic_dag.GraphService.{nodes_in}
use agentic_dag.World.{World}
use agentic_dag.Store.{
  M, Store, pure, query, modify, ◌>>=◌, ◌>>◌, get_nodes_by_state, ensure_rows, set_nodes,
}
use agentic_dag.Handlers.Response.{TickResponse, response, increment_with}
use agentic_dag.Handlers.InProgress
use agentic_dag.Handlers.Resting
use agentic_dag.Handlers.Pending
use agentic_dag.Handlers.Merged

-- `for graph_node in graph_nodes: tick_response = tick_response.increment_with(…)`
unfoldable pub handle :
    (GraphNode → M TickResponse) → List GraphNode → TickResponse → M TickResponse
unfolding increment_with
handle advance_node [] tick_response = pure tick_response
handle advance_node (graph_node ∷ graph_nodes) tick_response = do
  node_response ← advance_node graph_node
  handle advance_node graph_nodes (increment_with tick_response node_response)

-- The facade reads the rows of the state first; the handler sees the nodes of those rows.
unfoldable pub handle_state : Graph → NodeState → (GraphNode → M TickResponse) → M TickResponse
handle_state graph state advance_node = do
  nodes ← query (λ store. get_nodes_by_state state store.nodes)
  handle advance_node (nodes_in graph state nodes) (response 0 0)

unfoldable pub handle_in_progress_nodes : World → Graph → M TickResponse
handle_in_progress_nodes world graph = handle_state graph in_progress (InProgress.advance world)

unfoldable pub handle_resting_nodes : World → DagSpec → Graph → M TickResponse
handle_resting_nodes world spec graph = handle_state graph resting (Resting.advance world spec)

unfoldable pub handle_pending_nodes : World → DagSpec → Graph → ℕ → M TickResponse
handle_pending_nodes world spec graph current_time =
    handle_state graph pending (Pending.advance world spec graph current_time)

unfoldable pub handle_merged_nodes : World → Graph → ℕ → M TickResponse
handle_merged_nodes world graph current_time =
    handle_state graph merged (Merged.advance world current_time)

-- `TickCommandHandler.handle` from `ensure_rows` to the merged nodes.
unfoldable pub sweep : World → DagSpec → Graph → ℕ → M TickResponse
unfolding increment_with
sweep world spec graph current_time = do
  modify (set_nodes (ensure_rows graph.nodes current_time))
  in_progress_response ← handle_in_progress_nodes world graph
  resting_response ← handle_resting_nodes world spec graph
  pending_response ← handle_pending_nodes world spec graph current_time
  merged_response ← handle_merged_nodes world graph current_time
  pure (
      increment_with
        (increment_with
          (increment_with (increment_with (response 0 0) in_progress_response) resting_response)
          pending_response)
        merged_response)
