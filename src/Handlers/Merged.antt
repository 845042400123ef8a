-- ===== src/Handlers/Merged.antt =====
-- services/node_state_handlers/merged_node_handler.py.
pub mod Reclaiming
use agentic_dag.Prelude.{ℕ, String, Bool, true, false, Option, none, some, string_eq, if◌then◌else◌}
use agentic_dag.Domain.{GraphNode, WorkTree, is_some}
use agentic_dag.World.{World}
use agentic_dag.Store.{
  M, Failure, base_branch_missing, worktree_conflict, worktree_error, observation_error, os_error,
  unhandled, pure, call, query, modify, perform, try_except, ◌>>=◌, ◌>>◌, on_option,
  removed_worktree, get_by_node_id, mark_reclaimed, Result, ok, raised,
}
use agentic_dag.Handlers.Response.{TickResponse, response}

-- `GraphNode.get_project_root`, whose SpecError no handler catches.
unfoldable pub get_project_root : GraphNode → Result String
get_project_root graph_node = elim graph_node.project_root [
  | none ↦ raised (unhandled "the node has no project root")
  | some project_root ↦ ok project_root
]

-- `except (WorktreeError, OSError)`, which answers that nothing was removed.
unfoldable pub failure_handler : Failure → Option (M Bool)
failure_handler (base_branch_missing _) = some (pure false)
failure_handler (worktree_conflict _) = some (pure false)
failure_handler (worktree_error _) = some (pure false)
failure_handler (os_error _) = some (pure false)
failure_handler (observation_error _) = none
failure_handler (unhandled _) = none

-- The `try` block: whether the worktree was removed.
unfoldable pub remove_worktree : World → GraphNode → WorkTree → M Bool
unfolding get_project_root failure_handler
remove_worktree world graph_node worktree =
    try_except
      (do
        project_root ← call (get_project_root graph_node)
        call (world.remove worktree project_root)
        perform (removed_worktree worktree)
        pure true)
      failure_handler

unfoldable pub reclaim : World → GraphNode → WorkTree → ℕ → M TickResponse
unfolding remove_worktree
reclaim world graph_node worktree current_time = do
  is_removed ← remove_worktree world graph_node worktree
  if is_removed
      then modify (mark_reclaimed (record worktree { reclaimed_at = some current_time }))
        >> pure (response 0 0)
      else pure (response 0 0)

unfoldable pub advance : World → ℕ → GraphNode → M TickResponse
unfolding reclaim
advance world current_time graph_node = do
  found ← query (λ store. get_by_node_id graph_node.id store.agents)
  on_option found (pure (response 0 0)) λ agent.
      on_option agent.worktree (pure (response 0 0)) λ worktree.
        if is_some worktree.reclaimed_at
        then pure (response 0 0)
        else reclaim world graph_node worktree current_time
