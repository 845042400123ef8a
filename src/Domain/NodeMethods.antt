-- ===== src/Domain/NodeMethods.antt =====
-- domain/persistence/entities/node.py: the methods of a row. A row's `agent` is passed to the methods
-- that read it.
use agentic_dag.Prelude.{ℕ, String, Bool, not, ◌&&◌, [], ◌∷◌, Option, ltb, ◌==◌, mem}
use agentic_dag.Domain.States.{needs_human, in_progress, merged, skipped, state_eq}
use agentic_dag.Domain.Graphs.{text_or}
use agentic_dag.Domain.Rows.{Node, NodeAgent, is_some}

unfoldable pub get_agent_name : Node → String
get_agent_name node = text_or node.name (text_or node.title node.id)

unfoldable pub is_needing_human : Node → Bool
is_needing_human node = node.state == needs_human

-- The row's `agent` is `none` before the node's first start.
unfoldable pub needs_human_without_agent : Node → Option NodeAgent → Bool
unfolding is_needing_human
needs_human_without_agent node agent = is_needing_human node && not (is_some agent)

unfoldable pub is_skippable : Node → Bool
unfolding mem
is_skippable node = not (mem (in_progress ∷ merged ∷ []) node.state)

unfoldable pub is_merged_or_skipped : Node → Bool
unfolding mem
is_merged_or_skipped node = mem (merged ∷ skipped ∷ []) node.state

unfoldable pub is_updated_after : Node → ℕ → Bool
is_updated_after node timestamp = ltb timestamp node.updated_at

unfoldable pub has_pull_request_settled : Node → Bool
has_pull_request_settled node = is_some node.pull_request_settled_at

unfoldable pub is_due_for_learning_extraction : Node → Bool
unfolding has_pull_request_settled
is_due_for_learning_extraction node =
    has_pull_request_settled node && not (is_some node.learnings_extracted_at)
