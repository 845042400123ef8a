-- ===== src/Store/Counting.antt =====
-- How many nodes are at work, and which rows a pass leaves alone.
use agentic_dag.Prelude.{
  leb, not, Bool, ℕ, ◌+◌, ◌≤◌, suc, ◌≡◌, refl, String, false, List, [], ◌∷◌, ◌++◌, Option, ◌==◌,
  string_eq, if◌then◌else◌, arith, mem, keep, length,
}
use text.Mathlib.TextEquality.{eq_iff}
use agentic_dag.Domain.{DagSpec, NodeState, in_progress, state_eq, Node, GraphNode}
use agentic_dag.Store.{
  Store, update_where, update_state, missing_rows, fresh_row, record_pull_request_settled,
  get_nodes_by_state,
}
use agentic_dag.Store.Nodes.{row_ids, AreUnique}

-- How many nodes of the table are at work.
abbrev pub workers : List Node → ℕ
workers nodes = length (get_nodes_by_state in_progress nodes)

-- Fewer nodes are at work than the run allows.
abbrev pub has_free_worker : DagSpec → Store → Bool
has_free_worker spec store = not (leb spec.max_workers (workers store.nodes))

-- The nodes at work, but for the rows of `id`.
unfoldable pub others : String → List Node → ℕ
others id [] = 0
others id (node ∷ nodes) =
    let rest = others id nodes in
    if node.id == id then rest else if node.state == in_progress then suc rest else rest

pub others-update_state :
    (id : String) (state : NodeState) (at : ℕ) (resume_at : Option ℕ) (nodes : List Node)
    → others id (update_state id state at resume_at nodes) ≡ others id nodes
unfolding others update_state update_where
others-update_state id state at resume_at [] = refl
others-update_state id state at resume_at (node ∷ nodes) =
    ground (arith, others-update_state id state at resume_at nodes)

pub others-settled :
    (id : String) (at : ℕ) (nodes : List Node)
    → others id (record_pull_request_settled id at nodes) ≡ others id nodes
unfolding others record_pull_request_settled update_where
others-settled id at [] = refl
others-settled id at (node ∷ nodes) = ground (arith, others-settled id at nodes)

pub others-append :
    (id : String) (nodes more : List Node)
    → others id (nodes ++ more) ≡ others id nodes + others id more
unfolding others
others-append id [] more = omega arith
others-append id (node ∷ nodes) more = ground (arith, others-append id nodes more)

pub workers-append :
    (nodes more : List Node) → workers (nodes ++ more) ≡ workers nodes + workers more
unfolding get_nodes_by_state keep
workers-append [] more = omega arith
workers-append (node ∷ nodes) more = ground (arith, workers-append nodes more)

-- The row that a missing node gets is pending.
pub workers-missing :
    (existing : List String) (graph_node : GraphNode) (now : ℕ)
    → (workers (missing_rows existing (graph_node ∷ []) now) ≡ 0)
      × (others graph_node.id (missing_rows existing (graph_node ∷ []) now) ≡ 0)
unfolding others missing_rows fresh_row get_nodes_by_state keep
workers-missing existing graph_node now = ground (arith, eq_iff graph_node.id graph_node.id)

pub others-workers : (id : String) (nodes : List Node) → others id nodes ≤ workers nodes
unfolding others get_nodes_by_state keep
others-workers id [] = omega arith
others-workers id (node ∷ nodes) = ground (arith, others-workers id nodes)

absent-others :
    (id : String) (nodes : List Node)
    → mem (row_ids nodes) id ≡ false
    → workers nodes ≡ others id nodes
unfolding others get_nodes_by_state keep mem
absent-others id [] h = refl
absent-others id (node ∷ nodes) h = ground (arith, absent-others id nodes, eq_iff node.id id)

-- One row at most is the row of `id`.
pub workers-others :
    (id : String) (nodes : List Node) → AreUnique nodes → workers nodes ≤ suc (others id nodes)
unfolding others get_nodes_by_state keep mem
workers-others id [] unique = omega arith
workers-others id (node ∷ nodes) unique =
    ground
      (arith, absent-others id nodes, workers-others id nodes unique.1, unique.0, eq_iff node.id id)
