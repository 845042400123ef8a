-- ===== src/Store/Memory.antt =====
-- infra/persistence/memory/inmemory_node_repo.py: the node table as a dictionary. Its key is the id of
-- its row, and a list holds its items in the order in which they were added.
pub mod Contract
pub mod Ensuring
pub mod Agreement
use agentic_dag.Prelude.{
  ℕ, String, Bool, true, false, List, [], ◌∷◌, map, Option, none, some, ◌==◌, string_eq,
  if◌then◌else◌, keep, mem, pred_int, pos,
}
use agentic_dag.Domain.{NodeState, state_eq, GraphNode, Node, is_some}
use agentic_dag.Domain.NodeMethods.{is_due_for_learning_extraction}
use agentic_dag.Store.{Result, ok, raised, unhandled, fresh_row, read_node}

-- `self._rows[row.id] = row`
unfoldable pub set_row : Node → List Node → List Node
set_row row [] = row ∷ []
set_row row (first ∷ rows) = if first.id == row.id then row ∷ rows else first ∷ set_row row rows

abbrev pub add_missing : Option Node → GraphNode → ℕ → List Node → List Node
add_missing (some row) graph_node now rows = rows
add_missing none graph_node now rows = set_row (fresh_row graph_node now) rows

unfoldable pub ensure_rows : List GraphNode → ℕ → List Node → List Node
unfolding set_row fresh_row
ensure_rows [] now rows = rows
ensure_rows (graph_node ∷ graph_nodes) now rows =
    ensure_rows graph_nodes now (add_missing (read_node graph_node.id rows) graph_node now rows)

unfoldable pub get_nodes_by_state : NodeState → List Node → List Node
unfolding keep
get_nodes_by_state state = keep (λ node. node.state == state)

abbrev listed : Option Node → List Node → List Node
listed none nodes = nodes
listed (some node) nodes = node ∷ nodes

unfoldable pub get_nodes_by_ids : List String → List Node → List Node
get_nodes_by_ids [] rows = []
get_nodes_by_ids (id ∷ ids) rows = listed (read_node id rows) (get_nodes_by_ids ids rows)

abbrev pub rewritten : Option Node → String → (Node → Node) → List Node → Result (List Node)
rewritten none node_id f rows = raised (unhandled node_id)
rewritten (some row) node_id f rows = ok (set_row (f row) rows)

-- `row = self._rows[node_id]`, a KeyError where it is missing, and `self._rows[node_id] = Node(...)`.
unfoldable pub rewrite : String → (Node → Node) → List Node → Result (List Node)
rewrite node_id f rows = rewritten (read_node node_id rows) node_id f rows

unfoldable pub update_state : String → NodeState → ℕ → Option ℕ → List Node → Result (List Node)
unfolding rewrite
update_state node_id state at resume_at =
    rewrite node_id (λ row. record row { state = state; updated_at = at; resume_at = resume_at })

unfoldable pub spend_recovery_attempt : String → List Node → Result (List Node)
unfolding rewrite pred_int
spend_recovery_attempt node_id =
    rewrite node_id
      (λ row. record row { recovery_attempts_allowed = pred_int row.recovery_attempts_allowed })

unfoldable pub reset_recovery_attempts : String → ℕ → List Node → Result (List Node)
unfolding rewrite
reset_recovery_attempts node_id attempts =
    rewrite node_id (λ row. record row { recovery_attempts_allowed = pos attempts })

unfoldable pub record_pull_request_settled : String → ℕ → List Node → Result (List Node)
unfolding rewrite
record_pull_request_settled node_id at =
    rewrite node_id (λ row. record row { pull_request_settled_at = some at })

unfoldable pub get_nodes_due_for_learning_extraction : List Node → List Node
unfolding keep
get_nodes_due_for_learning_extraction = keep is_due_for_learning_extraction

abbrev pub and_extract : Result (List Node) → (List Node → Result (List Node)) → Result (List Node)
and_extract (ok rows) rest = rest rows
and_extract (raised error) rest = raised error

unfoldable pub record_learnings_extracted : List String → ℕ → List Node → Result (List Node)
unfolding rewrite
record_learnings_extracted [] at rows = ok rows
record_learnings_extracted (id ∷ ids) at rows =
    and_extract (rewrite id (λ row. record row { learnings_extracted_at = some at }) rows)
      (record_learnings_extracted ids at)
