-- ===== src/Store/Ensured.antt =====
-- What the rows that missing nodes get do to the table.
use agentic_dag.Prelude.{
  ℕ, ◌≡◌, refl, String, true, false, List, [], ◌∷◌, ◌++◌, map, string_eq, arith, mem, mem-append,
  mem-cons_self, mem-cons_of_mem, keep,
}
use text.Mathlib.TextEquality.{eq_iff}
use agentic_dag.Domain.{state_eq, Node, GraphNode}
use agentic_dag.Store.{ensure_rows, missing_rows, fresh_row, get_nodes_by_state}
use agentic_dag.Store.Nodes.{row_ids, AreUnique}
use agentic_dag.Store.Counting.{workers, workers-append}

-- No id of the graph stands twice.
abbrev pub AreDistinctIds : List GraphNode → Type 0
AreDistinctIds [] = Unit
AreDistinctIds (node ∷ nodes) =
    (mem (map (λ (other : GraphNode). other.id) nodes) node.id ≡ false) × AreDistinctIds nodes

missing_rows-workers :
    (existing : List String) (graph_nodes : List GraphNode) (now : ℕ)
    → workers (missing_rows existing graph_nodes now) ≡ 0
unfolding missing_rows fresh_row get_nodes_by_state keep
missing_rows-workers existing [] now = refl
missing_rows-workers existing (graph_node ∷ graph_nodes) now =
    ground (arith, missing_rows-workers existing graph_nodes now)

pub ensure_rows-workers :
    (graph_nodes : List GraphNode) (now : ℕ) (nodes : List Node)
    → workers (ensure_rows graph_nodes now nodes) ≡ workers nodes
unfolding ensure_rows
ensure_rows-workers graph_nodes now nodes = ground (
  arith,
  workers-append nodes (missing_rows (row_ids nodes) graph_nodes now),
  missing_rows-workers (row_ids nodes) graph_nodes now,
)

missing_rows-absent :
    (existing : List String) (graph_nodes : List GraphNode) (now : ℕ) (id : String)
    → mem (map (λ (other : GraphNode). other.id) graph_nodes) id ≡ false
    → mem (row_ids (missing_rows existing graph_nodes now)) id ≡ false
unfolding missing_rows fresh_row mem
missing_rows-absent existing [] now id absent = refl
missing_rows-absent existing (graph_node ∷ graph_nodes) now id absent =
    ground (arith, missing_rows-absent existing graph_nodes now id, absent)

missing_rows-known :
    (existing : List String) (graph_nodes : List GraphNode) (now : ℕ) (id : String)
    → mem existing id ≡ true
    → mem (row_ids (missing_rows existing graph_nodes now)) id ≡ false
unfolding missing_rows fresh_row mem
missing_rows-known existing [] now id known = refl
missing_rows-known existing (graph_node ∷ graph_nodes) now id known =
    ground
      (arith, missing_rows-known existing graph_nodes now id known, known, eq_iff graph_node.id id)

missing_rows-AreUnique :
    (existing : List String) (graph_nodes : List GraphNode) (now : ℕ)
    → AreDistinctIds graph_nodes
    → AreUnique (missing_rows existing graph_nodes now)
unfolding missing_rows fresh_row
missing_rows-AreUnique existing [] now distinct = tt
missing_rows-AreUnique existing (graph_node ∷ graph_nodes) now distinct = ground (
  arith,
  missing_rows-AreUnique existing graph_nodes now distinct.1,
  missing_rows-absent existing graph_nodes now graph_node.id distinct.0,
)

row_ids-append : (nodes more : List Node) → row_ids (nodes ++ more) ≡ row_ids nodes ++ row_ids more
row_ids-append [] more = refl
row_ids-append (node ∷ nodes) more = ground (arith, row_ids-append nodes more)

append-AreUnique :
    (nodes more : List Node)
    → AreUnique nodes
    → AreUnique more
    → ((id : String) → mem (row_ids nodes) id ≡ true → mem (row_ids more) id ≡ false)
    → AreUnique (nodes ++ more)
unfolding mem
append-AreUnique [] more unique more_unique apart = more_unique
append-AreUnique (node ∷ nodes) more unique more_unique apart = (
  ground (
    arith,
    row_ids-append nodes more,
    mem-append (row_ids nodes) (row_ids more) node.id,
    unique.0,
    apart node.id (mem-cons_self node.id (row_ids nodes)),
  ),
  append-AreUnique nodes more unique.1 more_unique
      λ id known. apart id (mem-cons_of_mem id node.id (row_ids nodes) known),
)

pub ensure_rows-AreUnique :
    (graph_nodes : List GraphNode) (now : ℕ) (nodes : List Node)
    → AreDistinctIds graph_nodes
    → AreUnique nodes
    → AreUnique (ensure_rows graph_nodes now nodes)
unfolding ensure_rows
ensure_rows-AreUnique graph_nodes now nodes distinct unique =
    append-AreUnique nodes (missing_rows (row_ids nodes) graph_nodes now) unique
      (missing_rows-AreUnique (row_ids nodes) graph_nodes now distinct)
      (missing_rows-known (row_ids nodes) graph_nodes now)
