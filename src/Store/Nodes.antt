-- ===== src/Store/Nodes.antt =====
-- What an operation on the node table leaves alone.
use agentic_dag.Prelude.{
  ℕ, ◌≡◌, refl, String, Bool, true, false, List, [], ◌∷◌, ◌++◌, map, Option, none, some, ◌==◌,
  string_eq, if◌then◌else◌, arith, mem, sym, ◌∙◌, inl, inr, Bool-cases,
}
use text.Mathlib.TextEquality.{eq_iff}
use agentic_dag.Domain.{NodeState, Node, GraphNode}
use agentic_dag.Store.{
  update_where, find_row, read_node, update_state, ensure_rows, missing_rows,
  record_pull_request_settled,
}

abbrev pub row_ids : List Node → List String
row_ids = map (λ node. node.id)

-- The primary key of the table.
abbrev pub AreUnique : List Node → Type 0
AreUnique [] = Unit
AreUnique (node ∷ nodes) = (mem (row_ids nodes) node.id ≡ false) × AreUnique nodes

pub row_ids-update_where :
    (test : Node → Bool) (f : Node → Node) (nodes : List Node)
    → ((node : Node) → (f node).id ≡ node.id)
    → row_ids (update_where test f nodes) ≡ row_ids nodes
unfolding update_where
row_ids-update_where test f [] same = refl
row_ids-update_where test f (node ∷ nodes) same =
    ground (arith, same node, row_ids-update_where test f nodes same)

pub update_where-AreUnique :
    (test : Node → Bool) (f : Node → Node) (nodes : List Node)
    → ((node : Node) → (f node).id ≡ node.id)
    → AreUnique nodes
    → AreUnique (update_where test f nodes)
unfolding update_where
update_where-AreUnique test f [] same unique = tt
update_where-AreUnique test f (node ∷ nodes) same unique = ground (
  arith,
  same node,
  row_ids-update_where test f nodes same,
  update_where-AreUnique test f nodes same unique.1,
)

-- A move changes the one row that it names, and no other.
pub read-update_state :
    (id other : String) (state : NodeState) (at : ℕ) (resume_at : Option ℕ) (nodes : List Node)
    → read_node other (update_state id state at resume_at nodes) ≡ elim (read_node other nodes) [
      | none ↦ none
      | some row ↦ some (
          if id == other
          then record row { state = state; updated_at = at; resume_at = resume_at }
          else row)
    ]
unfolding read_node find_row update_state update_where
read-update_state id other state at resume_at [] = refl
read-update_state id other state at resume_at (node ∷ nodes) = ground (
  arith,
  read-update_state id other state at resume_at nodes,
  eq_iff node.id id,
  eq_iff node.id other,
  eq_iff id other,
)

pub read-settled :
    (id other : String) (at : ℕ) (nodes : List Node)
    → read_node other (record_pull_request_settled id at nodes) ≡ elim (read_node other nodes) [
      | none ↦ none
      | some row ↦
          some (if id == other then record row { pull_request_settled_at = some at } else row)
    ]
unfolding read_node find_row record_pull_request_settled update_where
read-settled id other at [] = refl
read-settled id other at (node ∷ nodes) = ground (
  arith,
  read-settled id other at nodes,
  eq_iff node.id id,
  eq_iff node.id other,
  eq_iff id other,
)

-- A row that is there is kept as it is, and a node with no row gets a pending one.
pub read-append :
    (id : String) (nodes more : List Node)
    → read_node id (nodes ++ more)
      ≡ elim (read_node id nodes) [ none ↦ read_node id more | some row ↦ some row ]
unfolding read_node find_row
read-append id [] more = refl
read-append id (node ∷ nodes) more = ground (arith, read-append id nodes more)

pub read_node-some :
    (id : String) (nodes : List Node) (node : Node)
    → read_node id nodes ≡ some node
    → (mem (row_ids nodes) id ≡ true) × (node.id ≡ id)
unfolding read_node find_row mem
read_node-some id [] node h = cc
read_node-some id (row ∷ nodes) node h =
    ground (arith, read_node-some id nodes node, eq_iff row.id id)

append-nil : (nodes : List Node) → nodes ++ [] ≡ nodes
append-nil [] = refl
append-nil (node ∷ nodes) = ground (arith, append-nil nodes)

-- A node that has a row already gets none.
pub ensure_rows-known :
    (graph_node : GraphNode) (now : ℕ) (nodes : List Node)
    → mem (row_ids nodes) graph_node.id ≡ true
    → ensure_rows (graph_node ∷ []) now nodes ≡ nodes
unfolding ensure_rows missing_rows
ensure_rows-known graph_node now nodes h = rw h (append-nil nodes)

pub read-first :
    (node : Node) (nodes : List Node) (id : String)
    → (node.id == id) ≡ true
    → read_node id (node ∷ nodes) ≡ some node
unfolding read_node find_row
read-first node nodes id here = rw here refl

pub read_node-id :
    (id : String) (nodes : List Node) (row : Node) → read_node id nodes ≡ some row → row.id ≡ id
unfolding read_node find_row
read_node-id id [] row found = cc
read_node-id id (node ∷ nodes) row found = elim (Bool-cases (node.id == id)) [
  | inl here ↦
      let same = sym (read-first node nodes id here) ∙ found in
      let named = (eq_iff node.id id).0 here in cc
  | inr elsewhere ↦ ground (arith, read_node-id id nodes row)
]
