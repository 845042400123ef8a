-- ===== src/Store/Memory/Ensuring.antt =====
-- The rows that `ensure_rows` adds, in both node repositories.
use agentic_dag.Prelude.{
  ℕ, ◌≡◌, refl, sym, subst, ◌∙◌, String, false, List, [], ◌∷◌, ◌++◌, Option, none, some, ◌==◌,
  string_eq, if◌then◌else◌, arith, inl, inr, Bool-cases, Option-cases, mem,
}
use text.Mathlib.TextEquality.{eq_iff}
use agentic_dag.Domain.{GraphNode, Node, or_else}
use agentic_dag.Store.{fresh_row, read_node, find_row, missing_rows}
use agentic_dag.Store as Sqlite
use agentic_dag.Store.Nodes.{row_ids}
use agentic_dag.Store.Memory.{set_row, add_missing}
use agentic_dag.Store.Memory as Memory
use agentic_dag.Store.Memory.Contract.{read-set_row}

-- The row that the first graph node of an id starts with.
unfoldable pub first_fresh : List GraphNode → ℕ → String → Option Node
first_fresh [] now id = none
first_fresh (graph_node ∷ graph_nodes) now id =
    if graph_node.id == id then some (fresh_row graph_node now) else first_fresh graph_nodes now id

or_else-none : (found : Option Node) → or_else found none ≡ found
or_else-none none = refl
or_else-none (some row) = refl

add_missing-read :
    (graph_node : GraphNode) (graph_nodes : List GraphNode) (now : ℕ) (rows : List Node)
    (id : String)
    → or_else
        (read_node id (add_missing (read_node graph_node.id rows) graph_node now rows))
        (first_fresh graph_nodes now id)
      ≡ or_else (read_node id rows) (first_fresh (graph_node ∷ graph_nodes) now id)
unfolding first_fresh fresh_row
add_missing-read graph_node graph_nodes now rows id =
    elim (Option-cases (read_node graph_node.id rows)) [
      | inl missing ↦
          rw (missing, read-set_row (fresh_row graph_node now) rows id)
            (elim (Bool-cases (graph_node.id == id)) [
              | inr elsewhere ↦ rw elsewhere refl
              | inl here ↦
                  rw
                    (
                      here,
                      subst (λ key. read_node key rows ≡ none) ((eq_iff graph_node.id id).0 here)
                          missing,
                    )
                    refl
            ])
      | inr (row, found) ↦ rw found (elim (Bool-cases (graph_node.id == id)) [
        | inr elsewhere ↦ rw elsewhere refl
        | inl here ↦
            rw
              (
                here,
                subst (λ key. read_node key rows ≡ some row) ((eq_iff graph_node.id id).0 here)
                    found,
              )
              refl
      ])
    ]

pub memory-ensure :
    (graph_nodes : List GraphNode) (now : ℕ) (rows : List Node) (id : String)
    → read_node id (Memory.ensure_rows graph_nodes now rows)
      ≡ or_else (read_node id rows) (first_fresh graph_nodes now id)
unfolding Memory.ensure_rows first_fresh
memory-ensure [] now rows id = sym (or_else-none (read_node id rows))
memory-ensure (graph_node ∷ graph_nodes) now rows id =
    memory-ensure graph_nodes now (add_missing (read_node graph_node.id rows) graph_node now rows)
      id
    ∙ add_missing-read graph_node graph_nodes now rows id

read-append :
    (rows more : List Node) (id : String)
    → read_node id (rows ++ more) ≡ or_else (read_node id rows) (read_node id more)
unfolding read_node find_row
read-append [] more id = refl
read-append (row ∷ rows) more id = elim (Bool-cases (row.id == id)) [
  | inl here ↦ rw here refl
  | inr elsewhere ↦ rw elsewhere (read-append rows more id)
]

read-missing_rows :
    (existing : List String) (graph_nodes : List GraphNode) (now : ℕ) (id : String)
    → mem existing id ≡ false
    → read_node id (missing_rows existing graph_nodes now) ≡ first_fresh graph_nodes now id
unfolding missing_rows first_fresh read_node find_row fresh_row
read-missing_rows existing [] now id absent = refl
read-missing_rows existing (graph_node ∷ graph_nodes) now id absent =
    ground (arith, read-missing_rows existing graph_nodes now id absent, eq_iff graph_node.id id)

read-none :
    (rows : List Node) (id : String) → read_node id rows ≡ none → mem (row_ids rows) id ≡ false
unfolding read_node find_row mem
read-none [] id missing = refl
read-none (row ∷ rows) id missing = ground (arith, read-none rows id)

pub sqlite-ensure :
    (graph_nodes : List GraphNode) (now : ℕ) (rows : List Node) (id : String)
    → read_node id (Sqlite.ensure_rows graph_nodes now rows)
      ≡ or_else (read_node id rows) (first_fresh graph_nodes now id)
unfolding Sqlite.ensure_rows
sqlite-ensure graph_nodes now rows id =
    read-append rows (missing_rows (row_ids rows) graph_nodes now) id
    ∙ elim (Option-cases (read_node id rows)) [
      | inr (row, found) ↦ rw found refl
      | inl missing ↦
          rw missing
            (read-missing_rows (row_ids rows) graph_nodes now id (read-none rows id missing))
    ]
