-- ===== src/GraphService/Status.antt =====
-- When a run ends: `get_run_status` against the rows of the graph's nodes.
use agentic_dag.Prelude.{
  ◌≡◌, ◌↔◌, ◌⊎◌, refl, sym, ap, subst, Bool, true, false, List, [], ◌∷◌, map, Option, none, some,
  ◌==◌, string_eq, if◌then◌else◌, All, mem, arith, inl, inr, Bool-cases, String,
}
use text.Mathlib.TextEquality.{eq_iff}
use agentic_dag.Domain.{
  NodeState, pending, merged, skipped, needs_human, errored, state_eq, Graph, GraphNode, Node,
}
use agentic_dag.Store.{read_node, find_row}
use agentic_dag.Store.Nodes.{AreUnique, row_ids}
use agentic_dag.GraphService.{
  get_run_status, complete, run_errored, active, subset, state_of, graph_states,
}

-- A node has a row, and that row has merged or was skipped.
abbrev pub IsDone : Option Node → Type 0
IsDone none = ⊥
IsDone (some row) = (row.state ≡ merged) ⊎ (row.state ≡ skipped)

-- A node has a row, and that row waits for a human, has failed or was skipped.
abbrev pub IsHeld : Option Node → Type 0
IsHeld none = ⊥
IsHeld (some row) = (row.state ≡ needs_human) ⊎ ((row.state ≡ errored) ⊎ (row.state ≡ skipped))

-- Every node of the graph, by the row that a query finds for it.
abbrev pub EveryRow : (Option Node → Type 0) → Graph → List Node → Type 0
EveryRow P graph nodes = All (λ (node : GraphNode). P (read_node node.id nodes)) graph.nodes

abbrev row_state : Option Node → NodeState
row_state none = pending
row_state (some row) = row.state

read-absent :
    (id : String) (nodes : List Node) → mem (row_ids nodes) id ≡ false → read_node id nodes ≡ none
unfolding mem read_node find_row
read-absent id [] absent = refl
read-absent id (node ∷ nodes) absent = ground (arith, read-absent id nodes)

-- Where no id repeats, the last row of an id is the first.
state_of-read :
    (nodes : List Node) (id : String)
    → AreUnique nodes
    → state_of nodes id ≡ row_state (read_node id nodes)
unfolding state_of read_node find_row
state_of-read [] id unique = refl
state_of-read (node ∷ nodes) id (fresh, unique) = elim (Bool-cases (node.id == id)) [
  | inl here ↦
      let same = (eq_iff node.id id).0 here in
      let absent = subst (λ other. mem (row_ids nodes) other ≡ false) same fresh in
      rw (absent, here) refl
  | inr other ↦ elim (Bool-cases (mem (row_ids nodes) id)) [
    | inl known ↦ rw (known, other) (state_of-read nodes id unique)
    | inr absent ↦ rw (absent, other) (sym (ap row_state (read-absent id nodes absent)))
  ]
]

IsDone-iff :
    (found : Option Node) → (mem (merged ∷ skipped ∷ []) (row_state found) ≡ true) ↔ IsDone found
unfolding mem
IsDone-iff none = ground arith
IsDone-iff (some row) = ground arith

IsHeld-iff :
    (found : Option Node)
    → (mem (needs_human ∷ errored ∷ skipped ∷ []) (row_state found) ≡ true) ↔ IsHeld found
unfolding mem
IsHeld-iff none = ground arith
IsHeld-iff (some row) = ground arith

-- The status that two tests choose, the first of them before the second.
chosen_iff :
    {P Q : Type 0} (ends stops : Bool)
    → (ends ≡ true) ↔ P
    → (stops ≡ true) ↔ Q
    → (((if ends then complete else if stops then run_errored else active) ≡ complete) ↔ P)
      × (((if ends then complete else if stops then run_errored else active) ≡ run_errored)
          ↔ ((¬ P) × Q))
chosen_iff true stops p q = ((λ _. p.0 refl, λ _. refl), (λ h. cc, λ h. elim (h.0 (p.0 refl)) [ ]))
chosen_iff false true p q = (
  (λ h. cc, λ held. let ends = p.1 held in cc),
  (λ _. ((λ held. let ends = p.1 held in cc), q.0 refl), λ _. refl),
)
chosen_iff false false p q =
    ((λ h. cc, λ held. let ends = p.1 held in cc), (λ h. cc, λ h. let stops = q.1 h.1 in cc))

module _ (nodes : List Node) (unique : AreUnique nodes) where
  subset_iff :
      (allowed : List NodeState) (P : Option Node → Type 0)
      → ((found : Option Node) → (mem allowed (row_state found) ≡ true) ↔ P found)
      → (graph_nodes : List GraphNode)
      → (subset (map (λ node. state_of nodes node.id) graph_nodes) allowed ≡ true)
        ↔ All (λ node. P (read_node node.id nodes)) graph_nodes
  unfolding subset
  subset_iff allowed P test [] = (λ h. tt, λ h. refl)
  subset_iff allowed P test (node ∷ graph_nodes) =
      rw (state_of-read nodes node.id unique)
        (ground (arith, subset_iff allowed P test graph_nodes, test (read_node node.id nodes)))

  -- Over a table with one row per node, the status is complete exactly if every node of the graph has
  -- a row that has merged or was skipped, and errored exactly if not, but every node has a row that
  -- needs a human, is errored or was skipped. A node without a row keeps the run active.
  pub get_run_status_iff :
      (graph : Graph)
      → ((get_run_status graph nodes ≡ complete) ↔ EveryRow IsDone graph nodes)
        × ((get_run_status graph nodes ≡ run_errored)
            ↔ ((¬ EveryRow IsDone graph nodes) × EveryRow IsHeld graph nodes))
  unfolding get_run_status
  get_run_status_iff graph =
      chosen_iff (subset (graph_states graph nodes) (merged ∷ skipped ∷ []))
        (subset (graph_states graph nodes) (needs_human ∷ errored ∷ skipped ∷ []))
        (subset_iff (merged ∷ skipped ∷ []) IsDone IsDone-iff graph.nodes)
        (subset_iff (needs_human ∷ errored ∷ skipped ∷ []) IsHeld IsHeld-iff graph.nodes)
