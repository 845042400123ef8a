-- ===== src/Store/Reach.antt =====
-- What holds of the node table after writes to the rows of one id.
use agentic_dag.Prelude.{
  ℕ, ◌∙◌, ◌≤◌, ◌≡◌, refl, String, Bool, true, false, List, [], ◌∷◌, ◌++◌, leb, Option, none, some,
  ◌==◌, string_eq, arith, mem, ◌⊎◌, inl, inr, keep, Bool-cases, not, mem-append,
}
use text.Mathlib.TextEquality.{eq_iff}
use agentic_dag.Domain.{NodeState, in_progress, state_eq, Node, GraphNode}
use agentic_dag.Store.{
  update_where, find_row, read_node, update_state, ensure_rows, missing_rows, fresh_row,
  record_pull_request_settled, get_nodes_by_state,
}
use agentic_dag.Store.Nodes.{
  row_ids, AreUnique, read-update_state, read-settled, read-append, update_where-AreUnique,
}
use agentic_dag.Store.Touch.{Touch, kept, moved, settled, ensured}
use agentic_dag.Store.Counting.{
  workers, others, others-update_state, others-settled, others-append, workers-append,
  workers-missing, workers-others, others-workers,
}

update_state-AreUnique :
    (id : String) (state : NodeState) (at : ℕ) (resume_at : Option ℕ) (nodes : List Node)
    → AreUnique nodes
    → AreUnique (update_state id state at resume_at nodes)
unfolding update_state
update_state-AreUnique id state at resume_at nodes =
    update_where-AreUnique (λ node. node.id == id)
      (λ node. record node { state = state; updated_at = at; resume_at = resume_at }) nodes
      (λ node. refl)

settled-AreUnique :
    (id : String) (at : ℕ) (nodes : List Node)
    → AreUnique nodes
    → AreUnique (record_pull_request_settled id at nodes)
unfolding record_pull_request_settled
settled-AreUnique id at nodes =
    update_where-AreUnique (λ node. node.id == id)
      (λ node. record node { pull_request_settled_at = some at }) nodes (λ node. refl)

row_ids-append : (nodes more : List Node) → row_ids (nodes ++ more) ≡ row_ids nodes ++ row_ids more
row_ids-append [] more = refl
row_ids-append (node ∷ nodes) more = ground (arith, row_ids-append nodes more)

append-AreUnique :
    (node : Node) (nodes : List Node)
    → AreUnique nodes
    → mem (row_ids nodes) node.id ≡ false
    → AreUnique (nodes ++ node ∷ [])
unfolding mem
append-AreUnique node [] unique absent = (refl, tt)
append-AreUnique node (row ∷ nodes) unique absent = ground (
  arith,
  append-AreUnique node nodes unique.1,
  unique.0,
  row_ids-append nodes (node ∷ []),
  mem-append (row_ids nodes) (node.id ∷ []) row.id,
  eq_iff row.id node.id,
  eq_iff node.id row.id,
)

append-nil-AreUnique : (nodes : List Node) → nodes ++ [] ≡ nodes
append-nil-AreUnique [] = refl
append-nil-AreUnique (node ∷ nodes) = ground (arith, append-nil-AreUnique nodes)

ensure_rows-AreUnique :
    (graph_node : GraphNode) (at : ℕ) (nodes : List Node)
    → AreUnique nodes
    → AreUnique (ensure_rows (graph_node ∷ []) at nodes)
unfolding ensure_rows missing_rows fresh_row
ensure_rows-AreUnique graph_node at nodes unique =
    elim (Bool-cases (mem (row_ids nodes) graph_node.id)) [
      | inl known ↦ rw (known, append-nil-AreUnique nodes) unique
      | inr absent ↦ rw absent (append-AreUnique (fresh_row graph_node at) nodes unique absent)
    ]

-- A move of `id` to a state other than work takes no worker.
workers-update_state :
    (id : String) (state : NodeState) (at : ℕ) (resume_at : Option ℕ) (nodes : List Node)
    → (state == in_progress) ≡ false
    → workers (update_state id state at resume_at nodes) ≤ workers nodes
unfolding update_state update_where get_nodes_by_state keep
workers-update_state id state at resume_at [] h = omega arith
workers-update_state id state at resume_at (node ∷ nodes) h =
    ground (arith, workers-update_state id state at resume_at nodes h)

workers-settled :
    (id : String) (at : ℕ) (nodes : List Node)
    → workers (record_pull_request_settled id at nodes) ≡ workers nodes
unfolding record_pull_request_settled update_where get_nodes_by_state keep
workers-settled id at [] = refl
workers-settled id at (node ∷ nodes) = ground (arith, workers-settled id at nodes)

workers-ensure_rows :
    (graph_node : GraphNode) (at : ℕ) (nodes : List Node)
    → (workers (ensure_rows (graph_node ∷ []) at nodes) ≡ workers nodes)
      × (others graph_node.id (ensure_rows (graph_node ∷ []) at nodes) ≡ others graph_node.id nodes)
unfolding ensure_rows
workers-ensure_rows graph_node at nodes = ground (
  arith,
  workers-append nodes (missing_rows (row_ids nodes) (graph_node ∷ []) at),
  others-append graph_node.id nodes (missing_rows (row_ids nodes) (graph_node ∷ []) at),
  workers-missing (row_ids nodes) graph_node at,
)

other_row_missing :
    (existing : List String) (graph_node : GraphNode) (at : ℕ) (other : String)
    → (graph_node.id == other) ≡ false
    → read_node other (missing_rows existing (graph_node ∷ []) at) ≡ none
unfolding missing_rows fresh_row read_node find_row
other_row_missing existing graph_node at other different = ground (arith, different)

ensure_rows-frame :
    (graph_node : GraphNode) (at : ℕ) (other : String) (nodes : List Node)
    → (graph_node.id == other) ≡ false
    → read_node other (ensure_rows (graph_node ∷ []) at nodes) ≡ read_node other nodes
unfolding ensure_rows
ensure_rows-frame graph_node at other nodes different = ground (
  arith,
  read-append other nodes (missing_rows (row_ids nodes) (graph_node ∷ []) at),
  other_row_missing (row_ids nodes) graph_node at other different,
)

module _ {id : String} {Allowed : NodeState → Type 0} where
  pub Touch-AreUnique :
      {before after : List Node}
      → Touch id Allowed before after
      → AreUnique before
      → AreUnique after
  Touch-AreUnique kept unique = unique
  Touch-AreUnique (moved {middle} state at resume_at p allowed e) unique =
      rw e (update_state-AreUnique id state at resume_at middle (Touch-AreUnique p unique))
  Touch-AreUnique (settled {middle} at p e) unique =
      rw e (settled-AreUnique id at middle (Touch-AreUnique p unique))
  Touch-AreUnique (ensured {middle} graph_node at p same e) unique =
      rw e (ensure_rows-AreUnique graph_node at middle (Touch-AreUnique p unique))

  pub Touch-others :
      {before after : List Node}
      → Touch id Allowed before after
      → others id after ≡ others id before
  Touch-others kept = refl
  Touch-others (moved {middle} state at resume_at p allowed e) =
      rw e (others-update_state id state at resume_at middle ∙ Touch-others p)
  Touch-others (settled {middle} at p e) = rw e (others-settled id at middle ∙ Touch-others p)
  Touch-others (ensured {middle} graph_node at p same e) =
      ground (arith, e, same, Touch-others p, (workers-ensure_rows graph_node at middle).1)

  -- The row of another node is as it was.
  pub Touch-frame :
      {before after : List Node} (other : String)
      → Touch id Allowed before after
      → (id == other) ≡ false
      → read_node other after ≡ read_node other before
  Touch-frame other kept different = refl
  Touch-frame other (moved {middle} state at resume_at p allowed e) different = ground (
    arith,
    e,
    Touch-frame other p different,
    read-update_state id other state at resume_at middle,
  )
  Touch-frame other (settled {middle} at p e) different =
      ground (arith, e, Touch-frame other p different, read-settled id other at middle)
  Touch-frame other (ensured {middle} graph_node at p same e) different =
      ground (
        arith,
        e,
        same,
        Touch-frame other p different,
        ensure_rows-frame graph_node at other middle,
      )

  -- Where no move to work is allowed, no worker is taken.
  pub Touch-workers :
      {before after : List Node}
      → Touch id Allowed before after
      → ((state : NodeState) → Allowed state → (state == in_progress) ≡ false)
      → workers after ≤ workers before
  Touch-workers kept idle = omega arith
  Touch-workers (moved {middle} state at resume_at p allowed e) idle = rw e (
      omega (
        arith,
        workers-update_state id state at resume_at middle (idle state allowed),
        Touch-workers p idle,
      ))
  Touch-workers (settled {middle} at p e) idle =
      rw e (omega (arith, workers-settled id at middle, Touch-workers p idle))
  Touch-workers (ensured {middle} graph_node at p same e) idle =
      rw e (omega (arith, (workers-ensure_rows graph_node at middle).0, Touch-workers p idle))

-- Where a move to work is allowed only while fewer than `cap` nodes are at work, writes to one row
-- leave no more nodes at work than there were before, or no more than `cap`.
pub Touch-cap :
    {id : String} (Allowed : Bool → NodeState → Type 0) (cap : ℕ) {before after : List Node}
    (free : Bool)
    → not (leb cap (workers before)) ≡ free
    → ((state : NodeState) → Allowed false state → (state == in_progress) ≡ false)
    → Touch id (Allowed free) before after
    → AreUnique before
    → AreUnique after × ((workers after ≤ workers before) ⊎ (workers after ≤ cap))
Touch-cap Allowed cap false e idle touch unique =
    (Touch-AreUnique touch unique, inl (Touch-workers touch idle))
Touch-cap {id} Allowed cap {before} {after} true e idle touch unique = (
  Touch-AreUnique touch unique,
  inr (
      ground (
        arith,
        e,
        workers-others id after (Touch-AreUnique touch unique),
        Touch-others touch,
        others-workers id before,
      )),
)
