-- ===== src/Handlers/Pending/Admission.antt =====
-- What has to hold before a pass over a pending node starts work, and what it leaves alone.
use agentic_dag.Prelude.{
  ℕ, ◌≤◌, ◌<◌, ◌≡◌, refl, String, true, false, [], ◌∷◌, ◌++◌, none, some, ◌==◌, string_eq, all, leb,
  arith, ◌⊎◌, inl, inr, Option-cases, Bool-cases,
}
use agentic_dag.Domain.{
  NodeState, pending, in_progress, needs_human, errored, merged, skipped, resting, state_eq,
  is_stopped, GraphNode, Graph, Node, DagSpec,
}
use text.Mathlib.TextEquality.{eq_iff}
use agentic_dag.StartTime.{get_start_time}
use agentic_dag.World.{World}
use agentic_dag.Store.{
  Store, read_node, record_move, run, pure, set_nodes, save_audit_entry, publish, find_row, ◌>>=◌,
  ◌>>◌, query, and_then, on_option,
}
use agentic_dag.Store.Nodes.{AreUnique, read-update_state}
use agentic_dag.Store.Counting.{workers, has_free_worker}
use agentic_dag.Store.Reach.{Touch-frame, Touch-cap}
use agentic_dag.Labels
use agentic_dag.Handlers.Response.{response, can_launch}
use agentic_dag.Handlers.Pending.{
  record_wait, begin, stop_node, stopped_event, admit, advance, is_future, skipped_rows,
  dependency_rows,
}
use agentic_dag.Handlers.Pending.Ready.{Starts, advance-Touch}

-- A pass over a pending node leaves the rows of the other nodes as they are.
pub advance_pending-read_node :
    (world : World) (spec : DagSpec) (graph : Graph) (graph_node : GraphNode) (now : ℕ)
    (store : Store) (other : String)
    → (graph_node.id == other) ≡ false
    → read_node other (advance world spec graph now graph_node store).1.nodes
      ≡ read_node other store.nodes
advance_pending-read_node world spec graph graph_node now store other =
    Touch-frame other (advance-Touch world spec graph graph_node now store)

Starts-idle : (state : NodeState) → Starts false state → (state == in_progress) ≡ false
Starts-idle pending allowed = refl
Starts-idle needs_human allowed = refl
Starts-idle errored allowed = refl
Starts-idle in_progress allowed = cc
Starts-idle merged allowed = refl
Starts-idle skipped allowed = refl
Starts-idle resting allowed = refl

-- With one row per node, a pass over a pending node keeps one row per node, and leaves no more
-- nodes at work than there were before, or no more than `max_workers`.
pub advance-max_workers :
    (world : World) (spec : DagSpec) (graph : Graph) (graph_node : GraphNode) (now : ℕ)
    (store : Store)
    → AreUnique store.nodes
    → AreUnique (advance world spec graph now graph_node store).1.nodes
      × ((workers (advance world spec graph now graph_node store).1.nodes ≤ workers store.nodes)
          ⊎ (workers (advance world spec graph now graph_node store).1.nodes ≤ spec.max_workers))
advance-max_workers world spec graph graph_node now store =
    Touch-cap Starts spec.max_workers (has_free_worker spec store) refl Starts-idle
      (advance-Touch world spec graph graph_node now store)

stop_node-effects :
    (graph_node : GraphNode) (note : String) (now : ℕ) (store : Store)
    → (stop_node graph_node note now store).1.effects ≡ store.effects
unfolding stop_node run record_move set_nodes save_audit_entry publish
stop_node-effects graph_node note now store = refl

record_wait-effects :
    (world : World) (graph_node : GraphNode) (time now : ℕ) (store : Store)
    → ((record_wait world graph_node time >> pure (response 0 0)) store).1.effects ≡ store.effects
unfolding record_wait run set_nodes save_audit_entry
record_wait-effects world graph_node time now store =
    elim (Option-cases (read_node graph_node.id store.nodes)) [
      | inl missing ↦ rw missing refl
      | inr (node, found) ↦ ground (arith, found)
    ]

-- What `advance` asks for before it starts a session.
abbrev pub IsAdmitted : World → DagSpec → Graph → GraphNode → ℕ → Store → Type 0
IsAdmitted world spec graph graph_node now store =
    (all (λ (row : Node). row.state == merged) (dependency_rows graph graph_node store) ≡ true)
    × (workers store.nodes < spec.max_workers)
    × (can_launch world graph_node.executor_agent ≡ true)
    × ((node : Node) × (read_node graph_node.id store.nodes ≡ some node)
        × (is_future now (
              get_start_time graph graph_node
                (skipped_rows store ++ (dependency_rows graph graph_node store ++ node ∷ [])))
            ≡ false))

module _ (world : World) (spec : DagSpec) (graph : Graph) (graph_node : GraphNode) (now : ℕ) where
  begin-effects :
      (node : Node) (store : Store)
      → ((begin world graph_node node now store).1.effects ≡ store.effects)
        ⊎ (can_launch world graph_node.executor_agent ≡ true)
  unfolding begin
  begin-effects node store = elim (Bool-cases (can_launch world graph_node.executor_agent)) [
    | inl launches ↦ inr launches
    | inr unknown ↦ inl (rw unknown (stop_node-effects graph_node _ now store))
  ]

  admit-effects :
      (node : Node) (store : Store)
      → all (λ (row : Node). row.state == merged) (dependency_rows graph graph_node store) ≡ true
      → read_node graph_node.id store.nodes ≡ some node
      → ((admit world spec graph graph_node now
            (dependency_rows graph graph_node store)
            node
            store).1.effects
          ≡ store.effects)
        ⊎ IsAdmitted world spec graph graph_node now store
  unfolding admit ◌>>=◌ query and_then pure
  admit-effects node store all_merged found =
      elim (Bool-cases (
        is_future now (
          get_start_time graph graph_node
            (skipped_rows store ++ (dependency_rows graph graph_node store ++ node ∷ []))))) [
              | inl early ↦ inl (rw early (record_wait-effects world graph_node _ now store))
              | inr due ↦ elim (Bool-cases (leb spec.max_workers (workers store.nodes))) [
                | inl busy ↦ inl (rw (due, busy) refl)
                | inr free ↦ elim (begin-effects node store) [
                  | inl same ↦ inl (rw (due, free) same)
                  | inr launches ↦
                      inr (all_merged, ground (arith, free), launches, (node, found, due))
                ]
              ]
            ]

  -- A pass over a pending node asks nothing of an agent, unless the rows of all its effective
  -- dependencies are merged, fewer nodes are at work than the run has workers, the launcher of its
  -- executor is there, and it has a row with which its start time is not in the future.
  pub advance-IsAdmitted :
      (store : Store)
      → ((advance world spec graph now graph_node store).1.effects ≡ store.effects)
        ⊎ IsAdmitted world spec graph graph_node now store
  unfolding advance ◌>>=◌ query and_then on_option pure
  advance-IsAdmitted store =
      elim (Option-cases (
        find_row (λ (row : Node). is_stopped row.state) (dependency_rows graph graph_node store))) [
          | inr (row, stopped) ↦ inl (rw stopped (stop_node-effects graph_node _ now store))
          | inl none_stopped ↦
              elim (Bool-cases (
                all (λ (row : Node). row.state == merged)
                  (dependency_rows graph graph_node store))) [
                    | inr waiting ↦ inl (rw (none_stopped, waiting) refl)
                    | inl all_merged ↦ elim (Option-cases (read_node graph_node.id store.nodes)) [
                      | inl missing ↦ inl (rw (none_stopped, all_merged, missing) refl)
                      | inr (node, found) ↦ elim (admit-effects node store all_merged found) [
                        | inl same ↦ inl (rw (none_stopped, all_merged, found) same)
                        | inr admitted ↦ inr admitted
                      ]
                    ]
                  ]
        ]

  -- Where a dependency has stopped and the node has a row, a pass moves it to needs_human, no
  -- longer waiting for a time, with an audit entry that names the stopped row and nothing asked of
  -- an agent.
  pub advance-upstream_stopped :
      (store : Store) (row node : Node)
      → find_row (λ (row : Node). is_stopped row.state) (dependency_rows graph graph_node store)
        ≡ some row
      → read_node graph_node.id store.nodes ≡ some node
      → let after = (advance world spec graph now graph_node store).1 in
        (read_node graph_node.id after.nodes
          ≡ some (record node { state = needs_human; updated_at = now; resume_at = none }))
        × (after.audit_entries
            ≡ store.audit_entries
              ++ record {
                node_id = graph_node.id;
                state = needs_human;
                note = Labels.upstream_stopped row.id;
                created_at = now;
              }
                ∷ [])
        × (after.effects ≡ store.effects)
  unfolding advance run stop_node record_move set_nodes save_audit_entry publish stopped_event
  advance-upstream_stopped store row node stopped found = rw stopped (
    ground (
      arith,
      found,
      read-update_state graph_node.id graph_node.id needs_human now none store.nodes,
      eq_iff graph_node.id graph_node.id,
    ),
    refl,
    refl,
  )
