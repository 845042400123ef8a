-- ===== src/Handlers/Sweep/Cap.antt =====
-- What a whole control pass does to the number of nodes at work.
use agentic_dag.Prelude.{
  ℕ, ◌≤◌, ◌≡◌, refl, String, Bool, true, false, List, [], ◌∷◌, some, ◌==◌, string_eq, arith, ◌⊎◌,
  inl,
}
use agentic_dag.Domain.{NodeState, in_progress, state_eq, GraphNode, Graph, Node, DagSpec, WorkTree}
use agentic_dag.World.{World}
use agentic_dag.Store.{
  M, Store, Result, ok, raised, Failure, base_branch_missing, worktree_conflict, worktree_error,
  observation_error, os_error, unhandled, pure, query, modify, and_then, ◌>>=◌, ◌>>◌, ensure_rows,
  set_nodes, mark_reclaimed, update_worktree,
}
use agentic_dag.Store.Nodes.{AreUnique}
use agentic_dag.Store.Touch.{
  Writes-handled, Writes, Writes-other, Writes-try, Writes-bind, Writes-then, Writes-option,
  Writes-if, Writes-query, Writes-call, Writes-pure, Writes-perform,
}
use agentic_dag.Store.Counting.{workers}
use agentic_dag.Store.Reach.{Touch-AreUnique, Touch-workers}
use agentic_dag.Store.Ensured.{AreDistinctIds, ensure_rows-AreUnique, ensure_rows-workers}
use agentic_dag.GraphService.{nodes_in}
use agentic_dag.Handlers.Response.{TickResponse, increment_with, response}
use agentic_dag.Handlers.InProgress.Settling.{advance-Writes, Settles-idle}
use agentic_dag.Handlers.Resting.Caps
use agentic_dag.Handlers.Pending.Admission
use agentic_dag.Handlers.Merged
use agentic_dag.Handlers.Sweep.{
  handle, handle_state, handle_in_progress_nodes, handle_resting_nodes, handle_pending_nodes,
  handle_merged_nodes, sweep,
}

-- The second table has one row per node where the first has, and no more nodes at work, or no more
-- than `cap`.
abbrev pub Stays : ℕ → List Node → List Node → Type 0
Stays cap before after =
    AreUnique before → AreUnique after × ((workers after ≤ workers before) ⊎ (workers after ≤ cap))

pub Stays-refl : (cap : ℕ) (nodes : List Node) → Stays cap nodes nodes
Stays-refl cap nodes unique = (unique, inl (omega arith))

pub Stays-trans : (cap : ℕ) (a b c : List Node) → Stays cap a b → Stays cap b c → Stays cap a c
Stays-trans cap a b c p q unique =
    let first = p unique in let second = q first.0 in (second.0, ground (arith, first.1, second.1))

-- An action that keeps within the cap, whether or not it raises.
record IsCapped (cap : ℕ) {A : Type 0} (m : M A) : Type 0 where
  apply : (store : Store) → Stays cap store.nodes (m store).1.nodes

module _ (cap : ℕ) where
  and_then-Stays :
      {A B : Type 0} (result : Result A) (f : A → M B) (before : List Node) (after : Store)
      → Stays cap before after.nodes
      → ((a : A) → IsCapped cap (f a))
      → Stays cap before (and_then result f after).1.nodes
  unfolding and_then
  and_then-Stays (ok a) f before after p q =
      Stays-trans cap before after.nodes (f a after).1.nodes p ((q a).apply after)
  and_then-Stays (raised failure) f before after p q = p

  bind-IsCapped :
      {A B : Type 0} {m : M A} {f : A → M B}
      → IsCapped cap m
      → ((a : A) → IsCapped cap (f a))
      → IsCapped cap (m >>= f)
  unfolding ◌>>=◌
  bind-IsCapped {m = m} {f = f} p q = record {
    apply = λ store. and_then-Stays (m store).0 f store.nodes (m store).1 (p.apply store) q;
  }

  pure-IsCapped : {A : Type 0} (a : A) → IsCapped cap (pure a)
  unfolding pure
  pure-IsCapped a = record { apply = λ store. Stays-refl cap store.nodes }

  Writes-IsCapped :
      {A : Type 0} {id : String} {Allowed : NodeState → Type 0} {m : M A}
      → Writes id Allowed m
      → ((state : NodeState) → Allowed state → (state == in_progress) ≡ false)
      → IsCapped cap m
  Writes-IsCapped writes idle = record {
    apply = λ store unique. (
      Touch-AreUnique (writes.apply store) unique,
      inl (Touch-workers (writes.apply store) idle),
    );
  }

  handle-IsCapped :
      (advance_node : GraphNode → M TickResponse)
      → ((graph_node : GraphNode) → IsCapped cap (advance_node graph_node))
      → (graph_nodes : List GraphNode) (tick_response : TickResponse)
      → IsCapped cap (handle advance_node graph_nodes tick_response)
  unfolding handle
  handle-IsCapped advance_node capped [] tick_response = pure-IsCapped tick_response
  handle-IsCapped advance_node capped (graph_node ∷ graph_nodes) tick_response =
      bind-IsCapped (capped graph_node) λ node_response.
        handle-IsCapped advance_node capped graph_nodes (increment_with tick_response node_response)

  query-IsCapped : {A : Type 0} (f : Store → A) → IsCapped cap (query f)
  unfolding query
  query-IsCapped f = record { apply = λ store. Stays-refl cap store.nodes }

  handle_state-IsCapped :
      (graph : Graph) (state : NodeState) (advance_node : GraphNode → M TickResponse)
      → ((graph_node : GraphNode) → IsCapped cap (advance_node graph_node))
      → IsCapped cap (handle_state graph state advance_node)
  unfolding handle_state
  handle_state-IsCapped graph state advance_node capped =
      bind-IsCapped (query-IsCapped _)
        λ nodes. handle-IsCapped advance_node capped (nodes_in graph state nodes) (response 0 0)

removal_failures :
    (id : String) (failure : Failure) (m : M Bool)
    → Merged.failure_handler failure ≡ some m
    → Writes id (λ state. ⊥) m
unfolding Merged.failure_handler
removal_failures id (base_branch_missing _) m e = Writes-handled e (Writes-pure _)
removal_failures id (worktree_conflict _) m e = Writes-handled e (Writes-pure _)
removal_failures id (worktree_error _) m e = Writes-handled e (Writes-pure _)
removal_failures id (os_error _) m e = Writes-handled e (Writes-pure _)
removal_failures id (observation_error _) m e = cc
removal_failures id (unhandled _) m e = cc

module _ (world : World) where
  remove_worktree-Writes :
      (id : String) (graph_node : GraphNode) (worktree : WorkTree)
      → Writes id (λ state. ⊥) (Merged.remove_worktree world graph_node worktree)
  unfolding Merged.remove_worktree
  remove_worktree-Writes id graph_node worktree =
      Writes-try
        (Writes-bind (Writes-call _) λ project_root.
          Writes-then (Writes-call _) (Writes-then (Writes-perform _) (Writes-pure true)))
        (removal_failures id)

  -- A pass over a merged node leaves every row as it is.
  merged-Writes :
      (id : String) (graph_node : GraphNode) (now : ℕ)
      → Writes id (λ state. ⊥) (Merged.advance world now graph_node)
  unfolding Merged.advance Merged.reclaim mark_reclaimed update_worktree
  merged-Writes id graph_node now = Writes-bind (Writes-query _) λ found.
      Writes-option found (Writes-pure _) λ agent.
        Writes-option agent.worktree (Writes-pure _) λ worktree. Writes-if _ (Writes-pure _) (
          Writes-bind (remove_worktree-Writes id graph_node worktree) λ is_removed.
            Writes-if _ (Writes-then (Writes-other _ λ store. refl) (Writes-pure _))
              (Writes-pure _))

ensure-IsCapped :
    (cap : ℕ) (graph : Graph) (now : ℕ)
    → AreDistinctIds graph.nodes
    → IsCapped cap (modify (set_nodes (ensure_rows graph.nodes now)))
unfolding modify set_nodes
ensure-IsCapped cap graph now distinct = record {
  apply = λ store unique. (
    ensure_rows-AreUnique graph.nodes now store.nodes distinct unique,
    inl (omega (arith, ensure_rows-workers graph.nodes now store.nodes)),
  );
}

sweep-IsCapped :
    (world : World) (spec : DagSpec) (graph : Graph) (now : ℕ)
    → AreDistinctIds graph.nodes
    → IsCapped spec.max_workers (sweep world spec graph now)
unfolding sweep ◌>>◌ handle_in_progress_nodes handle_resting_nodes handle_pending_nodes
    handle_merged_nodes
sweep-IsCapped world spec graph now distinct =
    let cap = spec.max_workers in
    bind-IsCapped cap (ensure-IsCapped cap graph now distinct) λ _.
      bind-IsCapped cap
        (handle_state-IsCapped cap graph _ _
          λ node. Writes-IsCapped cap (advance-Writes world node) Settles-idle)
        λ in_progress_response.
          bind-IsCapped cap
            (handle_state-IsCapped cap graph _ _
              λ node. record { apply = Caps.advance-max_workers world spec node })
            λ resting_response.
              bind-IsCapped cap
                (handle_state-IsCapped cap graph _ _ λ node. record {
                  apply = Admission.advance-max_workers world spec graph node now;
                })
                λ pending_response.
                  bind-IsCapped cap
                    (handle_state-IsCapped cap graph _ _ λ node.
                      Writes-IsCapped cap (merged-Writes world node.id node now)
                        (λ state never. elim never [ ]))
                    λ merged_response. pure-IsCapped cap _

-- A control pass, whatever it finds and whether or not it raises: for a graph without repeated ids
-- and a table with one row per node, it leaves one row per node, and no more nodes at work than
-- there were before it, or no more than `max_workers`.
pub sweep-max_workers :
    (world : World) (spec : DagSpec) (graph : Graph) (now : ℕ) (store : Store)
    → AreDistinctIds graph.nodes
    → AreUnique store.nodes
    → AreUnique (sweep world spec graph now store).1.nodes
      × ((workers (sweep world spec graph now store).1.nodes ≤ workers store.nodes)
          ⊎ (workers (sweep world spec graph now store).1.nodes ≤ spec.max_workers))
sweep-max_workers world spec graph now store distinct =
    (sweep-IsCapped world spec graph now distinct).apply store
