-- ===== src/Tick/Cap.antt =====
-- What a whole pass, with its validation, its recovery and its learning, does to the nodes at work.
use agentic_dag.Prelude.{ℕ, ◌≤◌, ◌⊎◌, String, string_eq, if◌then◌else◌, inl, inr, Bool-cases}
use agentic_dag.Domain.{state_eq, Graph, DagSpec, failure}
use agentic_dag.World.{World}
use agentic_dag.Building.{build_from_path}
use agentic_dag.GraphService.{RunStatus, active, complete, run_errored}
use agentic_dag.Validation.{validate_graph, is_blocking}
use agentic_dag.Validation.Rules.{validate_graph_iff}
use agentic_dag.Store.{M, Store, pure, call, perform, emitted}
use agentic_dag.Store.Nodes.{AreUnique}
use agentic_dag.Store.Counting.{workers}
use agentic_dag.Store.Moves.{
  Moves, Frame, pure-Moves, query-Moves, call-Moves, bind-Moves, then-Moves,
}
use agentic_dag.Handlers.Sweep.{sweep}
use agentic_dag.Handlers.Sweep.Cap.{Stays, Stays-refl, Stays-trans, sweep-max_workers}
use agentic_dag.Handlers.Response.{TickResponse}
use agentic_dag.Store.Ensured.{AreDistinctIds}
use agentic_dag.Learning.Dispatch as LearningDispatch
use agentic_dag.Tick.{recover_failed_nodes, conclude, run_pass, handle}
use agentic_dag.Tick.Calm.{Calm, Calm-Frame, Calm-Allows, recover_failed_nodes-Calm}
use agentic_dag.Tick.Extraction.{learning-Calm}

-- Within the cap of the run.
Within : ℕ → Store → Store → Type 0
Within cap store after = Stays cap store.nodes after.nodes

Within-Frame : (cap : ℕ) → Frame (Within cap)
unfolding Within
Within-Frame cap = record {
  reflexive = λ store. Stays-refl cap store.nodes;
  transitive = λ a b c. Stays-trans cap a.nodes b.nodes c.nodes;
}

module _ (cap : ℕ) where
  instance within_cap : Frame (Within cap)
  within_cap = Within-Frame cap

  Calm-Within : (store after : Store) → Calm store after → Within cap store after
  unfolding Calm Within
  Calm-Within store after calm unique = let (one, less) = calm unique in (one, inl less)

  calmly : {A : Type 0} (m : M A) → Moves Calm m → Moves (Within cap) m
  calmly m moves store = Calm-Within store (m store).1 (moves store)

  say-Within : (text : String) → Moves (Within cap) (perform (emitted text))
  say-Within text = calmly (perform (emitted text)) (Calm-Allows.performs (emitted text))

  conclude-Within :
      (status : RunStatus) (tick_response : TickResponse)
      → Moves (Within cap) (conclude status tick_response)
  unfolding conclude
  conclude-Within active tick_response =
      then-Moves (Within cap) _ _ (say-Within _) (pure-Moves (Within cap) _)
  conclude-Within complete tick_response =
      then-Moves (Within cap) _ _ (say-Within _) (pure-Moves (Within cap) _)
  conclude-Within run_errored tick_response =
      then-Moves (Within cap) _ _ (say-Within _) (pure-Moves (Within cap) _)

module _ (world : World) (spec : DagSpec) (now : ℕ) where
  instance within_workers : Frame (Within spec.max_workers)
  within_workers = Within-Frame spec.max_workers

  sweep-Within :
      (graph : Graph)
      → AreDistinctIds graph.nodes
      → Moves (Within spec.max_workers) (sweep world spec graph now)
  unfolding Within
  sweep-Within graph distinct store = sweep-max_workers world spec graph now store distinct

  run_pass-Within :
      (graph : Graph)
      → AreDistinctIds graph.nodes
      → Moves (Within spec.max_workers) (run_pass world spec graph now)
  unfolding run_pass
  run_pass-Within graph distinct =
      let cap = spec.max_workers in
      bind-Moves (Within cap) _ _ (sweep-Within graph distinct) λ swept.
        bind-Moves (Within cap) _ _
          (calmly cap (recover_failed_nodes world spec now)
            (recover_failed_nodes-Calm world spec now))
          λ recovered.
            bind-Moves (Within cap) _ _
              (calmly cap (LearningDispatch.dispatch world spec now) (learning-Calm world spec now))
              λ learned.
                bind-Moves (Within cap) _ _ (query-Moves (Within cap) _)
                  λ status. conclude-Within cap status _

  guarded-Within :
      (graph : Graph)
      → Moves (Within spec.max_workers) (
          if is_blocking (validate_graph graph)
          then pure failure
          else run_pass world spec graph now)
  guarded-Within graph store = elim (Bool-cases (is_blocking (validate_graph graph))) [
    | inl blocks ↦ rw blocks (pure-Moves (Within spec.max_workers) failure store)
    | inr passes ↦
        let runnable = (validate_graph_iff graph).0 passes in
        rw passes (run_pass-Within graph runnable.distinct store)
  ]

  -- A whole pass, from the loading of the dag to its exit code, whether or not it raises: from a
  -- table with one row per node, it leaves one row per node, and no more nodes at work than there
  -- were before it, or no more than `max_workers`. Nothing is asked of the graph: one that
  -- validation lets through has distinct ids, and no other is run.
  pub handle-max_workers :
      (dag_path : String) (store : Store)
      → AreUnique store.nodes
      → AreUnique (handle world spec dag_path now store).1.nodes
        × ((workers (handle world spec dag_path now store).1.nodes ≤ workers store.nodes)
            ⊎ (workers (handle world spec dag_path now store).1.nodes ≤ spec.max_workers))
  unfolding handle build_from_path Within
  handle-max_workers dag_path =
      let cap = spec.max_workers in
      bind-Moves (Within cap) (build_from_path world dag_path) _
        (bind-Moves (Within cap) (call (world.load_dag dag_path)) _ (call-Moves (Within cap) _)
          λ loaded. pure-Moves (Within cap) _)
        λ graph. then-Moves (Within cap) _ _ (say-Within cap _) (guarded-Within graph)
