-- ===== src/Services/Commands/Retrying.antt =====
-- What a retry of api/cli/handlers/retry_command_handler.py leaves behind.
use agentic_dag.Prelude.{
  ℕ, ◌≡◌, refl, String, Bool, true, false, List, [], ◌∷◌, map, none, some, ◌==◌, string_eq, mem,
  if◌then◌else◌, inl, inr, Bool-cases, Option-cases, sym, subst, same_refl, ◌∙◌, ap, pos,
}
use agentic_dag.Domain.{pending, Graph, GraphNode, Node, DagSpec, NodeCommand, success}
use agentic_dag.World.{World}
use agentic_dag.Store.{
  M, Store, ok, pure, run, ◌>>=◌, ◌>>◌, read_node, find_row, update_where, reset_recovery_attempts,
  record_move, set_nodes, save_audit_entry, save_agent, get_by_node_id, publish, modify, query,
  and_then, on_option, perform, emitted,
}
use agentic_dag.Store.Nodes.{read-update_state, read_node-id}
use agentic_dag.Store.Moves.{Moves, bind-Leads, then-Moves, pure-Moves}
use agentic_dag.Labels
use agentic_dag.Services.Schedule.{keep_scheduled}
use agentic_dag.Services.Schedule.Keeping.{KeepsNodes, KeepsNodes-Frame, keep_scheduled-nodes}
use agentic_dag.Services.Release.{release, retried_event, stopped_dependents}
use agentic_dag.Services.Release.Effects.{release-read, released_row}
use agentic_dag.Services.Commands.{
  is_retryable, reset_attempts, clear_resume_token, retry_node, retry_command,
}

-- A statement that does not raise hands over to the rest.
then-ok :
    {B : Type 0} (Q : Store → Type 0) (m : M (Unit {0})) (n : M B) (store after : Store)
    → m store ≡ (ok tt, after)
    → Q (n after).1
    → Q ((m >> n) store).1
unfolding ◌>>◌ ◌>>=◌ and_then
then-ok Q m n store after done rest = rw done rest

read-reset :
    (id : String) (attempts : ℕ) (nodes : List Node)
    → read_node id (reset_recovery_attempts id attempts nodes) ≡ elim (read_node id nodes) [
      | none ↦ none
      | some row ↦ some (record row { recovery_attempts_allowed = pos attempts })
    ]
unfolding read_node find_row reset_recovery_attempts update_where
read-reset id attempts [] = refl
read-reset id attempts (node ∷ nodes) = elim (Bool-cases (node.id == id)) [
  | inl here ↦ rw (here, here) refl
  | inr other ↦ rw (other, other) (read-reset id attempts nodes)
]

-- The row of a node that was sent back to work, with all its attempts.
abbrev pub retried_row : Node → ℕ → ℕ → Node
retried_row row attempts now = record row {
  state = pending;
  updated_at = now;
  resume_at = none;
  recovery_attempts_allowed = pos attempts;
}

clear_resume_token-ok :
    (reset : Bool) (row : Node) (store : Store)
    → (after : Store) × ((if reset then clear_resume_token row else pure tt) store ≡ (ok tt, after))
      × (after.nodes ≡ store.nodes)
unfolding clear_resume_token run save_agent
clear_resume_token-ok false row store = (store, refl, refl)
clear_resume_token-ok true row store = elim (Option-cases (get_by_node_id row.id store.agents)) [
  | inl absent ↦ (store, rw absent refl, refl)
  | inr (agent, present) ↦
      (save_agent (record agent { resume_token = "" }) store, rw present refl, refl)
]

module _ (id : String) (row : Node) (attempts now : ℕ) where
  abbrev IsRetried : Store → Type 0
  IsRetried store = read_node id store.nodes ≡ some (retried_row row attempts now)

  keeps-IsRetried :
      {A : Type 0} (m : M A)
      → Moves KeepsNodes m
      → (store : Store) → IsRetried store
      → IsRetried (m store).1
  keeps-IsRetried m keeps store back = ap (read_node id) (keeps store) ∙ back

  -- A release leaves a row that is pending since then as it is, whether it takes it or not.
  release-IsRetried :
      (graph : Graph) (store : Store) → IsRetried store → IsRetried (release graph id now store).1
  release-IsRetried graph store back =
      let (answer, effects, rows) = release-read graph id now store id in
      rows
      ∙ rw back (
          ap some
            (either (mem (map (λ (node : Node). node.id) (stopped_dependents graph id store)) id)))
    where
      either :
          (b : Bool)
          → (if b
              then released_row (retried_row row attempts now) now
              else retried_row row attempts now)
            ≡ retried_row row attempts now
      either true = refl
      either false = refl

  recorded-IsRetried :
      (store after : Store) (row' : Node)
      → read_node id store.nodes ≡ some row
      → row'.id ≡ id
      → after.nodes ≡ reset_recovery_attempts id attempts store.nodes
      → IsRetried (record_move (retried_event row' now) pending Labels.sent_back_to_work after)
  unfolding record_move set_nodes save_audit_entry publish retried_event
  recorded-IsRetried store after row' found same reset =
      rw
        (
          same,
          reset,
          read-update_state id id pending now none
              (reset_recovery_attempts id attempts store.nodes),
          read-reset id attempts store.nodes,
          found,
          same_refl id,
        )
        refl

-- The end of a retry: the line that it says, and the schedule.
conclude-nodes :
    (world : World) (spec : DagSpec) (path text : String)
    → Moves KeepsNodes (perform (emitted text) >> (keep_scheduled world spec path >> pure success))
unfolding perform
conclude-nodes world spec path text =
    then-Moves KeepsNodes (perform (emitted text)) (keep_scheduled world spec path >> pure success)
      (λ store. refl)
      (then-Moves KeepsNodes (keep_scheduled world spec path) (pure success)
        (keep_scheduled-nodes world spec path) (pure-Moves KeepsNodes success))

modify-ok : (f : Store → Store) (store : Store) → modify f store ≡ (ok tt, f store)
unfolding modify
modify-ok f store = refl

abbrev reset_store : String → GraphNode → Store → Store
reset_store id graph_node =
    set_nodes (reset_recovery_attempts id graph_node.recovery_attempts_allowed)

reset_attempts-ok :
    (graph : Graph) (command : NodeCommand) (graph_node : GraphNode) (store : Store)
    → find_row (λ (node : GraphNode). node.id == command.node_id) graph.nodes ≡ some graph_node
    → reset_attempts graph command store ≡ (ok tt, reset_store command.node_id graph_node store)
unfolding reset_attempts run
reset_attempts-ok graph command graph_node store declared = rw declared refl

module _ (world : World) (spec : DagSpec) (graph : Graph) (command : NodeCommand) (row : Node)
    (graph_node : GraphNode) where
  abbrev IsBack : Store → Type 0
  IsBack = IsRetried row.id row graph_node.recovery_attempts_allowed (world.now 0)

  -- From the move of the row on.
  released-IsBack :
      (after : Store)
      → IsBack after
      → IsBack
          ((release graph row.id (world.now 0) >>= λ released.
              perform (emitted (Labels.node_retried row.id))
              >> (keep_scheduled world spec command.dag_path >> pure success))
            after).1
  released-IsBack after back =
      let attempts = graph_node.recovery_attempts_allowed in
      let says = Labels.node_retried row.id in
      bind-Leads IsBack IsBack (release graph row.id (world.now 0)) _ after
        (release-IsRetried row.id row attempts (world.now 0) graph after back) (λ at there. there)
        λ ids.
          keeps-IsRetried row.id row attempts (world.now 0)
            (perform (emitted says) >> (keep_scheduled world spec command.dag_path >> pure success))
            (conclude-nodes world spec command.dag_path says)

  retry_node-IsBack :
      (store : Store)
      → find_row (λ (node : GraphNode). node.id == command.node_id) graph.nodes ≡ some graph_node
      → command.node_id ≡ row.id
      → read_node row.id store.nodes ≡ some row
      → IsBack (retry_node world spec graph command row store).1
  unfolding retry_node set_nodes
  retry_node-IsBack store declared same found =
      let now = world.now 0 in
      let attempts = graph_node.recovery_attempts_allowed in
      let move = record_move (retried_event row now) pending Labels.sent_back_to_work in
      let (after, cleared, kept) =
        clear_resume_token-ok command.reset row (reset_store row.id graph_node store) in
      then-ok IsBack (reset_attempts graph command) _ store (reset_store row.id graph_node store)
        (reset_attempts-ok graph command graph_node store declared
          ∙ ap (λ id. (ok tt, reset_store id graph_node store)) same)
        (then-ok IsBack (if command.reset then clear_resume_token row else pure tt) _
          (reset_store row.id graph_node store) after cleared
          (then-ok IsBack (modify move) _ after (move after) (modify-ok move after) (
            released-IsBack (move after)
              (recorded-IsRetried row.id row attempts now store after row found refl kept))))

-- A retry of a node whose row is errored or needs a human, and that the graph declares, takes the row
-- back to pending with all the attempts that the graph allows it and no time to wait for, also
-- where it raises since the run's schedule cannot be kept, and where the release comes back to it.
pub retry_command-IsRetried :
    (world : World) (spec : DagSpec) (graph : Graph) (command : NodeCommand)
    (graph_node : GraphNode) (row : Node) (store : Store)
    → find_row (λ (node : GraphNode). node.id == command.node_id) graph.nodes ≡ some graph_node
    → read_node command.node_id store.nodes ≡ some row
    → is_retryable row.state ≡ true
    → read_node command.node_id (retry_command world spec graph command store).1.nodes
      ≡ some (retried_row row graph_node.recovery_attempts_allowed (world.now 0))
unfolding retry_command query ◌>>=◌ and_then on_option
retry_command-IsRetried world spec graph command graph_node row store declared found retryable =
    let same = read_node-id command.node_id store.nodes row found in
    let there = subst (λ id. read_node id store.nodes ≡ some row) (sym same) found in
    rw (found, retryable)
      (subst
        (λ id.
          read_node id (retry_node world spec graph command row store).1.nodes
          ≡ some (retried_row row graph_node.recovery_attempts_allowed (world.now 0)))
        same
        (retry_node-IsBack world spec graph command row graph_node store declared (sym same) there))
