-- ===== src/Services/Commands/Skipping.antt =====
-- What a skip of services/run/node_skip_service.py leaves behind.
use agentic_dag.Prelude.{
  ℕ, ◌≡◌, refl, String, Bool, true, false, ◌&&◌, List, [], ◌∷◌, map, Option, none, some, ◌==◌,
  string_eq, mem, keep, if◌then◌else◌, inl, inr, ◌⊎◌, Bool-cases, Option-cases, sym, subst,
  same_refl, ◌∙◌, ap, ◌≢◌, arith,
}
use agentic_dag.Domain.{skipped, in_progress, merged, state_eq, Graph, Node, DagSpec, NodeCommand}
use agentic_dag.Domain.NodeMethods.{is_skippable, needs_human_without_agent, is_needing_human}
use agentic_dag.World.{World}
use agentic_dag.GraphService.{node_ids, get_descendants}
use agentic_dag.Store.{
  M, Store, Failure, query, and_then, on_option, raised, unhandled, pure, run, ◌>>=◌, ◌>>◌,
  read_node, update_state, update_where, get_nodes_by_ids, record_move, set_nodes, save_audit_entry,
  publish,
}
use agentic_dag.Store.Nodes.{read-update_state, read_node-id}
use agentic_dag.Store.Moves.{Moves, bind-Leads, if-Moves, pure-Moves, then-Moves}
use agentic_dag.Labels
use agentic_dag.Services.Schedule.{keep_scheduled}
use agentic_dag.Services.Schedule.Keeping.{KeepsNodes, KeepsNodes-Frame, keep_scheduled-nodes}
use agentic_dag.Services.Release.{is_released, stopped_dependents, release}
use agentic_dag.Services.Release.Effects.{release-read}
use agentic_dag.Services.Commands.{
  skip, skip_node, skip_refusal, record_skipped, is_nil, node_event_at,
}

abbrev pub skipped_row : Node → ℕ → Node
skipped_row row now = record row { state = skipped; updated_at = now; resume_at = none }

abbrev skipped_at : String → ℕ → Node → Node
skipped_at id at node = if node.id == id then skipped_row node at else node

is_released-skipped :
    (graph : Graph) (store : Store) (row : Node)
    → row.state ≡ skipped
    → is_released graph store row ≡ false
unfolding is_released needs_human_without_agent is_needing_human
is_released-skipped graph store row gone = rw gone refl

-- One more row that fails the test, or is of another id.
mem-kept :
    (p q : Node → Bool) (row : Node) (rows : List Node) (id : String)
    → (p row ≡ false) ⊎ ((row.id == id) ≡ false)
    → mem (map (λ (node : Node). node.id) (keep p (keep q rows))) id ≡ false
    → mem (map (λ (node : Node). node.id) (keep p (keep q (row ∷ rows)))) id ≡ false
unfolding keep mem
mem-kept p q row rows id (inl fails) rest = elim (Bool-cases (q row)) [
  | inl taken ↦ rw (taken, fails) rest
  | inr dropped ↦ rw dropped rest
]
mem-kept p q row rows id (inr other) rest = elim (Bool-cases (q row)) [
  | inl taken ↦ elim (Bool-cases (p row)) [
    | inl passes ↦ rw (taken, passes, other) rest
    | inr fails ↦ rw (taken, fails) rest
  ]
  | inr dropped ↦ rw dropped rest
]

-- No row of a node that has just been skipped is released.
skipped-stays :
    (graph : Graph) (store : Store) (ids : List String) (id : String) (at : ℕ) (nodes : List Node)
    → mem
        (map
          (λ (node : Node). node.id)
          (keep
            (is_released graph store)
            (get_nodes_by_ids ids (update_state id skipped at none nodes))))
        id
      ≡ false
unfolding get_nodes_by_ids update_state update_where mem keep
skipped-stays graph store ids id at [] = refl
skipped-stays graph store ids id at (node ∷ nodes) =
    mem-kept (is_released graph store) (λ row. mem ids row.id) (skipped_at id at node) _ id
      (elim (Bool-cases (node.id == id)) [
        | inl here ↦ inl (rw here (is_released-skipped graph store (skipped_row node at) refl))
        | inr other ↦ inr (rw other other)
      ])
      (skipped-stays graph store ids id at nodes)

module _ (id : String) (row : Node) (now : ℕ) where
  abbrev IsSkipped : Store → Type 0
  IsSkipped store = read_node id store.nodes ≡ some (skipped_row row now)

  recorded-IsSkipped :
      (store after : Store)
      → read_node id store.nodes ≡ some row
      → after.nodes ≡ update_state id skipped now none store.nodes
      → IsSkipped after
  recorded-IsSkipped store after found same =
      rw (same, read-update_state id id skipped now none store.nodes, found, same_refl id) refl

  stays :
      (graph : Graph) (store after : Store)
      → after.nodes ≡ update_state id skipped now none store.nodes
      → mem (map (λ (node : Node). node.id) (stopped_dependents graph id after)) id ≡ false
  unfolding stopped_dependents
  stays graph store after same =
      let ids = node_ids (get_descendants graph id) in
      ap
        (λ rows.
          mem
            (map (λ (node : Node). node.id)
              (keep (is_released graph after) (get_nodes_by_ids ids rows)))
            id)
        same
      ∙ skipped-stays graph after ids id now store.nodes

  release-IsSkipped :
      (graph : Graph) (store after : Store)
      → read_node id store.nodes ≡ some row
      → after.nodes ≡ update_state id skipped now none store.nodes
      → IsSkipped (release graph id now after).1
  release-IsSkipped graph store after found same =
      let (answer, effects, rows) = release-read graph id now after id in
      rows ∙ rw (recorded-IsSkipped store after found same, stays graph store after same) refl

  keeps-IsSkipped :
      {A : Type 0} (m : M A)
      → Moves KeepsNodes m
      → (store : Store) → IsSkipped store
      → IsSkipped (m store).1
  keeps-IsSkipped m keeps store gone = ap (read_node id) (keeps store) ∙ gone

record_skipped-nodes :
    (row : Node) (now : ℕ) (store : Store)
    → (record_skipped row now store).1.nodes ≡ update_state row.id skipped now none store.nodes
unfolding record_skipped run record_move set_nodes save_audit_entry publish node_event_at
record_skipped-nodes row now store = refl

-- A node that is skipped stays so, whatever becomes of the run's schedule.
skip_node-IsSkipped :
    (world : World) (spec : DagSpec) (graph : Graph) (command : NodeCommand) (now : ℕ) (row : Node)
    (store : Store)
    → read_node row.id store.nodes ≡ some row
    → IsSkipped row.id row now (skip_node world spec graph command now row store).1
unfolding skip_node ◌>>◌
skip_node-IsSkipped world spec graph command now row store found =
    bind-Leads (λ after. after.nodes ≡ update_state row.id skipped now none store.nodes) Gone
      (record_skipped row now) _ store (record_skipped-nodes row now store)
      (λ after same. recorded-IsSkipped row.id row now store after found same)
      λ done after same.
        bind-Leads Gone Gone (release graph row.id now) _ after
          (release-IsSkipped row.id row now graph store after found same) (λ at gone. gone)
          λ ids.
            keeps-IsSkipped row.id row now
              (if row.state == skipped && is_nil ids
                then pure []
                else keep_scheduled world spec command.dag_path >> pure ids)
              (if-Moves KeepsNodes (row.state == skipped && is_nil ids) (pure [])
                (keep_scheduled world spec command.dag_path >> pure ids) (pure-Moves KeepsNodes [])
                (then-Moves KeepsNodes (keep_scheduled world spec command.dag_path) (pure ids)
                  (keep_scheduled-nodes world spec command.dag_path) (pure-Moves KeepsNodes ids)))
  where
    Gone : Store → Type 0
    Gone = IsSkipped row.id row now

-- A node with a row that is neither at work nor merged ends skipped and waiting for no time, also where
-- the skip raises since the run's schedule cannot be kept, and where the release of its dependents
-- comes back to it.
pub skip-IsSkipped :
    (world : World) (spec : DagSpec) (graph : Graph) (command : NodeCommand) (now : ℕ)
    (store : Store) (row : Node)
    → read_node command.node_id store.nodes ≡ some row
    → is_skippable row ≡ true
    → read_node command.node_id (skip world spec graph command now store).1.nodes
      ≡ some (skipped_row row now)
unfolding skip query ◌>>=◌ and_then on_option
skip-IsSkipped world spec graph command now store row found skippable =
    let same = read_node-id command.node_id store.nodes row found in
    rw (found, skippable)
      (subst
        (λ id.
          read_node id store.nodes ≡ some row
          → read_node id (skip_node world spec graph command now row store).1.nodes
            ≡ some (skipped_row row now))
        same (skip_node-IsSkipped world spec graph command now row store) found)

-- What a skip is refused for: no row, or one at work or merged.
abbrev pub CannotSkip : Option Node → Type 0
CannotSkip none = Unit
CannotSkip (some row) = (row.state ≡ in_progress) ⊎ (row.state ≡ merged)

abbrev pub CanSkip : Option Node → Type 0
CanSkip none = ⊥
CanSkip (some row) = (row.state ≢ in_progress) × (row.state ≢ merged)

is_skippable-cases :
    (row : Node)
    → (CannotSkip (some row) × (is_skippable row ≡ false))
      ⊎ (CanSkip (some row) × (is_skippable row ≡ true))
unfolding is_skippable mem
is_skippable-cases row = ground arith

-- A skip either raises and leaves the database and everything outside as they were, and then the
-- node has no row, or is at work or merged; or the node has a row in any other state, and that row
-- ends skipped.
pub skip-outcome :
    (world : World) (spec : DagSpec) (graph : Graph) (command : NodeCommand) (now : ℕ)
    (store : Store)
    → let found = read_node command.node_id store.nodes in
      let outcome = skip world spec graph command now store in
      (CannotSkip found × ((failure : Failure) × (outcome ≡ (raised failure, store))))
      ⊎ (CanSkip found
          × ((row : Node) × (found ≡ some row)
              × (read_node command.node_id outcome.1.nodes ≡ some (skipped_row row now))))
unfolding skip run
skip-outcome world spec graph command now store =
    elim (Option-cases (read_node command.node_id store.nodes)) [
      | inl missing ↦
          rw missing (inl (tt, (unhandled (Labels.node_not_in_run command.node_id), refl)))
      | inr (row, found) ↦ elim (is_skippable-cases row) [
        | inl (busy, unskippable) ↦
            rw (found, unskippable) (inl (busy, (unhandled (skip_refusal row), refl)))
        | inr (may, skippable) ↦
            let gone = skip-IsSkipped world spec graph command now store row found skippable in
            inr (subst CanSkip (sym found) may, (row, found, gone))
      ]
    ]
