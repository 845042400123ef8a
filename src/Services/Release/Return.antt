-- ===== src/Services/Release/Return.antt =====
-- services/run/dependent_release_service.py undoes what services/node_state_handlers/
-- pending_node_handler.py did when a dependency had stopped.
use agentic_dag.Prelude.{
  ℕ, ◌≡◌, refl, ap, sym, ◌∙◌, subst, String, Bool, true, List, [], ◌∷◌, ◌++◌, map, none, some, ◌==◌,
  string_eq, mem, keep, arith, inl, inr, Bool-cases,
}
use text.Mathlib.TextEquality.{eq_iff}
use agentic_dag.Domain.{
  pending, needs_human, state_eq, Graph, GraphNode, Node, DagSpec, AuditEntry, is_stopped,
}
use agentic_dag.Domain.NodeMethods.{needs_human_without_agent, is_needing_human}
use agentic_dag.GraphService.{node_ids, get_descendants}
use agentic_dag.GraphService.Descendants.{Descends, get_descendants_iff}
use agentic_dag.World.{World}
use agentic_dag.Store.{
  Store, read_node, find_row, get_nodes_by_ids, get_by_node_id, run, record_move, set_nodes,
  save_audit_entry, publish,
}
use agentic_dag.Store.Nodes.{read-first, read_node-id}
use agentic_dag.Labels
use agentic_dag.Handlers.Pending.{advance, dependency_rows, stop_node}
use agentic_dag.Handlers.Pending.Admission.{advance-upstream_stopped}
use agentic_dag.Services.Release.{
  is_released, stopped_dependents, release, latest_note, is_upstream_stop,
}
use agentic_dag.Services.Release.Effects.{released_row, release-read}

latest_note-append :
    (entries : List AuditEntry) (entry : AuditEntry)
    → latest_note (entries ++ entry ∷ []) entry.node_id ≡ some entry.note
unfolding latest_note
latest_note-append [] entry = ground (arith, eq_iff entry.node_id entry.node_id)
latest_note-append (first ∷ entries) entry = rw (latest_note-append entries entry) refl

-- A row that a query reads by id is in every selection whose test it passes.
keep-read :
    (test : Node → Bool) (nodes : List Node) (id : String) (row : Node)
    → read_node id nodes ≡ some row
    → test row ≡ true
    → (mem (map (λ (node : Node). node.id) (keep test nodes)) id ≡ true)
      × (read_node id (keep test nodes) ≡ some row)
unfolding read_node find_row keep mem
keep-read test [] id row found passes = cc
keep-read test (node ∷ nodes) id row found passes = elim (Bool-cases (node.id == id)) [
  | inl here ↦ elim (Bool-cases (test node)) [
    | inl t ↦ rw t (
      rw here refl,
      read-first node (keep test nodes) id here ∙ (sym (read-first node nodes id here) ∙ found),
    )
    | inr f ↦ let same = sym (read-first node nodes id here) ∙ found in cc
  ]
  | inr elsewhere ↦ ground (arith, keep-read test nodes id row)
]

upstream-mem :
    (nodes : List GraphNode) (id : String)
    → mem (node_ids nodes) id ≡ true
    → mem
        (map (λ (graph_node : GraphNode). Labels.upstream_stopped graph_node.id) nodes)
        (Labels.upstream_stopped id)
      ≡ true
unfolding mem
upstream-mem [] id m = cc
upstream-mem (node ∷ nodes) id m = ground (
  arith,
  upstream-mem nodes id,
  eq_iff node.id id,
  eq_iff (Labels.upstream_stopped node.id) (Labels.upstream_stopped id),
)

-- A release takes every dependent that waits for a human without an agent and was last noted as
-- stopped by a node of the graph.
release-takes :
    (graph : Graph) (by id : String) (later : ℕ) (store : Store) (node : Node)
    → read_node id store.nodes ≡ some node
    → is_released graph store node ≡ true
    → Descends graph by id
    → read_node id (release graph by later store).1.nodes ≡ some (released_row node later)
unfolding stopped_dependents get_nodes_by_ids
release-takes graph by id later store node found passes descends =
    let descendants = node_ids (get_descendants graph by) in
    let known =
      subst (λ other. mem descendants other ≡ true) (sym (read_node-id id store.nodes node found))
        ((get_descendants_iff graph by id).1 descends) in
    let (_, found') = keep-read (λ row. mem descendants row.id) store.nodes id node found known in
    let (taken, _) =
      keep-read (is_released graph store) (get_nodes_by_ids descendants store.nodes) id node found'
        passes in
    let (_, _, reads) = release-read graph by later store id in rw (reads, found, taken) refl

upstream_note :
    (graph : Graph) (id : String)
    → mem (node_ids graph.nodes) id ≡ true
    → is_upstream_stop graph (some (Labels.upstream_stopped id)) ≡ true
unfolding is_upstream_stop
upstream_note graph id known = upstream-mem graph.nodes id known

is_released-of :
    (graph : Graph) (store : Store) (node : Node)
    → is_needing_human node ≡ true
    → get_by_node_id node.id store.agents ≡ none
    → is_upstream_stop graph (latest_note store.audit_entries node.id) ≡ true
    → is_released graph store node ≡ true
unfolding is_released needs_human_without_agent
is_released-of graph store node waits absent noted = rw (waits, absent, noted) refl

module _ (world : World) (spec : DagSpec) (graph : Graph) (graph_node : GraphNode) (now : ℕ) where
  stops-agents :
      (store : Store) (row : Node)
      → find_row (λ (row : Node). is_stopped row.state) (dependency_rows graph graph_node store)
        ≡ some row
      → (advance world spec graph now graph_node store).1.agents ≡ store.agents
  unfolding advance run stop_node record_move set_nodes save_audit_entry publish
  stops-agents store row stops = rw stops refl

  -- Where a pass over a pending node without an agent stopped it, because a node of the graph that
  -- it depends on had stopped, the release of that dependency puts the row back to pending, with
  -- nothing else changed but the time of the update and the time that it waits for, which is none,
  -- and asks nothing of an agent.
  pub advance-release :
      (later : ℕ) (store : Store) (row node : Node)
      → find_row (λ (row : Node). is_stopped row.state) (dependency_rows graph graph_node store)
        ≡ some row
      → read_node graph_node.id store.nodes ≡ some node
      → get_by_node_id graph_node.id store.agents ≡ none
      → mem (node_ids graph.nodes) row.id ≡ true
      → Descends graph row.id graph_node.id
      → let stopped = (advance world spec graph now graph_node store).1 in
        let after = (release graph row.id later stopped).1 in
        (read_node graph_node.id after.nodes
          ≡ some (record node { state = pending; updated_at = later; resume_at = none }))
        × (after.effects ≡ store.effects)
  unfolding is_needing_human
  advance-release later store row node stops found absent known descends =
      let (moved, noted, quiet) =
        advance-upstream_stopped world spec graph graph_node now store row node stops found in
      let stopped = (advance world spec graph now graph_node store).1 in
      let named = read_node-id graph_node.id store.nodes node found in
      let without_agent : get_by_node_id node.id stopped.agents ≡ none =
        subst (λ id. get_by_node_id id stopped.agents ≡ none) (sym named)
          (ap (get_by_node_id graph_node.id) (stops-agents store row stops) ∙ absent) in
      let marked : is_upstream_stop graph (latest_note stopped.audit_entries node.id) ≡ true =
        subst (λ id. is_upstream_stop graph (latest_note stopped.audit_entries id) ≡ true)
          (sym named)
          (ap (λ entries. is_upstream_stop graph (latest_note entries graph_node.id)) noted
            ∙ (ap (is_upstream_stop graph) (latest_note-append store.audit_entries _)
                ∙ upstream_note graph row.id known)) in
      let (_, released-effects, _) = release-read graph row.id later stopped graph_node.id in
      (
        release-takes graph row.id graph_node.id later stopped
            (record node { state = needs_human; updated_at = now; resume_at = none }) moved
            (is_released-of graph stopped _ refl without_agent marked) descends,
        released-effects ∙ quiet,
      )
