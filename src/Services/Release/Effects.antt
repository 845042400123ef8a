-- ===== src/Services/Release/Effects.antt =====
-- What a release does to the rows, and whom it takes.
use agentic_dag.Prelude.{
  ℕ, ◌≡◌, refl, String, Bool, true, List, [], ◌∷◌, map, none, some, string_eq, mem, keep, any, ◌==◌,
  ◌&&◌, if◌then◌else◌, arith, inl, inr, Bool-cases, Option-cases, same_cases, subst,
}
use agentic_dag.Domain.{pending, needs_human, state_eq, Graph, Node}
use agentic_dag.Domain.NodeMethods.{needs_human_without_agent, is_needing_human}
use agentic_dag.GraphService.{node_ids, get_descendants}
use agentic_dag.GraphService.Descendants.{Descends, get_descendants_iff}
use agentic_dag.Store.{
  Store, ok, read_node, get_nodes_by_ids, get_by_node_id, record_move, run, set_nodes,
  save_audit_entry, publish,
}
use agentic_dag.Store.Nodes.{read-update_state}
use agentic_dag.Labels
use agentic_dag.Services.Release.{
  is_released, stopped_dependents, retried_event, record_released, release, latest_note,
  is_upstream_stop,
}

abbrev pub released_row : Node → ℕ → Node
released_row row now = record row { state = pending; updated_at = now; resume_at = none }

record_released-read :
    (nodes : List Node) (now : ℕ) (store : Store) (id : String)
    → read_node id (record_released nodes now store).1.nodes ≡ elim (read_node id store.nodes) [
      | none ↦ none
      | some row ↦
          some (if mem (map (λ (node : Node). node.id) nodes) id then released_row row now else row)
    ]
unfolding record_released run record_move set_nodes save_audit_entry publish retried_event mem
record_released-read [] now store id = ground arith
record_released-read (node ∷ nodes) now store id =
    rw
      (
        record_released-read nodes now
            (record_move (retried_event node now) pending Labels.upstream_skipped store) id,
        read-update_state node.id id pending now none store.nodes,
      )
      (elim (Option-cases (read_node id store.nodes)) [
        | inl missing ↦ rw missing refl
        | inr (row, found) ↦ rw found (ground arith)
      ])

record_released-ok :
    (nodes : List Node) (now : ℕ) (store : Store)
    → ((record_released nodes now store).0 ≡ ok tt)
      × ((record_released nodes now store).1.agents ≡ store.agents)
      × ((record_released nodes now store).1.effects ≡ store.effects)
unfolding record_released run record_move set_nodes save_audit_entry publish
record_released-ok [] now store = (refl, refl, refl)
record_released-ok (node ∷ nodes) now store = record_released-ok nodes now _

keep-test :
    (test : Node → Bool) (nodes : List Node) (id : String)
    → mem (map (λ (node : Node). node.id) (keep test nodes)) id ≡ true
    → (node : Node) × (test node ≡ true)
      × (node.id ≡ id)
      × (mem (map (λ (node : Node). node.id) nodes) id ≡ true)
unfolding keep mem
keep-test test [] id h = cc
keep-test test (node ∷ nodes) id h = elim (Bool-cases (test node)) [
  | inr failing ↦
      let (found, passes, same, m) = keep-test test nodes id (ground arith) in
      (found, passes, same, ground arith)
  | inl passing ↦ elim (same_cases node.id id) [
    | inl (t, same) ↦ (node, passing, same, ground arith)
    | inr (f, differs) ↦
        let (found, passes, same, m) = keep-test test nodes id (ground arith) in
        (found, passes, same, ground arith)
  ]
]

is_released-waits :
    (graph : Graph) (store : Store) (node : Node)
    → is_released graph store node ≡ true
    → (node.state == needs_human) ≡ true
unfolding is_released needs_human_without_agent is_needing_human
is_released-waits graph store node h = ground arith

-- Of two selections, the second made first, the rows of the first pass its test.
mem-keep :
    (p q : Node → Bool) (nodes : List Node) (id : String)
    → mem (map (λ (node : Node). node.id) (keep p (keep q nodes))) id ≡ true
    → any (λ (node : Node). node.id == id && p node) nodes ≡ true
unfolding keep mem any
mem-keep p q [] id h = cc
mem-keep p q (node ∷ nodes) id h = elim (Bool-cases (q node)) [
  | inr dropped ↦ ground (arith, mem-keep p q nodes id)
  | inl taken ↦ elim (Bool-cases (p node)) [
    | inr fails ↦ ground (arith, mem-keep p q nodes id)
    | inl passes ↦ elim (Bool-cases (node.id == id)) [
      | inl here ↦ rw (here, passes) refl
      | inr other ↦ ground (arith, mem-keep p q nodes id)
    ]
  ]
]

released-waits :
    (graph : Graph) (store : Store) (id : String) (nodes : List Node)
    → any (λ (node : Node). node.id == id && is_released graph store node) nodes ≡ true
    → any (λ (node : Node). node.id == id && node.state == needs_human) nodes ≡ true
unfolding any
released-waits graph store id [] h = cc
released-waits graph store id (node ∷ nodes) h =
    elim (Bool-cases (node.id == id && is_released graph store node)) [
      | inl both ↦ ground (arith, is_released-waits graph store node)
      | inr neither ↦ ground (arith, released-waits graph store id nodes)
    ]

is_released-parts :
    (graph : Graph) (store : Store) (node : Node)
    → is_released graph store node ≡ true
    → (get_by_node_id node.id store.agents ≡ none)
      × (is_upstream_stop graph (latest_note store.audit_entries node.id) ≡ true)
unfolding is_released needs_human_without_agent
is_released-parts graph store node h = elim (Option-cases (get_by_node_id node.id store.agents)) [
  | inl absent ↦ ground arith
  | inr (agent, present) ↦ ground arith
]

module _ (graph : Graph) (node_id : String) (now : ℕ) (store : Store) where
  -- A release answers with the ids of the rows that it takes, and asks nothing of an agent. Each
  -- row of such an id is pending after it, and waits for no time; every other row is as it was.
  pub release-read :
      (id : String)
      → let ids = map (λ (node : Node). node.id) (stopped_dependents graph node_id store) in
        let outcome = release graph node_id now store in
        (outcome.0 ≡ ok ids)
        × (outcome.1.effects ≡ store.effects)
        × (read_node id outcome.1.nodes ≡ elim (read_node id store.nodes) [
          | none ↦ none
          | some row ↦ some (if mem ids id then released_row row now else row)
        ])
  unfolding release run
  release-read id =
      let nodes = stopped_dependents graph node_id store in
      let (done, agents, effects) = record_released-ok nodes now store in
      rw done (refl, effects, record_released-read nodes now store id)

  -- Who is released depends on the node, directly or through others, has a row that needs a human,
  -- has no agent, and was last noted as stopped by some node of the graph.
  pub stopped_dependents-Descends :
      (id : String)
      → mem (map (λ (node : Node). node.id) (stopped_dependents graph node_id store)) id ≡ true
      → Descends graph node_id id
        × (any (λ (row : Node). row.id == id && row.state == needs_human) store.nodes ≡ true)
        × (get_by_node_id id store.agents ≡ none)
        × (is_upstream_stop graph (latest_note store.audit_entries id) ≡ true)
  unfolding stopped_dependents get_nodes_by_ids
  stopped_dependents-Descends id h =
      let descendants = node_ids (get_descendants graph node_id) in
      let rows = get_nodes_by_ids descendants store.nodes in
      let (node, passes, same, m) = keep-test (is_released graph store) rows id h in
      let (row, descends, same', _) = keep-test (λ row. mem descendants row.id) store.nodes id m in
      let (absent, noted) = is_released-parts graph store node passes in
      (
        (get_descendants_iff graph node_id id).0
            (subst (λ other. mem descendants other ≡ true) same' descends),
        released-waits graph store id store.nodes
            (mem-keep (is_released graph store) (λ row. mem descendants row.id) store.nodes id h),
        subst (λ other. get_by_node_id other store.agents ≡ none) same absent,
        subst (λ other. is_upstream_stop graph (latest_note store.audit_entries other) ≡ true) same
            noted,
      )
