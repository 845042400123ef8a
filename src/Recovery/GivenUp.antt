-- ===== src/Recovery/GivenUp.antt =====
-- Which rows a scan moves.
use agentic_dag.Prelude.{
  ℕ, ◌≡◌, refl, ap, ◌∙◌, String, Bool, true, not, ◌&&◌, List, [], ◌∷◌, Option, none, some, ◌==◌,
  string_eq, any, if◌then◌else◌, arith, inl, inr, Bool-cases, Option-cases,
}
use agentic_dag.Domain.{needs_human, resting, state_eq, Node, DagSpec, is_some}
use agentic_dag.Domain.NodeMethods.{is_needing_human}
use agentic_dag.Labels
use agentic_dag.World.{World}
use agentic_dag.Store.{
  Store, run, read_node, set_nodes, save_audit_entry, get_by_node_id, update_state,
}
use agentic_dag.Store.Nodes.{read-update_state}
use agentic_dag.Store.Recovery.{count_by_node_id}
use agentic_dag.Recovery.Nodes.{can_recover, is_out_of_attempts, get_pr_number}
use agentic_dag.Recovery.Scan.{
  is_recorded, record_out_of_attempts, record_observed_out_of_attempts, scan_node, scan_nodes,
  get_stopped_nodes, get_recoverable_nodes,
}
use agentic_dag.Recovery.Choice.{
  IsUnread, scan_node-result, scan_nodes-result, record_out_of_attempts-IsUnread,
}

-- Whether a scan hands a node to a human, for want of attempts: it failed without an attempt left,
-- no process of its is alive, and it neither waits for a human already nor rests on a pull request.
unfoldable pub is_given_up : World → Store → Node → Bool
is_given_up world store node =
    let agent = get_by_node_id node.id store.agents in
    is_out_of_attempts world node agent
    && (not (is_needing_human node) && not (node.state == resting && is_some (get_pr_number agent)))

abbrev pub given_up_row : Node → ℕ → Node
given_up_row row now = record row { state = needs_human; updated_at = now; resume_at = none }

module _ (world : World) (now : ℕ) where
  record_out_of_attempts-nodes :
      (node : Node) (store : Store)
      → is_out_of_attempts world node (get_by_node_id node.id store.agents) ≡ true
      → (record_out_of_attempts node (get_by_node_id node.id store.agents) now store).1.nodes ≡ (
          if is_given_up world store node
          then update_state node.id needs_human now none store.nodes
          else store.nodes)
  unfolding record_out_of_attempts record_observed_out_of_attempts run set_nodes save_audit_entry
      is_given_up
  record_out_of_attempts-nodes node store out =
      let agent = get_by_node_id node.id store.agents in
      elim (Bool-cases (is_needing_human node)) [
        | inl waits ↦ rw (out, waits) refl
        | inr acts ↦ elim (Bool-cases (node.state == resting && is_some (get_pr_number agent))) [
          | inr moves ↦ rw (out, acts, moves) refl
          | inl observes ↦
              elim (Bool-cases (
                is_recorded node.id
                  (Labels.out_of_attempts_observing (count_by_node_id node.id store.recoveries))
                  store.audit_entries)) [
                    | inl recorded ↦ rw (out, acts, observes, recorded) refl
                    | inr fresh ↦ rw (out, acts, observes, fresh) refl
                  ]
        ]
      ]

  pub scan_node-nodes :
      (spec : DagSpec) (node : Node) (store : Store)
      → (scan_node world spec now node store).1.nodes ≡ (
          if is_given_up world store node
          then update_state node.id needs_human now none store.nodes
          else store.nodes)
  unfolding scan_node run is_given_up
  scan_node-nodes spec node store =
      let agent = get_by_node_id node.id store.agents in
      elim (Bool-cases (is_out_of_attempts world node agent)) [
        | inl out ↦
            let (done, unread) = record_out_of_attempts-IsUnread node agent now store in
            rw (out, done) (record_out_of_attempts-nodes node store out ∙ rw out refl)
        | inr may ↦ elim (Bool-cases (can_recover world node agent)) [
          | inl recovers ↦ rw (may, recovers) refl
          | inr rests ↦ rw (may, rests) refl
        ]
      ]

  is_given_up-unread :
      (node : Node) (store after : Store)
      → IsUnread store after
      → is_given_up world after node ≡ is_given_up world store node
  unfolding is_given_up
  is_given_up-unread node store after (agents, _, _, _) =
      ap
        (λ rows.
          let agent = get_by_node_id node.id rows in
          is_out_of_attempts world node agent
          && (not (is_needing_human node)
              && not (node.state == resting && is_some (get_pr_number agent))))
        agents

  -- Whether the scan of these nodes gives up the one of this id.
  abbrev gives_up : Store → List Node → String → Bool
  gives_up store nodes id = any (λ node. is_given_up world store node && node.id == id) nodes

  gives_up-unread :
      (nodes : List Node) (store after : Store) (id : String)
      → IsUnread store after
      → gives_up after nodes id ≡ gives_up store nodes id
  unfolding any
  gives_up-unread [] store after id same = refl
  gives_up-unread (node ∷ nodes) store after id same =
      rw (is_given_up-unread node store after same, gives_up-unread nodes store after id same) refl

  abbrev scanned : Store → List Node → String → Option Node → Option Node
  scanned store nodes id none = none
  scanned store nodes id (some row) =
      some (if gives_up store nodes id then given_up_row row now else row)

  scanned-unread :
      (nodes : List Node) (store after : Store) (id : String)
      → IsUnread store after
      → (found : Option Node) → scanned after nodes id found ≡ scanned store nodes id found
  scanned-unread nodes store after id same none = refl
  scanned-unread nodes store after id same (some row) =
      rw (gives_up-unread nodes store after id same) refl

  scanned-cons :
      (node : Node) (nodes : List Node) (store : Store) (id : String)
      → scanned store nodes id (
          read_node id (
            if is_given_up world store node
            then update_state node.id needs_human now none store.nodes
            else store.nodes))
        ≡ scanned store (node ∷ nodes) id (read_node id store.nodes)
  unfolding any
  scanned-cons node nodes store id = elim (Bool-cases (is_given_up world store node)) [
    | inr keeps ↦ rw keeps (elim (Option-cases (read_node id store.nodes)) [
      | inl missing ↦ rw missing refl
      | inr (row, found) ↦ rw found (rw keeps refl)
    ])
    | inl moves ↦
        rw (moves, read-update_state node.id id needs_human now none store.nodes)
          (elim (Option-cases (read_node id store.nodes)) [
            | inl missing ↦ rw missing refl
            | inr (row, found) ↦ rw found (ground arith)
          ])
  ]

  scan_nodes-read :
      (spec : DagSpec) (nodes : List Node) (store : Store) (id : String)
      → read_node id (scan_nodes world spec now nodes store).1.nodes
        ≡ scanned store nodes id (read_node id store.nodes)
  unfolding scan_nodes run any
  scan_nodes-read spec [] store id = elim (Option-cases (read_node id store.nodes)) [
    | inl missing ↦ rw missing refl
    | inr (row, found) ↦ rw found refl
  ]
  scan_nodes-read spec (node ∷ nodes) store id =
      let after = (scan_node world spec now node store).1 in
      let (first, unread) = scan_node-result world spec now node store in
      let (others, kept) = scan_nodes-result world spec now nodes after in
      rw (first, others)
        (scan_nodes-read spec nodes after id
          ∙ (scanned-unread nodes store after id unread (read_node id after.nodes)
              ∙ (ap (λ rows. scanned store nodes id (read_node id rows))
                    (scan_node-nodes spec node store)
                  ∙ scanned-cons node nodes store id)))

  -- A scan moves exactly the stopped rows that failed, have no attempt left and have no session whose
  -- process is alive, and that neither wait for a human already nor rest on a pull request: they need
  -- a human after it, and every other row is as it was.
  pub get_recoverable_nodes-read :
      (spec : DagSpec) (store : Store) (id : String)
      → read_node id (get_recoverable_nodes world spec now store).1.nodes
        ≡ elim (read_node id store.nodes) [
          | none ↦ none
          | some row ↦ some (
              if any
                (λ node. is_given_up world store node && node.id == id)
                (get_stopped_nodes store)
              then given_up_row row now
              else row)
        ]
  unfolding get_recoverable_nodes run
  get_recoverable_nodes-read spec store id =
      scan_nodes-read spec (get_stopped_nodes store) store id
      ∙ elim (Option-cases (read_node id store.nodes)) [
        | inl missing ↦ rw missing refl
        | inr (row, found) ↦ rw found refl
      ]
