-- ===== src/Recovery/Choice.antt =====
-- What a scan answers with, and which rows it moves.
use agentic_dag.Prelude.{
  ℕ, ◌≡◌, refl, ap, ◌∙◌, Bool, true, false, ◌&&◌, List, [], ◌∷◌, Option, none, some, ◌==◌,
  string_eq, keep, arith, inl, inr, Bool-cases,
}
use agentic_dag.Domain.{resting, state_eq, Node, NodeAgent, AgentSession, DagSpec, is_some}
use agentic_dag.Labels
use agentic_dag.Store.Recovery.{count_by_node_id}
use agentic_dag.Services.Commands.{latest_session}
use agentic_dag.Domain.NodeMethods.{is_needing_human}
use agentic_dag.World.{World}
use agentic_dag.Store.{Store, ok, run, set_nodes, save_audit_entry, get_by_node_id}
use agentic_dag.Recovery.Nodes.{can_recover, is_out_of_attempts, get_pr_number}
use agentic_dag.Recovery.Scan.{
  is_node_due, is_session_due, is_recorded, record_out_of_attempts, record_observed_out_of_attempts,
  scan_node, scan_nodes, get_stopped_nodes, get_recoverable_nodes,
}

-- Whether a recovery agent should examine a node: it can recover, and it is due.
unfoldable pub is_examined : World → DagSpec → ℕ → Store → Node → Bool
is_examined world spec now store node =
    let agent = get_by_node_id node.id store.agents in
    can_recover world node agent && is_node_due spec now node agent store

-- The tables that a scan reads and does not write.
abbrev pub IsUnread : Store → Store → Type 0
IsUnread store after =
    (after.agents ≡ store.agents)
    × (after.recoveries ≡ store.recoveries)
    × (after.recovery_sessions ≡ store.recovery_sessions)
    × (after.effects ≡ store.effects)

IsUnread-trans :
    (store after last : Store) → IsUnread store after → IsUnread after last → IsUnread store last
IsUnread-trans store after last (a, b, c, d) (e, f, g, h) = (e ∙ a, f ∙ b, g ∙ c, h ∙ d)

pub record_out_of_attempts-IsUnread :
    (node : Node) (agent : Option NodeAgent) (now : ℕ) (store : Store)
    → ((record_out_of_attempts node agent now store).0 ≡ ok tt)
      × IsUnread store (record_out_of_attempts node agent now store).1
unfolding record_out_of_attempts record_observed_out_of_attempts run set_nodes save_audit_entry
record_out_of_attempts-IsUnread node agent now store = elim (Bool-cases (is_needing_human node)) [
  | inl waits ↦ rw waits (refl, (refl, refl, refl, refl))
  | inr acts ↦ elim (Bool-cases (node.state == resting && is_some (get_pr_number agent))) [
    | inr moves ↦ rw (acts, moves) (refl, (refl, refl, refl, refl))
    | inl observes ↦
        elim (Bool-cases (
          is_recorded node.id
            (Labels.out_of_attempts_observing (count_by_node_id node.id store.recoveries))
            store.audit_entries)) [
              | inl recorded ↦ rw (acts, observes, recorded) (refl, (refl, refl, refl, refl))
              | inr fresh ↦ rw (acts, observes, fresh) (refl, (refl, refl, refl, refl))
            ]
  ]
]

out_of_attempts-recovers :
    (world : World) (node : Node) (agent : Option NodeAgent)
    → is_out_of_attempts world node agent ≡ true
    → can_recover world node agent ≡ false
unfolding is_out_of_attempts can_recover
out_of_attempts-recovers world node agent out = ground arith

pub scan_node-result :
    (world : World) (spec : DagSpec) (now : ℕ) (node : Node) (store : Store)
    → ((scan_node world spec now node store).0 ≡ ok (is_examined world spec now store node))
      × IsUnread store (scan_node world spec now node store).1
unfolding scan_node run is_examined
scan_node-result world spec now node store =
    let agent = get_by_node_id node.id store.agents in
    elim (Bool-cases (is_out_of_attempts world node agent)) [
      | inl out ↦
          let (done, unread) = record_out_of_attempts-IsUnread node agent now store in
          rw (out, done, out_of_attempts-recovers world node agent out) (refl, unread)
      | inr may ↦ elim (Bool-cases (can_recover world node agent)) [
        | inl recovers ↦ rw (may, recovers) (refl, (refl, refl, refl, refl))
        | inr rests ↦ rw (may, rests) (refl, (refl, refl, refl, refl))
      ]
    ]

is_session_due-unread :
    (spec : DagSpec) (now : ℕ) (node : Node) (session : Option AgentSession) (store after : Store)
    → after.recoveries ≡ store.recoveries
    → after.recovery_sessions ≡ store.recovery_sessions
    → is_session_due spec now node session after ≡ is_session_due spec now node session store
unfolding is_session_due
is_session_due-unread spec now node none store after recoveries sessions = refl
is_session_due-unread spec now node (some latest) store after recoveries sessions =
    rw (recoveries, sessions) refl

is_examined-unread :
    (world : World) (spec : DagSpec) (now : ℕ) (store after : Store) (node : Node)
    → IsUnread store after
    → is_examined world spec now after node ≡ is_examined world spec now store node
unfolding is_examined is_node_due
is_examined-unread world spec now store after node (agents, recoveries, sessions, _) =
    ap
      (λ rows.
        can_recover world node (get_by_node_id node.id rows)
        && is_session_due spec now node (latest_session (get_by_node_id node.id rows)) after)
      agents
    ∙ ap (λ due. can_recover world node (get_by_node_id node.id store.agents) && due)
        (is_session_due-unread spec now node (latest_session (get_by_node_id node.id store.agents))
          store after recoveries sessions)

examined-unread :
    (world : World) (spec : DagSpec) (now : ℕ) (store after : Store) (nodes : List Node)
    → IsUnread store after
    → keep (is_examined world spec now after) nodes ≡ keep (is_examined world spec now store) nodes
unfolding keep
examined-unread world spec now store after [] same = refl
examined-unread world spec now store after (node ∷ nodes) same =
    rw
      (
        is_examined-unread world spec now store after node same,
        examined-unread world spec now store after nodes same,
      )
      refl

pub scan_nodes-result :
    (world : World) (spec : DagSpec) (now : ℕ) (nodes : List Node) (store : Store)
    → ((scan_nodes world spec now nodes store).0
        ≡ ok (keep (is_examined world spec now store) nodes))
      × IsUnread store (scan_nodes world spec now nodes store).1
unfolding scan_nodes run keep
scan_nodes-result world spec now [] store = (refl, (refl, refl, refl, refl))
scan_nodes-result world spec now (node ∷ nodes) store =
    let after = (scan_node world spec now node store).1 in
    let (first, unread) = scan_node-result world spec now node store in
    let (others, kept) = scan_nodes-result world spec now nodes after in
    rw (first, others, examined-unread world spec now store after nodes unread)
      (refl, IsUnread-trans store after (scan_nodes world spec now nodes after).1 unread kept)

-- A scan answers with the failed nodes that can recover and are due, in the order of their states,
-- and never raises. It writes no agent, no recovery and no recovery session, and asks nothing of an
-- agent.
pub get_recoverable_nodes-result :
    (world : World) (spec : DagSpec) (now : ℕ) (store : Store)
    → ((get_recoverable_nodes world spec now store).0
        ≡ ok (keep (is_examined world spec now store) (get_stopped_nodes store)))
      × IsUnread store (get_recoverable_nodes world spec now store).1
unfolding get_recoverable_nodes run
get_recoverable_nodes-result world spec now store =
    scan_nodes-result world spec now (get_stopped_nodes store) store
