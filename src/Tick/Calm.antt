-- ===== src/Tick/Calm.antt =====
-- The recovery and the learning of a pass put no node to work.
use agentic_dag.Prelude.{
  ℕ, ◌≤◌, ◌≡◌, refl, String, List, [], ◌∷◌, none, string_eq, arith, inl, inr, Bool-cases, keep,
}
use agentic_dag.Domain.{needs_human, state_eq, Node, DagSpec, RecoverySession}
use agentic_dag.World.{World}
use agentic_dag.Store.{
  Store, perform, modify, update_where, update_state, save_audit_entry, record_learnings_extracted,
  get_nodes_by_state,
}
use agentic_dag.Store.Nodes.{AreUnique, update_where-AreUnique}
use agentic_dag.Store.Counting.{workers}
use agentic_dag.Store.Moves.{
  Moves, Frame, pure-Moves, query-Moves, bind-Moves, then-Moves, option-Moves,
}
use agentic_dag.Store.Recovery.{close_recovery_session, add_recovery_session}
use agentic_dag.Recovery.Scan.{scan_node, scan_nodes, get_recoverable_nodes}
use agentic_dag.Recovery.GivenUp.{is_given_up, scan_node-nodes}
use agentic_dag.Recovery.Dispatch.{close, start_session, start_batch}
use agentic_dag.Recovery.Dispatch as RecoveryDispatch
use agentic_dag.Recovery.Dispatch.Parts.{
  Allows, compose_prompt-Moves, record_notes-Moves, end_open_session-Moves, launch_recovery-Moves,
}
use agentic_dag.Tick.{recover_failed_nodes}

-- One row per node stays one row per node, and no more nodes are at work.
unfoldable pub Calm : Store → Store → Type 0
Calm store after =
    AreUnique store.nodes → AreUnique after.nodes × (workers after.nodes ≤ workers store.nodes)

pub same_rows : (store after : Store) → after.nodes ≡ store.nodes → Calm store after
unfolding Calm
same_rows store after same unique = rw same (unique, omega arith)

instance pub Calm-Frame : Frame Calm
unfolding Calm
Calm-Frame = record {
  reflexive = λ store unique. (unique, omega arith);
  transitive = λ a b c first second unique.
      let (one, less) = first unique in
      let (two, least) = second one in (two, omega (arith, less, least));
}

instance pub Calm-Allows : Allows Calm
unfolding perform modify save_audit_entry
Calm-Allows = record {
  performs = λ effect store. same_rows store _ refl;
  saves = λ entry store. same_rows store _ refl;
}

update_state-workers :
    (id : String) (now : ℕ) (nodes : List Node)
    → workers (update_state id needs_human now none nodes) ≤ workers nodes
unfolding update_state update_where get_nodes_by_state keep
update_state-workers id now [] = omega arith
update_state-workers id now (node ∷ nodes) = ground (arith, update_state-workers id now nodes)

pub learned-workers :
    (ids : List String) (now : ℕ) (nodes : List Node)
    → workers (record_learnings_extracted ids now nodes) ≡ workers nodes
unfolding record_learnings_extracted update_where get_nodes_by_state keep
learned-workers ids now [] = refl
learned-workers ids now (node ∷ nodes) = ground (arith, learned-workers ids now nodes)

module _ (world : World) (spec : DagSpec) (now : ℕ) where
  scan_node-Calm : (node : Node) → Moves Calm (scan_node world spec now node)
  unfolding Calm update_state
  scan_node-Calm node store unique =
      rw (scan_node-nodes world now spec node store)
        (elim (Bool-cases (is_given_up world store node)) [
          | inr keeps ↦ rw keeps (unique, omega arith)
          | inl moves ↦ rw moves (
            update_where-AreUnique _ _ store.nodes (λ row. refl) unique,
            update_state-workers node.id now store.nodes,
          )
        ])

  scan_nodes-Calm : (nodes : List Node) → Moves Calm (scan_nodes world spec now nodes)
  unfolding scan_nodes
  scan_nodes-Calm [] = pure-Moves Calm _
  scan_nodes-Calm (node ∷ nodes) =
      bind-Moves Calm _ _ (scan_node-Calm node)
        λ is_recoverable. bind-Moves Calm _ _ (scan_nodes-Calm nodes) λ others. pure-Moves Calm _

  close-Calm : (session : RecoverySession) (at : ℕ) → Moves Calm (close session at)
  unfolding close modify close_recovery_session
  close-Calm session at store = same_rows store _ refl

  start_session-Calm : (nodes : List Node) → Moves Calm (start_session world spec nodes now)
  unfolding start_session modify add_recovery_session
  start_session-Calm nodes = bind-Moves Calm _ _ (compose_prompt-Moves Calm world nodes) λ prompt.
      bind-Moves Calm _ _ (launch_recovery-Moves Calm world spec now prompt nodes) λ session.
        then-Moves Calm _ _ (λ store. same_rows store _ refl)
          (then-Moves Calm _ _ (record_notes-Moves Calm nodes _ now) (pure-Moves Calm _))

  start_batch-Calm : (nodes : List Node) → Moves Calm (start_batch world spec nodes now)
  start_batch-Calm [] = pure-Moves Calm _
  start_batch-Calm (node ∷ nodes) = start_session-Calm (node ∷ nodes)

  dispatch-Calm : (nodes : List Node) → Moves Calm (RecoveryDispatch.dispatch world spec nodes now)
  unfolding RecoveryDispatch.dispatch
  dispatch-Calm nodes = bind-Moves Calm _ _ (query-Moves Calm _) λ opened.
      option-Moves Calm opened _ _ (start_batch-Calm nodes) λ session.
        then-Moves Calm _ _ (end_open_session-Moves Calm world spec now close-Calm session)
          (pure-Moves Calm _)

  pub recover_failed_nodes-Calm : Moves Calm (recover_failed_nodes world spec now)
  unfolding recover_failed_nodes get_recoverable_nodes
  recover_failed_nodes-Calm =
      bind-Moves Calm _ _ (bind-Moves Calm _ _ (query-Moves Calm _) scan_nodes-Calm) dispatch-Calm
