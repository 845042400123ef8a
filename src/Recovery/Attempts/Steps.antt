-- ===== src/Recovery/Attempts/Steps.antt =====
-- The steps of a recovery before its record cost no attempt, nor does what follows the record.
use agentic_dag.Prelude.{
  ℕ, refl, String, Bool, true, false, not, ◌&&◌, Option, none, some, ◌==◌, string_eq, if◌then◌else◌,
}
use agentic_dag.Domain.{
  in_progress, merged, needs_human, pending, state_eq, state_value, Node, NodeAgent, AgentSession,
  DagSpec, Graph, GraphNode, RecoverCommand, WorkTree, human_needed, agent_stopped_event,
  cause_value, get_resume_at,
}
use agentic_dag.Domain.NodeMethods.{is_needing_human}
use agentic_dag.Labels
use agentic_dag.World.{World}
use agentic_dag.Building.{build_from_path}
use agentic_dag.Handlers.InProgress.{wait_until}
use agentic_dag.Handlers.Response.{can_launch}
use agentic_dag.Services.Commands.{worktree_of, is_session_alive, node_event_at}
use agentic_dag.Store.{
  M, Failure, base_branch_missing, worktree_conflict, worktree_error, observation_error, os_error,
  unhandled, ◌>>=◌, pure, modify, on_option, find_row, record_move, add_session, advance_marks,
  update_worktree, set_nodes, save_audit_entry,
}
use agentic_dag.Store.Moves.{
  Moves, Answers, pure-Moves, call-Moves, bind-Moves, then-Moves, option-Moves, if-Moves, try-Moves,
}
use agentic_dag.Recovery.Attempts.{
  Unspent, Unspent-Frame, allowance, same_nodes, record_move-Unspent, perform-Unspent,
  update_state-Unspent,
}
use agentic_dag.Recovery.Attempts.Services.{release-Unspent, keep_scheduled-Unspent}
use agentic_dag.Recovery.Service.{
  is_wakeable, say, decline, report_alive, can_record_unrecoverable, write_marks, restore_marks,
  move_awake, record_woken, give_up, wake_failure, ask_to_wake, wake_in, wake_conversation,
  conversation, wake_node, wait_for, leave_to_human,
}

decline-Unspent : (text : String) → Moves Unspent (decline text)
unfolding decline say
decline-Unspent text = then-Moves Unspent _ _ (perform-Unspent _) (pure-Moves Unspent _)

report_alive-Unspent :
    (node : Node) (session : AgentSession) → Moves Unspent (report_alive node session)
unfolding report_alive
report_alive-Unspent node session = decline-Unspent _

module _ (world : World) where
  pub can_record_unrecoverable-Unspent :
      (node : Node) (session : AgentSession)
      → Moves Unspent (can_record_unrecoverable world node session)
  unfolding can_record_unrecoverable
  can_record_unrecoverable-Unspent node session =
      let alive = node.state == in_progress && is_session_alive world session in
      if-Moves Unspent (node.state == merged) (decline (Labels.merged_node_not_recoverable node.id))
        (if alive then report_alive node session else pure true) (decline-Unspent _)
        (if-Moves Unspent alive (report_alive node session) (pure true)
          (report_alive-Unspent node session) (pure-Moves Unspent true))

  advance_marks-Unspent : (worktree : WorkTree) → Moves Unspent (modify (advance_marks worktree))
  unfolding modify advance_marks update_worktree
  advance_marks-Unspent worktree store = same_nodes store _ refl refl

  write_marks-Unspent :
      (node : Node) (worktree : WorkTree) (marks : String)
      → Moves Unspent (write_marks world node worktree marks)
  unfolding write_marks say
  write_marks-Unspent node worktree marks =
      then-Moves Unspent _ _ (advance_marks-Unspent _)
        (then-Moves Unspent _ _ (perform-Unspent _) (pure-Moves Unspent _))

  pub restore_marks-Unspent :
      (node : Node) (agent : Option NodeAgent) (session : AgentSession)
      → Moves Unspent (restore_marks world node agent session)
  unfolding restore_marks
  restore_marks-Unspent node agent session =
      if-Moves Unspent (is_session_alive world session) (report_alive node session)
        (on_option (worktree_of agent) (decline (Labels.no_marks_before node.id)) λ worktree.
          on_option session.marks_before (decline (Labels.no_marks_before node.id))
            λ marks_before. write_marks world node worktree marks_before)
        (report_alive-Unspent node session)
        (option-Moves Unspent (worktree_of agent) _ _ (decline-Unspent _) λ worktree.
          option-Moves Unspent session.marks_before _ _ (decline-Unspent _)
            λ marks. write_marks-Unspent node worktree marks)

  add_session-Unspent : (session : AgentSession) → Moves Unspent (modify (add_session session))
  unfolding modify add_session
  add_session-Unspent session store = same_nodes store _ refl refl

  give_up-Unspent : (node : Node) (error : String) → Moves Unspent (give_up node error)
  unfolding give_up say
  give_up-Unspent node error = then-Moves Unspent _ _ (perform-Unspent _) (pure-Moves Unspent _)

  wake_failure-Unspent :
      (node : Node) (failure : Failure) → Answers Unspent (wake_failure node failure)
  unfolding wake_failure
  wake_failure-Unspent node (base_branch_missing error) = give_up-Unspent node error
  wake_failure-Unspent node (worktree_conflict error) = give_up-Unspent node error
  wake_failure-Unspent node (worktree_error error) = give_up-Unspent node error
  wake_failure-Unspent node (os_error error) = give_up-Unspent node error
  wake_failure-Unspent node (observation_error error) = tt
  wake_failure-Unspent node (unhandled error) = tt

  ask_to_wake-Unspent :
      (graph_node : GraphNode) (command : RecoverCommand) (node : Node) (agent : NodeAgent)
      → Moves Unspent (ask_to_wake world graph_node command node agent)
  unfolding ask_to_wake
  ask_to_wake-Unspent graph_node command node agent =
      try-Moves Unspent _ _
        (bind-Moves Unspent _ _ (call-Moves Unspent _)
          λ session. then-Moves Unspent _ _ (perform-Unspent _) (pure-Moves Unspent _))
        (wake_failure-Unspent node)

  move_awake-Unspent :
      (node : Node) (message : String) → Moves Unspent (move_awake world node message)
  unfolding move_awake
  move_awake-Unspent node message = record_move-Unspent _ _ _

module _ (world : World) (spec : DagSpec) (graph : Graph) (command : RecoverCommand)
    (node : Node) where
  record_woken-Unspent :
      (session : AgentSession) → Moves Unspent (record_woken world spec graph command node session)
  unfolding record_woken say
  record_woken-Unspent session = then-Moves Unspent _ _ (add_session-Unspent world session) (
      then-Moves Unspent _ _ (move_awake-Unspent world node command.wake_message) (
        bind-Moves Unspent _ _ (release-Unspent graph node.id (world.now 2)) λ released.
          then-Moves Unspent _ _ (perform-Unspent _) (
            then-Moves Unspent _ _ (keep_scheduled-Unspent world spec command.dag_path)
              (pure-Moves Unspent _))))

  wake_in-Unspent :
      (agent : NodeAgent) (graph_node : GraphNode)
      → Moves Unspent (wake_in world spec graph command node agent graph_node)
  unfolding wake_in
  wake_in-Unspent agent graph_node =
      if-Moves Unspent (not (can_launch world graph_node.executor_agent))
        (decline (Labels.node_not_in_run node.id))
        (ask_to_wake world graph_node command node agent >>= λ started.
          on_option started (pure false) (record_woken world spec graph command node))
        (decline-Unspent _)
        (bind-Moves Unspent _ _ (ask_to_wake-Unspent world graph_node command node agent)
          λ started. option-Moves Unspent started _ _ (pure-Moves Unspent _) record_woken-Unspent)

  wake_conversation-Unspent :
      (agent : NodeAgent) → Moves Unspent (wake_conversation world spec graph command node agent)
  unfolding wake_conversation build_from_path
  wake_conversation-Unspent agent =
      bind-Moves Unspent _ _
        (bind-Moves Unspent _ _ (call-Moves Unspent (world.load_dag command.dag_path))
          λ loaded. pure-Moves Unspent _)
        λ built.
          option-Moves Unspent
            (find_row (λ (graph_node : GraphNode). graph_node.id == command.node_id) built.nodes) _
            _ (decline-Unspent _) (wake_in-Unspent agent)

  pub wake_node-Unspent :
      (agent : Option NodeAgent) (session : AgentSession)
      → Moves Unspent (wake_node world spec graph command node agent session)
  unfolding wake_node
  wake_node-Unspent agent session =
      let talk : M Bool =
        on_option (conversation agent) (decline (Labels.node_has_no_conversation node.id))
          (wake_conversation world spec graph command node) in
      let alive = is_session_alive world session in
      if-Moves Unspent (not (is_wakeable node.state))
        (decline (Labels.node_not_wakeable node.id (state_value node.state)))
        (if alive then report_alive node session else talk) (decline-Unspent _)
        (if-Moves Unspent alive (report_alive node session) talk (report_alive-Unspent node session)
          (option-Moves Unspent (conversation agent) _ _ (decline-Unspent _)
            wake_conversation-Unspent))

  wait_until-Unspent :
      (resume_at : ℕ) (note : String) (now : ℕ)
      → Moves Unspent (wait_until node.id resume_at note now)
  unfolding wait_until modify save_audit_entry Unspent allowance set_nodes
  wait_until-Unspent resume_at note now =
      then-Moves Unspent _ _ (update_state-Unspent node.id pending now (some resume_at))
        λ store. (refl, λ id. refl)

  pub wait_for-Unspent : (now : ℕ) → Moves Unspent (wait_for world spec graph command node now)
  unfolding wait_for
  wait_for-Unspent now =
      option-Moves Unspent (get_resume_at command now) _ _ (pure-Moves Unspent _) λ resume_at.
        then-Moves Unspent _ _ (wait_until-Unspent resume_at _ now) (
          bind-Moves Unspent _ _ (release-Unspent graph node.id now)
            λ released. keep_scheduled-Unspent world spec command.dag_path)

  pub leave_to_human-Unspent : Moves Unspent (leave_to_human world command node)
  unfolding leave_to_human
  leave_to_human-Unspent =
      let note = Labels.marked_unrecoverable (cause_value command.cause) command.action in
      if-Moves Unspent (not command.recoverable && not (is_needing_human node))
        (modify (
          record_move
            (node_event_at node human_needed (world.now 2) (agent_stopped_event note "" none))
            needs_human note))
        (pure tt) (record_move-Unspent _ _ _) (pure-Moves Unspent tt)
