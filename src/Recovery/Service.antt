-- ===== src/Recovery/Service.antt =====
-- services/recovery/node_recovery_service.py: what the recovery agent decided on one failed node.
use agentic_dag.Prelude.{
  ℕ, String, Bool, true, false, not, ◌&&◌, [], ◌∷◌, Option, none, some, ◌==◌, string_eq, mem,
  if◌then◌else◌, show_int,
}
use agentic_dag.Domain.{
  NodeState, errored, needs_human, resting, in_progress, merged, state_eq, state_value, GraphNode,
  Graph, DagSpec, Node, NodeAgent, AgentSession, WorkTree, NodeRecovery, RecoverCommand,
  cause_value, get_resume_at, ExitCode, success, failure, recovery, work_started,
  work_started_event, human_needed, agent_stopped_event,
}
use agentic_dag.Domain.NodeMethods.{is_needing_human}
use agentic_dag.Labels
use agentic_dag.World.{World}
use agentic_dag.Building.{build_from_path}
use agentic_dag.Store.{
  M, Failure, base_branch_missing, worktree_conflict, worktree_error, observation_error, os_error,
  unhandled, pure, call, query, modify, perform, ◌>>=◌, ◌>>◌, on_option, try_except, emitted, woken,
  read_node, find_row, get_by_node_id, set_nodes, spend_recovery_attempt, add_session,
  advance_marks, record_move,
}
use agentic_dag.Store.Recovery.{add_recovery}
use agentic_dag.Handlers.InProgress.{wait_until}
use agentic_dag.Handlers.Response.{can_launch}
use agentic_dag.Services.Schedule.{keep_scheduled}
use agentic_dag.Services.Release.{release}
use agentic_dag.Services.Commands.{latest_session, worktree_of, is_session_alive, node_event_at}

unfoldable pub is_wakeable : NodeState → Bool
unfolding mem
is_wakeable state = mem (errored ∷ needs_human ∷ resting ∷ []) state

abbrev shown_pid : Option ℕ → String
shown_pid none = "None"
shown_pid (some pid) = show_int pid

unfoldable pub say : String → M (Unit {0})
say text = perform (emitted text)

-- `emit(...)` and `return False`
unfoldable pub decline : String → M Bool
unfolding say
decline text = say text >> pure false

unfoldable pub report_alive : Node → AgentSession → M Bool
unfolding decline
report_alive node session = decline (Labels.node_process_alive node.id (shown_pid session.pid))

unfoldable pub can_record_unrecoverable : World → Node → AgentSession → M Bool
unfolding decline report_alive is_session_alive
can_record_unrecoverable world node session =
    if node.state == merged
    then decline (Labels.merged_node_not_recoverable node.id)
    else if node.state == in_progress && is_session_alive world session
    then report_alive node session
    else pure true

-- `_restore_marks`

unfoldable pub write_marks : World → Node → WorkTree → String → M Bool
unfolding say
write_marks world node worktree marks_before = do
  modify (advance_marks (record worktree { marks = world.loads marks_before }))
  say (Labels.marks_restored node.id marks_before)
  pure true

unfoldable pub restore_marks : World → Node → Option NodeAgent → AgentSession → M Bool
unfolding report_alive decline write_marks is_session_alive
restore_marks world node agent session =
    if is_session_alive world session
    then report_alive node session
    else on_option (worktree_of agent) (decline (Labels.no_marks_before node.id)) λ worktree.
      on_option session.marks_before (decline (Labels.no_marks_before node.id))
        λ marks_before. write_marks world node worktree marks_before

-- `_wake`

unfoldable pub move_awake : World → Node → String → M (Unit {0})
unfolding node_event_at
move_awake world node message = modify (
    record_move (node_event_at node work_started (world.now 2) work_started_event) in_progress
      (Labels.woken_by_recovery message))

unfoldable pub record_woken :
    World → DagSpec → Graph → RecoverCommand → Node → AgentSession → M Bool
unfolding say move_awake
record_woken world dag_spec graph command node session = do
  modify (add_session session)
  move_awake world node command.wake_message
  released ← release graph node.id (world.now 2)
  say (Labels.node_woken node.id)
  keep_scheduled world dag_spec command.dag_path
  pure true

unfoldable pub give_up : Node → String → M (Option AgentSession)
unfolding say
give_up node error = say (Labels.wake_failed node.id error) >> pure none

-- `except (WorktreeError, OSError) as error`
unfoldable pub wake_failure : Node → Failure → Option (M (Option AgentSession))
unfolding give_up
wake_failure node (base_branch_missing error) = some (give_up node error)
wake_failure node (worktree_conflict error) = some (give_up node error)
wake_failure node (worktree_error error) = some (give_up node error)
wake_failure node (os_error error) = some (give_up node error)
wake_failure node (observation_error error) = none
wake_failure node (unhandled error) = none

-- The session that the agent product starts, or `none` where the handler of its exceptions declines.
unfoldable pub ask_to_wake :
    World → GraphNode → RecoverCommand → Node → NodeAgent → M (Option AgentSession)
ask_to_wake world graph_node command node agent =
    try_except
      (do
        session ← call (world.wake graph_node command.wake_message agent recovery)
        perform (woken graph_node.id command.wake_message recovery)
        pure (some session))
      (wake_failure node)

unfoldable pub wake_in :
    World → DagSpec → Graph → RecoverCommand → Node → NodeAgent → GraphNode → M Bool
unfolding ask_to_wake decline record_woken
wake_in world dag_spec graph command node agent graph_node =
    if not (can_launch world graph_node.executor_agent)
    then decline (Labels.node_not_in_run node.id)
    else do
      started ← ask_to_wake world graph_node command node agent
      on_option started (pure false) (record_woken world dag_spec graph command node)

unfoldable pub wake_conversation :
    World → DagSpec → Graph → RecoverCommand → Node → NodeAgent → M Bool
unfolding wake_in decline
wake_conversation world dag_spec graph command node agent = do
  built ← build_from_path world command.dag_path
  on_option (find_row (λ (graph_node : GraphNode). graph_node.id == command.node_id) built.nodes)
      (decline (Labels.node_not_in_run node.id)) (wake_in world dag_spec graph command node agent)

abbrev pub conversation : Option NodeAgent → Option NodeAgent
conversation none = none
conversation (some agent) = elim agent.worktree [
  | none ↦ none
  | some worktree ↦ if agent.resume_token == "" then none else some agent
]

unfoldable pub wake_node :
    World → DagSpec → Graph → RecoverCommand → Node → Option NodeAgent → AgentSession → M Bool
unfolding is_wakeable decline report_alive wake_conversation is_session_alive
wake_node world dag_spec graph command node agent session =
    if not (is_wakeable node.state)
    then decline (Labels.node_not_wakeable node.id (state_value node.state))
    else if is_session_alive world session
    then report_alive node session
    else on_option (conversation agent) (decline (Labels.node_has_no_conversation node.id))
        (wake_conversation world dag_spec graph command node)

-- `_record`

unfoldable pub wait_for : World → DagSpec → Graph → RecoverCommand → Node → ℕ → M (Unit {0})
unfolding get_resume_at
wait_for world dag_spec graph command node current_time =
    on_option (get_resume_at command current_time) (pure tt) λ resume_at. do
      wait_until node.id resume_at
          (Labels.recovery_wait (cause_value command.cause) (world.show_time resume_at))
          current_time
      released ← release graph node.id current_time
      keep_scheduled world dag_spec command.dag_path

unfoldable pub leave_to_human : World → RecoverCommand → Node → M (Unit {0})
unfolding node_event_at is_needing_human
leave_to_human world command node =
    if not command.recoverable && not (is_needing_human node)
    then (let note = Labels.marked_unrecoverable (cause_value command.cause) command.action in
        modify (
          record_move
            (node_event_at node human_needed (world.now 2) (agent_stopped_event note "" none))
            needs_human note))
    else pure tt

abbrev pub or_time : Option ℕ → ℕ → ℕ
or_time none current_time = current_time
or_time (some time) current_time = time

unfoldable pub recovery_row : World → RecoverCommand → Node → AgentSession → NodeRecovery
recovery_row world command node session = record {
  node_id = node.id;
  session_id = session.id;
  detected_at = world.now 1;
  cause = command.cause;
  recoverable = command.recoverable;
  recover_at = or_time command.recover_at (world.now 1);
  action = command.action;
}

abbrev pub shown_bool : Bool → String
shown_bool true = "True"
shown_bool false = "False"

unfoldable pub record_recovery :
    World → DagSpec → Graph → RecoverCommand → Node → AgentSession → M (Unit {0})
unfolding recovery_row add_recovery wait_for leave_to_human say
record_recovery world dag_spec graph command node session = do
  call world.commit_recovery
  modify (add_recovery (recovery_row world command node session))
  call world.commit_attempt
  modify (set_nodes (spend_recovery_attempt node.id))
  wait_for world dag_spec graph command node (world.now 1)
  leave_to_human world command node
  say (
      Labels.recovery_recorded node.id (cause_value command.cause) (shown_bool command.recoverable)
        (world.show_time (or_time command.recover_at (world.now 1))))

-- `recover`

-- `if guard and not await step: return FAILURE`
unfoldable pub unless : Bool → M Bool → M ExitCode → M ExitCode
unless false step rest = rest
unless true step rest = do is_done ← step; if is_done then rest else pure failure

unfoldable pub recover_node :
    World → DagSpec → Graph → RecoverCommand → Node → Option NodeAgent → AgentSession → M ExitCode
unfolding unless can_record_unrecoverable restore_marks wake_node record_recovery
recover_node world dag_spec graph command node agent session =
    unless (not command.recoverable) (can_record_unrecoverable world node session) (
      unless command.restore_marks (restore_marks world node agent session) (
        unless (not (command.wake_message == ""))
          (wake_node world dag_spec graph command node agent session)
          (record_recovery world dag_spec graph command node session >> pure success)))

unfoldable pub recover : World → DagSpec → Graph → RecoverCommand → M ExitCode
unfolding recover_node say latest_session
recover world dag_spec graph command = do
  found ← query (λ store. read_node command.node_id store.nodes)
  on_option found (say (Labels.node_not_in_run command.node_id) >> pure failure) λ node. do
    agent ← query (λ store. get_by_node_id node.id store.agents)
    on_option (latest_session agent) (say (Labels.node_has_no_session node.id) >> pure failure)
        (recover_node world dag_spec graph command node agent)
