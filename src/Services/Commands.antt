-- ===== src/Services/Commands.antt =====
-- services/run/node_skip_service.py, api/cli/handlers/retry_command_handler.py and
-- services/stop/node_stop_service.py. The run lock that a command holds is not modelled; a refusal
-- is an exception that ends the command.
pub mod Retrying
pub mod Skipping
use agentic_dag.Prelude.{
  ℕ, String, Bool, true, false, not, ◌&&◌, List, [], ◌∷◌, Option, none, some, ◌==◌, string_eq, mem,
  if◌then◌else◌,
}
use agentic_dag.Domain.{
  NodeState, pending, in_progress, needs_human, skipped, errored, state_eq, state_value, GraphNode,
  Graph, Node, NodeAgent, WorkTree, AgentSession, NodeEvent, NodeCommand, ExitCode, success,
  failure, node_skipped, node_skipped_event, human_needed, agent_stopped_event, DagSpec,
  NotificationType, EventContent, last?,
}
use agentic_dag.Domain.NodeMethods
use agentic_dag.Labels
use agentic_dag.World.{World}
use agentic_dag.Building.{build_from_path}
use agentic_dag.Store.{
  M, raised, unhandled, pure, call, query, modify, perform, ◌>>=◌, ◌>>◌, on_option, emitted,
  stopped_session, find_row, read_node, set_nodes, reset_recovery_attempts, get_by_node_id,
  save_agent, close_session_row, record_move,
}
use agentic_dag.Services.Schedule.{keep_scheduled}
use agentic_dag.Services.Release.{release, retried_event}

-- SkipRefused, StopRefused and StopIteration, with their text.
abbrev refuse : {A : Type 0} → String → M A
refuse note = call (raised (unhandled note))

unfoldable pub node_event_at : Node → NotificationType → ℕ → EventContent → NodeEvent
unfolding NodeMethods.get_agent_name
node_event_at node type current_time content = record {
  node_id = node.id;
  type = type;
  created_at = current_time;
  updated_at = current_time;
  title = node.title;
  agent_name = NodeMethods.get_agent_name node;
  content = content;
}

-- NodeSkipService

unfoldable pub skip_refusal : Node → String
skip_refusal node =
    if node.state == in_progress
    then Labels.node_still_in_progress node.id
    else Labels.node_already_merged node.id

abbrev is_nil : List String → Bool
is_nil [] = true
is_nil (_ ∷ _) = false

unfoldable pub record_skipped : Node → ℕ → M (Unit {0})
unfolding node_event_at
record_skipped node current_time = modify (
    record_move (node_event_at node node_skipped current_time node_skipped_event) skipped
      Labels.skipped_by_human)

unfoldable pub skip_node : World → DagSpec → Graph → NodeCommand → ℕ → Node → M (List String)
skip_node world dag_spec graph command current_time node = do
  record_skipped node current_time
  pending_node_ids ← release graph node.id current_time
  if node.state == skipped && is_nil pending_node_ids
      then pure []
      else keep_scheduled world dag_spec command.dag_path >> pure pending_node_ids

unfoldable pub skip : World → DagSpec → Graph → NodeCommand → ℕ → M (List String)
unfolding NodeMethods.is_skippable skip_refusal
skip world dag_spec graph command current_time = do
  found ← query (λ store. read_node command.node_id store.nodes)
  on_option found (refuse (Labels.node_not_in_run command.node_id)) λ node.
      if not (NodeMethods.is_skippable node)
      then refuse (skip_refusal node)
      else skip_node world dag_spec graph command current_time node

-- RetryCommandHandler

unfoldable pub is_retryable : NodeState → Bool
unfolding mem
is_retryable state = mem (errored ∷ needs_human ∷ []) state

unfoldable pub reset_attempts : Graph → NodeCommand → M (Unit {0})
unfolding find_row
reset_attempts graph command =
    on_option (find_row (λ (node : GraphNode). node.id == command.node_id) graph.nodes) (refuse "")
      λ graph_node.
        modify
          (set_nodes (reset_recovery_attempts command.node_id graph_node.recovery_attempts_allowed))

unfoldable pub clear_resume_token : Node → M (Unit {0})
clear_resume_token node = do
  found ← query (λ store. get_by_node_id node.id store.agents)
  on_option found (pure tt) λ agent. modify (save_agent (record agent { resume_token = "" }))

unfoldable pub retry_node : World → DagSpec → Graph → NodeCommand → Node → M ExitCode
retry_node world dag_spec graph command node = do
  reset_attempts graph command
  if command.reset then clear_resume_token node else pure tt
  modify (record_move (retried_event node (world.now 0)) pending Labels.sent_back_to_work)
  released ← release graph node.id (world.now 0)
  perform (emitted (Labels.node_retried node.id))
  keep_scheduled world dag_spec command.dag_path
  pure success

unfoldable pub retry_command : World → DagSpec → Graph → NodeCommand → M ExitCode
unfolding is_retryable
retry_command world dag_spec graph command = do
  found ← query (λ store. read_node command.node_id store.nodes)
  on_option found (perform (emitted (Labels.node_not_in_run command.node_id)) >> pure failure)
      λ node.
        if not (is_retryable node.state)
        then perform (emitted (Labels.node_not_stopped node.id (state_value node.state)))
          >> pure failure
        else retry_node world dag_spec graph command node

-- NodeStopService

-- `AgentSession.is_process_alive`
unfoldable pub is_session_alive : World → AgentSession → Bool
is_session_alive world session = elim session.pid [
  | none ↦ false
  | some pid ↦ world.is_process_alive pid (
      if session.pid_start == "" then session.started_at else world.fromisoformat session.pid_start)
]

-- `NodeAgent.get_latest_session` of the row's agent.
unfoldable pub latest_session : Option NodeAgent → Option AgentSession
unfolding last?
latest_session none = none
latest_session (some agent) = last? agent.sessions

abbrev pub worktree_of : Option NodeAgent → Option WorkTree
worktree_of none = none
worktree_of (some agent) = agent.worktree

-- `Node.is_process_dead`
unfoldable pub is_process_dead : World → Option NodeAgent → Bool
unfolding is_session_alive latest_session
is_process_dead world agent = elim (latest_session agent) [
  | none ↦ true
  | some session ↦ not (is_session_alive world session)
]

-- `_get_launcher`; a missing key of the mapping is a KeyError.
unfoldable pub find_launcher : World → NodeCommand → M (Unit {0})
find_launcher world command = do
  graph ← build_from_path world command.dag_path
  on_option (find_row (λ (node : GraphNode). node.id == command.node_id) graph.nodes)
      (refuse (Labels.node_not_in_run command.node_id))
      λ graph_node.
        on_option graph_node.executor_agent (refuse (Labels.node_not_in_run command.node_id))
          λ executor_agent. if world.has_launcher executor_agent then pure tt else refuse ""

unfoldable pub close_stopped : World → AgentSession → WorkTree → ℕ → M (Unit {0})
close_stopped world session worktree current_time = do
  exit_code ← call (world.find_exit_code worktree)
  log_tail ← call (world.find_log_tail worktree)
  modify (
      close_session_row (record session {
        ended_at = some current_time;
        end_state = "stopped";
        exit_code = exit_code;
        log_tail = log_tail;
        marks_before = none;
      }))

unfoldable pub stop_session :
    World → NodeCommand → ℕ → Node → AgentSession → WorkTree → M (Unit {0})
unfolding node_event_at
stop_session world command current_time node session worktree = do
  find_launcher world command
  call (world.stop session)
  perform (stopped_session session)
  close_stopped world session worktree current_time
  modify (
      record_move
        (node_event_at node human_needed current_time
          (agent_stopped_event Labels.stopped_by_person "" none))
        needs_human Labels.stopped_by_person)

unfoldable pub stop_running : World → NodeCommand → ℕ → Node → Option NodeAgent → M (Unit {0})
unfolding is_process_dead latest_session
stop_running world command current_time node agent =
    if is_process_dead world agent
    then refuse (Labels.node_session_not_running node.id)
    else on_option (latest_session agent) (refuse (Labels.node_session_not_running node.id))
        λ session.
          on_option (worktree_of agent) (refuse (Labels.node_session_not_running node.id))
            λ worktree. stop_session world command current_time node session worktree

unfoldable pub stop_command : World → NodeCommand → ℕ → M (Unit {0})
stop_command world command current_time = do
  found ← query (λ store. read_node command.node_id store.nodes)
  on_option found (refuse (Labels.node_not_in_run command.node_id)) λ node.
      if not (node.state == in_progress)
      then refuse (Labels.node_not_in_progress node.id (state_value node.state))
      else do
        agent ← query (λ store. get_by_node_id node.id store.agents)
        stop_running world command current_time node agent
