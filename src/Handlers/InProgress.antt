-- ===== src/Handlers/InProgress.antt =====
-- services/node_state_handlers/in_progress_node_handler.py and services/run/node_wait_service.py.
-- `now k` is the k-th reading of the clock in a pass over a node.
pub mod Settling
use agentic_dag.Prelude.{
  ℕ, String, Bool, true, false, not, ◌&&◌, ◌||◌, List, [], ◌∷◌, Option, none, some, ◌==◌, string_eq,
  nat_eq, if◌then◌else◌,
}
use agentic_dag.Domain.{
  NodeState, pending, needs_human, errored, resting, GraphNode, get_agent_name, AgentSession,
  WorkTree, NodeAgent, NodeEvent, EventContent, NotificationType, human_needed, agent_failed,
  pr_opened, pr_updated, agent_stopped_event, pull_request_opened_event, commit_pushed_event,
  PrDetails, to_pr_details, SessionStatus, alive, finished, overdue, text_or, last?, ExecutorAgent,
}
use agentic_dag.Labels
use agentic_dag.World.{World}
use agentic_dag.Store.{
  M, Store, Failure, base_branch_missing, worktree_conflict, worktree_error, observation_error,
  os_error, unhandled, pure, call, query, modify, perform, try_except, ◌>>=◌, ◌>>◌, on_option,
  stopped_session, set_nodes, update_state, get_by_node_id, close_session_row, record_publication,
  save_audit_entry, record_move,
}
use agentic_dag.Handlers.Response.{TickResponse, response, can_launch, executor_value}

unfoldable pub status_value : SessionStatus → String
status_value alive = "alive"
status_value finished = "finished"
status_value overdue = "overdue"

abbrev pub is_overdue : SessionStatus → Bool
is_overdue overdue = true
is_overdue _ = false

unfoldable pub event_at : GraphNode → NotificationType → ℕ → EventContent → NodeEvent
unfolding get_agent_name
event_at graph_node type current_time content = record {
  node_id = graph_node.id;
  type = type;
  created_at = current_time;
  updated_at = current_time;
  title = graph_node.title;
  agent_name = get_agent_name graph_node;
  content = content;
}

unfoldable pub stopped_event : World → GraphNode → NotificationType → String → String → NodeEvent
unfolding event_at
stopped_event world graph_node type reason log_tail =
    event_at graph_node type (world.now 2) (agent_stopped_event reason log_tail none)

-- `self.exit_code == 0`
abbrev is_zero : Option ℕ → Bool
is_zero none = false
is_zero (some exit_code) = exit_code == 0

abbrev or_empty : Option String → String
or_empty none = ""
or_empty (some text) = text

-- `AgentSession.get_failure_log_tail`
unfoldable pub get_failure_log_tail : AgentSession → String
get_failure_log_tail session = if is_zero session.exit_code then "" else or_empty session.log_tail

-- `_close_session`; an `end_state` that is not given is the empty text.
unfoldable pub close_session :
    World → AgentSession → WorkTree → SessionStatus → String → M AgentSession
unfolding status_value
close_session world session worktree session_status end_state = do
  exit_code ← call (world.find_exit_code worktree)
  log_tail ← call (world.find_log_tail worktree)
  let closed_session : AgentSession = record {
    id = session.id;
    agent_id = session.agent_id;
    started_at = session.started_at;
    ended_at = some (world.now 0);
    end_state = text_or end_state (text_or session.end_state (status_value session_status));
    triggered_by = session.triggered_by;
    pid = session.pid;
    pid_start = session.pid_start;
    exit_code = exit_code;
    log_tail = log_tail;
    marks_before = none;
  }
  modify (close_session_row closed_session)
  pure closed_session

-- `NodeWaitService.wait`
unfoldable pub wait_until : String → (resume_at : ℕ) → String → (current_time : ℕ) → M (Unit {0})
wait_until node_id resume_at note current_time = do
  modify (set_nodes (update_state node_id pending current_time (some resume_at)))
  modify (
      save_audit_entry
        (record { node_id = node_id; state = pending; note = note; created_at = current_time }))

-- `_wait_for_usage_limit`: whether the node waits.
unfoldable pub wait_for_usage_limit :
    World → GraphNode → AgentSession → WorkTree → SessionStatus → M Bool
unfolding executor_value
wait_for_usage_limit world graph_node session worktree session_status =
    on_option graph_node.executor_agent (pure false) λ executor_agent. do
      reset ← call (world.usage_limit_reset_time executor_agent worktree)
      on_option reset (pure false) λ reset_time. do
        closed_session ← close_session world session worktree session_status "usage_limit"
        wait_until graph_node.id reset_time
            (Labels.usage_limit_wait (executor_value executor_agent) (world.show_time reset_time))
            (world.now 1)
        pure true

unfoldable pub get_pr_details : World → GraphNode → ℕ → M (Option PrDetails)
unfolding to_pr_details
get_pr_details world graph_node pr_number = if pr_number == 0 then pure none else do
  snapshot ← call (world.get_pull_request graph_node pr_number)
  pure (some (to_pr_details snapshot pr_number))

unfoldable pub count_pushed_commits : World → GraphNode → WorkTree → PrDetails → M ℕ
count_pushed_commits world graph_node worktree pr_details =
    on_option worktree.head_sha (pure 0) λ started_sha.
      if started_sha == "" || started_sha == pr_details.head_sha
      then pure 0
      else call (world.count_commits_between graph_node started_sha pr_details.head_sha)

abbrev pub stop_state : SessionStatus → NodeState
stop_state overdue = errored
stop_state _ = needs_human

abbrev pub stop_kind : SessionStatus → NotificationType
stop_kind overdue = agent_failed
stop_kind _ = human_needed

abbrev pub stop_note : SessionStatus → String
stop_note overdue = Labels.session_overdue
stop_note _ = Labels.finished_without_pull_request

unfoldable pub record_stopped : World → GraphNode → AgentSession → SessionStatus → M TickResponse
unfolding stopped_event get_failure_log_tail
record_stopped world graph_node closed_session session_status = do
  let note = stop_note session_status
  let log_tail = get_failure_log_tail closed_session
  modify (
      record_move (stopped_event world graph_node (stop_kind session_status) note log_tail)
        (stop_state session_status) note)
  pure (response 1 0)

unfoldable pub compose_resting_note : ℕ → SessionStatus → Bool → String
compose_resting_note pr_number overdue first_publication = Labels.session_overdue
compose_resting_note pr_number _ first_publication =
    if first_publication
    then Labels.pull_request_opened pr_number
    else Labels.session_finished_on_pull_request pr_number

unfoldable pub published_event : World → GraphNode → PrDetails → ℕ → Bool → NodeEvent
unfolding event_at
published_event world graph_node pr_details commit_count first_publication =
    if first_publication
    then event_at graph_node pr_opened (world.now 2) (pull_request_opened_event pr_details)
    else event_at graph_node pr_updated (world.now 2) (commit_pushed_event pr_details commit_count)

unfoldable pub record_resting :
    World → GraphNode → WorkTree → String → PrDetails → ℕ → SessionStatus → M TickResponse
unfolding published_event compose_resting_note
record_resting world graph_node worktree branch pr_details commit_count session_status = do
  let first_publication = worktree.pr_number == 0
  modify (
      record_publication (record worktree {
        branch = branch;
        pr_number = pr_details.number;
        pr_url = pr_details.url;
        head_sha = some pr_details.head_sha;
      }))
  modify (
      record_move (published_event world graph_node pr_details commit_count first_publication)
        resting (compose_resting_note pr_details.number session_status first_publication))
  pure (response 1 0)

-- `found or recorded`
abbrev nat_or : ℕ → ℕ → ℕ
nat_or a b = if a == 0 then b else a

unfoldable pub find_number : World → GraphNode → String → M ℕ
find_number world graph_node branch =
    if branch == "" then pure 0 else call (world.find_pull_request graph_node branch)

-- `_settle` behind the usage limit.
unfoldable pub settle_work :
    World → GraphNode → AgentSession → WorkTree → SessionStatus → M TickResponse
settle_work world graph_node session worktree session_status = do
  checked_out ← call (world.get_branch worktree)
  let branch = text_or checked_out worktree.branch
  found_pr_number ← find_number world graph_node branch
  found ← get_pr_details world graph_node (nat_or found_pr_number worktree.pr_number)
  closed_session ← close_session world session worktree session_status ""
  on_option found (record_stopped world graph_node closed_session session_status) λ pr_details. do
    commit_count ← count_pushed_commits world graph_node worktree pr_details
    record_resting world graph_node worktree branch pr_details commit_count session_status

unfoldable pub settle : World → GraphNode → AgentSession → WorkTree → SessionStatus → M TickResponse
settle world graph_node session worktree session_status = do
  is_waiting ← wait_for_usage_limit world graph_node session worktree session_status
  if is_waiting
      then pure (response 1 0)
      else settle_work world graph_node session worktree session_status

unfoldable pub stop_and_settle :
    World → GraphNode → AgentSession → WorkTree → SessionStatus → M TickResponse
stop_and_settle world graph_node session worktree session_status =
    if is_overdue session_status
    then (do
      call (world.stop session)
      perform (stopped_session session)
      closed_session ← close_session world session worktree session_status ""
      settle world graph_node closed_session worktree session_status)
    else settle world graph_node session worktree session_status

-- `except (WorktreeError, ObservationError, OSError)`
unfoldable pub failure_handler : Failure → Option (M TickResponse)
failure_handler (base_branch_missing _) = some (pure (response 0 0))
failure_handler (worktree_conflict _) = some (pure (response 0 0))
failure_handler (worktree_error _) = some (pure (response 0 0))
failure_handler (observation_error _) = some (pure (response 0 0))
failure_handler (os_error _) = some (pure (response 0 0))
failure_handler (unhandled _) = none

unfoldable pub never_started : World → GraphNode → M TickResponse
unfolding stopped_event
never_started world graph_node = do
  modify (
      record_move (stopped_event world graph_node agent_failed Labels.session_never_started "")
        errored Labels.session_never_started)
  pure (response 1 0)

abbrev pub is_alive : SessionStatus → Bool
is_alive alive = true
is_alive _ = false

unfoldable pub supervise : World → GraphNode → AgentSession → WorkTree → M TickResponse
supervise world graph_node session worktree =
    if not (can_launch world graph_node.executor_agent) then pure (response 0 0) else do
      session_status ← call (world.supervise session)
      if is_alive session_status
          then pure (response 0 0)
          else try_except (stop_and_settle world graph_node session worktree session_status)
              failure_handler

unfoldable pub advance : World → GraphNode → M TickResponse
unfolding last?
advance world graph_node = do
  found ← query (λ store. get_by_node_id graph_node.id store.agents)
  on_option found (never_started world graph_node) λ agent.
      on_option (last? agent.sessions) (never_started world graph_node) λ session.
        on_option agent.worktree (never_started world graph_node)
          (supervise world graph_node session)
