-- ===== src/Handlers/Pending.antt =====
-- services/node_state_handlers/pending_node_handler.py.
pub mod Ready
pub mod Admission
use agentic_dag.Prelude.{
  ℕ, ◌+◌, String, Bool, true, false, not, ◌&&◌, ◌||◌, List, [], ◌∷◌, ◌++◌, map, Option, none, some,
  ◌==◌, string_eq, all, ltb, leb, length, if◌then◌else◌,
}
use agentic_dag.Domain.{
  NodeState, pending, in_progress, needs_human, errored, merged, skipped, state_eq, is_stopped,
  GraphNode, Graph, get_agent_name, is_adopted, Node, WorkTree, NodeAgent, NodeEvent,
  NotificationType, human_needed, agent_failed, work_started, agent_stopped_event,
  work_started_event, Trigger, launch, retry, recovery, is_some, DagSpec,
}
use agentic_dag.Domain.NodeMethods
use agentic_dag.Labels
use agentic_dag.GraphService.{node_ids, get_effective_dependencies}
use agentic_dag.StartTime.{get_start_time}
use agentic_dag.World.{World}
use agentic_dag.Store.{
  M, Store, Result, Failure, base_branch_missing, worktree_conflict, worktree_error,
  observation_error, os_error, unhandled, pure, call, query, modify, perform, try_except, ◌>>=◌,
  ◌>>◌, on_option, launched, woken, find_row, read_node, get_nodes_by_state, get_nodes_by_ids,
  update_state, set_nodes, get_by_node_id, save_agent, save_audit_entry, record_move,
}
use agentic_dag.Handlers.Response.{TickResponse, response, executor_value, can_launch}
use agentic_dag.Handlers.Import.{has_token, with_session, import_node}

unfoldable pub stopped_event : GraphNode → NotificationType → String → ℕ → NodeEvent
unfolding get_agent_name
stopped_event graph_node type reason current_time = record {
  node_id = graph_node.id;
  type = type;
  created_at = current_time;
  updated_at = current_time;
  title = graph_node.title;
  agent_name = get_agent_name graph_node;
  content = agent_stopped_event reason "" none;
}

-- The executor's value in a note, "none" where the node has no executor.
unfoldable pub agent_name_of : GraphNode → String
unfolding executor_value
agent_name_of graph_node = elim graph_node.executor_agent [
  | none ↦ "none"
  | some executor_agent ↦ executor_value executor_agent
]

-- What `_record_wait` writes: nothing for a scheduled wait, nor where the wait is already recorded,
-- that is, where the row was updated after the start of the cooldown.
unfoldable pub record_wait : World → GraphNode → ℕ → M (Unit {0})
record_wait world graph_node start_time = do
  found ← query (λ store. read_node graph_node.id store.nodes)
  on_option found (pure tt) λ node.
      if is_some node.resume_at || ltb start_time (node.updated_at + graph_node.cooldown_seconds)
      then pure tt
      else do
        modify (set_nodes (update_state graph_node.id pending (world.now 0) none))
        modify (
            save_audit_entry (record {
              node_id = graph_node.id;
              state = pending;
              note = Labels.starts_after_cooldown (world.show_time start_time);
              created_at = world.now 0;
            }))

unfoldable pub can_resume : Node → Store → Bool
unfolding get_by_node_id
can_resume node store = elim node.resume_at [
  | none ↦ false
  | some time ↦ elim (get_by_node_id node.id store.agents) [
    | none ↦ false
    | some agent ↦ has_token agent
  ]
]

unfoldable pub adopt : World → GraphNode → M TickResponse
adopt world graph_node = do
  pr_details ← call (world.get_pr_details_from_url graph_node.pr)
  import_node world graph_node pr_details ""
  pure (response 1 1)

unfoldable pub create_agent : World → GraphNode → String → WorkTree → Option NodeAgent → NodeAgent
create_agent world graph_node agent_product worktree none = record {
  id = world.uuid;
  name = agent_product;
  resume_token = world.create_session_token;
  node_id = graph_node.id;
  sessions = [];
  worktree = some worktree;
}
create_agent world graph_node agent_product worktree (some recorded) = record {
  id = recorded.id;
  name = agent_product;
  resume_token = world.create_session_token;
  node_id = graph_node.id;
  sessions = recorded.sessions;
  worktree = recorded.worktree;
}

abbrev is_launch : Option Trigger → Bool
is_launch (some launch) = true
is_launch _ = false

-- The agent with its new session, and the note that the start is recorded with.
unfoldable pub resume_agent : World → GraphNode → Node → NodeAgent → M (NodeAgent × String)
resume_agent world graph_node node agent = do
  let waited = is_some node.resume_at
  let message = if waited then Labels.resume_message else Labels.retry_message
  let trigger = if waited then recovery else retry
  session ← call (world.wake graph_node message agent trigger)
  perform (woken graph_node.id message trigger)
  pure (
    with_session agent session,
    if is_launch session.triggered_by
        then Labels.conversation_started_without_thread (NodeMethods.get_agent_name node)
        else Labels.started_work (NodeMethods.get_agent_name node),
  )

unfoldable pub launch_agent :
    World → GraphNode → Node → WorkTree → Option NodeAgent → M (NodeAgent × String)
launch_agent world graph_node node worktree recorded_agent = do
  let agent = create_agent world graph_node (agent_name_of graph_node) worktree recorded_agent
  session ← call (world.launch graph_node graph_node.instructions agent)
  perform (launched graph_node.id graph_node.instructions)
  pure (with_session agent session, Labels.started_work (NodeMethods.get_agent_name node))

unfoldable pub open_session :
    World → GraphNode → Node → WorkTree → Option NodeAgent → M (NodeAgent × String)
open_session world graph_node node worktree none = launch_agent world graph_node node worktree none
open_session world graph_node node worktree (some agent) =
    if has_token agent
    then resume_agent world graph_node node agent
    else launch_agent world graph_node node worktree (some agent)

unfoldable pub started_event : GraphNode → ℕ → NodeEvent
unfolding get_agent_name
started_event graph_node current_time = record {
  node_id = graph_node.id;
  type = work_started;
  created_at = current_time;
  updated_at = current_time;
  title = graph_node.title;
  agent_name = get_agent_name graph_node;
  content = work_started_event;
}

unfoldable pub start : World → GraphNode → Node → ℕ → M TickResponse
start world graph_node node current_time = do
  worktree ← call (world.provision graph_node)
  recorded_agent ← query (λ store. get_by_node_id graph_node.id store.agents)
  opened ← open_session world graph_node node worktree recorded_agent
  modify (save_agent opened.0)
  modify (record_move (started_event graph_node current_time) in_progress opened.1)
  pure (response 1 1)

unfoldable pub give_up : GraphNode → String → ℕ → M TickResponse
give_up graph_node note current_time = do
  modify (record_move (stopped_event graph_node agent_failed note current_time) errored note)
  pure (response 1 0)

-- The two `except` clauses of `_advance`.
unfoldable pub failure_handler : GraphNode → ℕ → Failure → Option (M TickResponse)
failure_handler graph_node current_time (base_branch_missing note) =
    some (give_up graph_node note current_time)
failure_handler graph_node current_time (worktree_conflict note) =
    some (give_up graph_node note current_time)
failure_handler graph_node current_time (worktree_error _) = some (pure (response 0 0))
failure_handler graph_node current_time (observation_error _) = some (pure (response 0 0))
failure_handler graph_node current_time (os_error _) = some (pure (response 0 0))
failure_handler graph_node current_time (unhandled _) = none

unfoldable pub stop_node : GraphNode → String → ℕ → M TickResponse
stop_node graph_node note current_time = do
  modify (record_move (stopped_event graph_node human_needed note current_time) needs_human note)
  pure (response 1 0)

-- The rows that `_advance` reads first.
unfoldable pub skipped_rows : Store → List Node
unfolding get_nodes_by_state
skipped_rows store = get_nodes_by_state skipped store.nodes

unfoldable pub dependency_rows : Graph → GraphNode → Store → List Node
unfolding skipped_rows get_nodes_by_ids
dependency_rows graph graph_node store =
    get_nodes_by_ids
      (node_ids (get_effective_dependencies graph graph_node.id (skipped_rows store))) store.nodes

abbrev is_future : ℕ → Option ℕ → Bool
is_future current_time none = false
is_future current_time (some time) = ltb current_time time

abbrev or_zero : Option ℕ → ℕ
or_zero none = 0
or_zero (some time) = time

-- The end of `_advance`, from the executor on.
unfoldable pub begin : World → GraphNode → Node → ℕ → M TickResponse
begin world graph_node node current_time =
    if not (can_launch world graph_node.executor_agent)
    then stop_node graph_node (Labels.unknown_executor (agent_name_of graph_node)) current_time
    else try_except
        (do
          resumable ← query (can_resume node)
          if is_adopted graph_node && not resumable
              then adopt world graph_node
              else start world graph_node node current_time)
        (failure_handler graph_node current_time)

-- Behind the dependencies: the start time, then the workers.
unfoldable pub admit : World → DagSpec → Graph → GraphNode → ℕ → List Node → Node → M TickResponse
admit world spec graph graph_node current_time dependencies node = do
  rows_skipped ← query skipped_rows
  let start_time = get_start_time graph graph_node (rows_skipped ++ (dependencies ++ node ∷ []))
  working ← query (λ store. get_nodes_by_state in_progress store.nodes)
  if is_future current_time start_time
      then record_wait world graph_node (or_zero start_time) >> pure (response 0 0)
      else if leb spec.max_workers (length working)
      then pure (response 0 0)
      else begin world graph_node node current_time

unfoldable pub advance : World → DagSpec → Graph → ℕ → GraphNode → M TickResponse
advance world spec graph current_time graph_node = do
  dependencies ← query (dependency_rows graph graph_node)
  let await_merges : M TickResponse = (do
    found ← query (λ store. read_node graph_node.id store.nodes)
    on_option found (pure (response 0 0))
        (admit world spec graph graph_node current_time dependencies))
  on_option (find_row (λ (row : Node). is_stopped row.state) dependencies)
      (if all (λ (row : Node). row.state == merged) dependencies
        then await_merges
        else pure (response 0 0))
      (λ row. stop_node graph_node (Labels.upstream_stopped row.id) current_time)
