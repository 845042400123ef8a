-- ===== src/Handlers/Resting.antt =====
-- services/node_state_handlers/resting_node_handler.py. The worktree's `marks` are the object that
-- its JSON text encodes, and `now k` is the k-th reading of the clock in a pass over a node.
pub mod Caps
pub mod News
use agentic_dag.Prelude.{
  ℕ, String, Bool, true, false, not, ◌&&◌, ◌||◌, List, [], ◌∷◌, map, Option, none, some, ◌==◌,
  string_eq, nat_eq, leb, keep, length, join, if◌then◌else◌,
}
use mathlib.Core.List.{reverse}
use agentic_dag.Domain.{
  NodeState, in_progress, needs_human, errored, merged, GraphNode, get_agent_name, DagSpec,
  AgentSession, WorkTree, NodeAgent, NodeEvent, EventContent, NotificationType, human_needed,
  agent_failed, work_resumed, feedback_received, ci_failed, conflicts_found, approved, pr_merged,
  approved_and_merged, agent_stopped_event, work_resumed_event, comments_added_event,
  checks_completed_event, mergeability_changed_event, pull_request_approved_event,
  pull_request_merged_event, PrDetails, PullRequestSnapshot, PullRequestState, open_state,
  closed_state, merged_state, to_pr_details, wake, count_wakes_back,
}
use agentic_dag.Domain.NodeMethods.{has_pull_request_settled}
use agentic_dag.Labels
use agentic_dag.Signals.{SignalChange, render, advanced, detect_all, pr_signals}
use agentic_dag.World.{World}
use agentic_dag.Store.{
  M, Store, Failure, base_branch_missing, worktree_conflict, worktree_error, observation_error,
  os_error, unhandled, pure, call, query, modify, perform, try_except, ◌>>=◌, ◌>>◌, on_option,
  woken, read_node, get_nodes_by_state, set_nodes, record_pull_request_settled, get_by_node_id,
  add_session, save_worktree, advance_marks, publish, record_move,
}
use agentic_dag.Handlers.Response.{TickResponse, response, can_launch}

unfoldable pub count_wakes_since_start : NodeAgent → ℕ
unfolding count_wakes_back
count_wakes_since_start agent = count_wakes_back (reverse agent.sessions)

-- The fields of every event that the handler builds.
unfoldable pub event_at : GraphNode → NotificationType → ℕ → EventContent → NodeEvent
unfolding get_agent_name
event_at graph_node type current_time content = record {
  node_id = graph_node.id;
  type = type;
  created_at = current_time;
  updated_at = current_time;
  title = graph_node.title;
  agent_name = get_agent_name graph_node;
  content = content;
}

unfoldable pub stopped_event :
    World → GraphNode → NotificationType → String → Option PrDetails → NodeEvent
unfolding event_at
stopped_event world graph_node type reason pr_details =
    event_at graph_node type (world.now 1) (agent_stopped_event reason "" pr_details)

unfoldable pub get_signal_event : World → GraphNode → SignalChange → PrDetails → Option NodeEvent
unfolding event_at
get_signal_event world graph_node change pr_details = elim change.notification [
  | some feedback_received ↦ some (
      event_at graph_node feedback_received (world.now 2)
        (comments_added_event pr_details change.count))
  | some ci_failed ↦
      some (event_at graph_node ci_failed (world.now 2) (checks_completed_event pr_details))
  | some conflicts_found ↦
      some
        (event_at graph_node conflicts_found (world.now 2) (mergeability_changed_event pr_details))
  | some approved ↦
      some (event_at graph_node approved (world.now 2) (pull_request_approved_event pr_details))
  | _ ↦ none
]

unfoldable pub publish_news : World → GraphNode → List SignalChange → PrDetails → M (Unit {0})
unfolding get_signal_event
publish_news world graph_node [] pr_details = pure tt
publish_news world graph_node (change ∷ changes) pr_details =
    on_option (get_signal_event world graph_node change pr_details) (pure tt)
      (λ node_event. modify (publish node_event))
    >> publish_news world graph_node changes pr_details

unfoldable pub record_settled : World → GraphNode → M (Unit {0})
unfolding has_pull_request_settled
record_settled world graph_node = do
  found ← query (λ store. read_node graph_node.id store.nodes)
  on_option found (pure tt) λ node.
      if not (has_pull_request_settled node)
      then modify (set_nodes (record_pull_request_settled node.id (world.now 0)))
      else pure tt

unfoldable pub merged_note : PullRequestSnapshot → String
merged_note snapshot =
    if snapshot.merged_by == ""
    then Labels.pull_request_merged
    else Labels.merged_by_label snapshot.merged_by

unfoldable pub record_merged : World → GraphNode → WorkTree → PullRequestSnapshot → M TickResponse
unfolding merged_note event_at to_pr_details
record_merged world graph_node worktree snapshot = do
  let kind = if snapshot.is_approved then approved_and_merged else pr_merged
  let node_event =
      event_at graph_node kind (world.now 1)
        (pull_request_merged_event (to_pr_details snapshot worktree.pr_number))
  modify (record_move node_event merged (merged_note snapshot))
  pure (response 1 0)

unfoldable pub record_closed : World → GraphNode → WorkTree → PullRequestSnapshot → M TickResponse
unfolding stopped_event to_pr_details
record_closed world graph_node worktree snapshot = do
  let details = some (to_pr_details snapshot worktree.pr_number)
  modify (
      record_move (stopped_event world graph_node human_needed Labels.closed_unmerged details)
        needs_human Labels.closed_unmerged)
  pure (response 1 0)

unfoldable pub out_of_wakes : World → GraphNode → PrDetails → M TickResponse
unfolding stopped_event
out_of_wakes world graph_node pr_details = do
  modify (
      record_move
        (stopped_event world graph_node human_needed Labels.out_of_wakes (some pr_details))
        needs_human Labels.out_of_wakes)
  pure (response 1 0)

-- `_wake`, behind its two caps.
unfoldable pub resume :
    World → GraphNode → NodeAgent → WorkTree → List SignalChange → PrDetails → M TickResponse
unfolding event_at get_agent_name
resume world graph_node agent worktree waking_changes pr_details = do
  let news = join "\n\n" (map render waking_changes)
  launched ← call (world.wake graph_node news agent wake)
  perform (woken graph_node.id news wake)
  modify (add_session launched)
  modify (save_worktree (record worktree { head_sha = some pr_details.head_sha }))
  modify (
      record_move (event_at graph_node work_resumed (world.now 1) work_resumed_event) in_progress
        (Labels.resumed_work (get_agent_name graph_node)))
  pure (response 1 1)

unfoldable pub wake_agent :
    World
    → DagSpec
    → GraphNode
    → NodeAgent
    → WorkTree
    → List SignalChange
    → PrDetails
    → M TickResponse
unfolding count_wakes_since_start
wake_agent world spec graph_node agent worktree waking_changes pr_details =
    if leb spec.caps.node_wakes (count_wakes_since_start agent)
    then out_of_wakes world graph_node pr_details
    else do
      in_progress_nodes ← query (λ store. get_nodes_by_state in_progress store.nodes)
      if leb spec.max_workers (length in_progress_nodes)
          then pure (response 0 0)
          else resume world graph_node agent worktree waking_changes pr_details

abbrev pub is_nil {ℓ} : {A : Type ℓ} → List A → Bool
is_nil [] = true
is_nil (_ ∷ _) = false

-- The end of `_observe`: the watermarks go forward, and the news goes out.
unfoldable pub tell :
    World → GraphNode → WorkTree → List SignalChange → PrDetails → TickResponse → M TickResponse
tell world graph_node marked_worktree changes pr_details tick_response = do
  modify (advance_marks marked_worktree)
  publish_news world graph_node changes pr_details
  pure tick_response

-- Where no session starts, the watermarks stay, and the next pass finds the same changes.
unfoldable pub wake_and_tell :
    World
    → DagSpec
    → GraphNode
    → NodeAgent
    → WorkTree
    → (waking_changes changes : List SignalChange) → PrDetails
    → M TickResponse
wake_and_tell world spec graph_node agent marked_worktree waking_changes changes pr_details = do
  tick_response ← wake_agent world spec graph_node agent marked_worktree waking_changes pr_details
  if tick_response.sessions_started == 0
      then pure tick_response
      else tell world graph_node marked_worktree changes pr_details tick_response

-- `_observe` from the changes on.
unfoldable pub report :
    World
    → DagSpec
    → GraphNode
    → NodeAgent
    → WorkTree
    → List SignalChange
    → PrDetails
    → M TickResponse
unfolding keep advanced
report world spec graph_node agent worktree changes pr_details =
    let marked_worktree = record worktree { marks = advanced worktree.marks changes } in
    let waking_changes = keep (λ (change : SignalChange). change.wakes_node) changes in
    if is_nil changes
    then pure (response 0 0)
    else if is_nil waking_changes
    then tell world graph_node marked_worktree changes pr_details (response 1 0)
    else wake_and_tell world spec graph_node agent marked_worktree waking_changes changes pr_details

-- `_observe` on a pull request that is open.
unfoldable pub observe_open :
    World → DagSpec → GraphNode → NodeAgent → WorkTree → PullRequestSnapshot → M TickResponse
unfolding to_pr_details
observe_open world spec graph_node agent worktree snapshot = do
  artifacts ← call (world.get_review_artifacts graph_node worktree.pr_number)
  let pr_details = record (to_pr_details snapshot worktree.pr_number) { artifacts = artifacts }
  report world spec graph_node agent worktree
      (detect_all (pr_signals spec.agent_account) pr_details worktree.marks) pr_details

-- `_observe` by the state of a pull request that was read completely.
unfoldable pub act_on :
    World
    → DagSpec
    → GraphNode
    → NodeAgent
    → WorkTree
    → PullRequestSnapshot
    → PullRequestState
    → M TickResponse
act_on world spec graph_node agent worktree snapshot merged_state =
    record_settled world graph_node >> record_merged world graph_node worktree snapshot
act_on world spec graph_node agent worktree snapshot closed_state =
    record_settled world graph_node >> record_closed world graph_node worktree snapshot
act_on world spec graph_node agent worktree snapshot open_state =
    observe_open world spec graph_node agent worktree snapshot

unfoldable pub observe : World → DagSpec → GraphNode → NodeAgent → WorkTree → M TickResponse
observe world spec graph_node agent worktree = do
  snapshot ← call (world.get_pull_request graph_node worktree.pr_number)
  if not snapshot.is_complete
      then pure (response 0 0)
      else act_on world spec graph_node agent worktree snapshot snapshot.state

-- `except (WorktreeError, ObservationError, OSError)`
unfoldable pub failure_handler : Failure → Option (M TickResponse)
failure_handler (base_branch_missing _) = some (pure (response 0 0))
failure_handler (worktree_conflict _) = some (pure (response 0 0))
failure_handler (worktree_error _) = some (pure (response 0 0))
failure_handler (observation_error _) = some (pure (response 0 0))
failure_handler (os_error _) = some (pure (response 0 0))
failure_handler (unhandled _) = none

unfoldable pub never_started : World → GraphNode → M TickResponse
unfolding stopped_event
never_started world graph_node = do
  modify (
      record_move (stopped_event world graph_node agent_failed Labels.session_never_started none)
        errored Labels.session_never_started)
  pure (response 1 0)

unfoldable pub advance : World → DagSpec → GraphNode → M TickResponse
unfolding can_launch
advance world spec graph_node = do
  found ← query (λ store. get_by_node_id graph_node.id store.agents)
  on_option found (never_started world graph_node) λ agent.
      on_option agent.worktree (never_started world graph_node) λ worktree.
        if worktree.pr_number == 0 || not (can_launch world graph_node.executor_agent)
        then pure (response 0 0)
        else try_except (observe world spec graph_node agent worktree) failure_handler
