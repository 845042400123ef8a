-- ===== src/Handlers/Import.antt =====
-- services/run/adopted_node_importer.py: a node's agent is put on a pull request that already exists.
use agentic_dag.Prelude.{
  String, Bool, true, false, not, [], ◌∷◌, ◌++◌, Option, none, some, ◌==◌, string_eq, if◌then◌else◌,
}
use agentic_dag.Domain.{
  NodeState, in_progress, resting, GraphNode, AgentSession, WorkTree, NodeAgent, pr_adopted,
  pull_request_adopted_event, retry, PullRequestDetails, PrDetails, ExecutorAgent,
}
use agentic_dag.Domain.NodeMethods
use agentic_dag.Labels
use agentic_dag.World.{World}
use agentic_dag.Store.{
  M, raised, unhandled, pure, call, query, modify, perform, ◌>>=◌, ◌>>◌, on_option, launched, woken,
  ensure_rows, read_node, update_state, set_nodes, get_by_node_id, save_agent, save_audit_entry,
  publish,
}
use agentic_dag.Handlers.Response.{executor_value, can_launch}

-- `bool(agent.resume_token)`
abbrev pub has_token : NodeAgent → Bool
has_token agent = not (agent.resume_token == "")

-- The worktree of the pull request, under the recorded worktree's id where there is one. What the new
-- row leaves unset is not written over.
unfoldable pub adopted_worktree : WorkTree → PullRequestDetails → Option NodeAgent → WorkTree
adopted_worktree provisioned pr_details recorded_agent =
    let fresh : WorkTree = record {
      id = none;
      name = provisioned.name;
      absolute_path = provisioned.absolute_path;
      branch = pr_details.head_branch;
      pr_number = pr_details.number;
      pr_url = pr_details.url;
      head_sha = none;
      marks = [];
      created_at = provisioned.created_at;
      reclaimed_at = none;
    } in
    elim recorded_agent [
      | none ↦ fresh
      | some agent ↦ elim agent.worktree [
        | none ↦ fresh
        | some row ↦ record fresh {
          id = row.id;
          head_sha = row.head_sha;
          marks = row.marks;
          reclaimed_at = row.reclaimed_at;
        }
      ]
    ]

abbrev executor_name : Option ExecutorAgent → String
executor_name none = ""
executor_name (some executor_agent) = executor_value executor_agent

unfoldable pub build_agent : World → GraphNode → WorkTree → Option NodeAgent → NodeAgent
unfolding executor_value
build_agent world graph_node worktree none = record {
  id = world.uuid;
  name = executor_name graph_node.executor_agent;
  resume_token = "";
  node_id = graph_node.id;
  sessions = [];
  worktree = some worktree;
}
build_agent world graph_node worktree (some recorded) = record {
  id = recorded.id;
  name = executor_name graph_node.executor_agent;
  resume_token = recorded.resume_token;
  node_id = graph_node.id;
  sessions = recorded.sessions;
  worktree = some worktree;
}

abbrev pub with_session : NodeAgent → AgentSession → NodeAgent
with_session agent session = record agent { sessions = agent.sessions ++ session ∷ [] }

unfoldable pub launch_adopted : World → GraphNode → WorkTree → Option NodeAgent → M NodeAgent
launch_adopted world graph_node worktree recorded_agent =
    let agent = build_agent world graph_node worktree recorded_agent in
    let new_agent = record agent { resume_token = world.create_session_token } in
    let none_runs = call (
      raised (
        unhandled (
          Labels.unknown_executor
            (elim graph_node.executor_agent [ none ↦ "none" | some a ↦ executor_value a ])))) in
    let resumed : M NodeAgent = (do
      session ← call (world.wake graph_node Labels.retry_message agent retry)
      perform (woken graph_node.id Labels.retry_message retry)
      pure (with_session agent session)) in
    let started : M NodeAgent = (do
      session ← call (world.launch graph_node graph_node.instructions new_agent)
      perform (launched graph_node.id graph_node.instructions)
      pure (with_session new_agent session)) in
    if not (can_launch world graph_node.executor_agent)
    then none_runs
    else if has_token agent
    then resumed
    else started

abbrev takeover_reading : PullRequestDetails → PrDetails
takeover_reading pr_details = record {
  number = pr_details.number;
  head_sha = "";
  base_branch = "";
  is_merged = false;
  is_open = true;
  is_conflicted = false;
  is_approved = false;
  title = pr_details.title;
  url = pr_details.url;
  merged_by = "";
  failures = [];
  checks_settled = true;
  artifacts = [];
  is_complete = true;
}

abbrev takeover_note : PullRequestDetails → NodeState → String
takeover_note pr_details resting = Labels.takeover_resuming pr_details.number pr_details.head_branch
takeover_note pr_details _ = Labels.takeover_started pr_details.number pr_details.head_branch

unfoldable pub record_takeover :
    World → GraphNode → PullRequestDetails → NodeAgent → NodeState → M (Unit {0})
record_takeover world graph_node pr_details agent state = do
  let current_time = world.now 0
  modify (set_nodes (ensure_rows (graph_node ∷ []) current_time))
  found ← query (λ store. read_node graph_node.id store.nodes)
  on_option found (pure tt) λ node. (do
    modify (save_agent agent)
    modify (set_nodes (update_state graph_node.id state current_time none))
    modify (
        save_audit_entry (record {
          node_id = graph_node.id;
          state = state;
          note = takeover_note pr_details state;
          created_at = current_time;
        }))
    modify (
        publish (record {
          node_id = graph_node.id;
          type = pr_adopted;
          created_at = current_time;
          updated_at = current_time;
          title = node.title;
          agent_name = NodeMethods.get_agent_name node;
          content = pull_request_adopted_event (takeover_reading pr_details);
        })))

-- `session_token` is falsy where it is absent or empty.
unfoldable pub import_node :
    World → GraphNode → PullRequestDetails → (session_token : String) → M (Unit {0})
import_node world graph_node pr_details session_token = do
  let adopted_node = record graph_node { base_branch = pr_details.head_branch }
  provisioned ← call (world.provision adopted_node)
  recorded_agent ← query (λ store. get_by_node_id graph_node.id store.agents)
  let worktree = adopted_worktree provisioned pr_details recorded_agent
  let handed = build_agent world adopted_node worktree recorded_agent
  let rested =
      record_takeover world adopted_node pr_details (record handed { resume_token = session_token })
        resting
  let started : M (Unit {0}) = (do
    agent ← launch_adopted world adopted_node worktree recorded_agent
    record_takeover world adopted_node pr_details agent in_progress)
  if session_token == "" then started else rested
