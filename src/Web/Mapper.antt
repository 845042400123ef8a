-- ===== src/Web/Mapper.antt =====
-- api/web/mappers/dag_mapper.py: the responses for a dag and its nodes. A row's agent is its row in
-- the agents passed beside the rows, and a recorded watcher is passed as whether there is one.
pub mod Activity
pub mod Listing
pub mod PullRequests
pub mod Wakes
use agentic_dag.Prelude.{
  ℕ, String, Bool, true, false, not, ◌||◌, List, [], ◌∷◌, ◌++◌, map, Option, none, some, ◌==◌,
  string_eq, nat_eq, if◌then◌else◌, length, keep, ltb, concat, show_int, has_char, nat_beq,
}
use agentic_dag.Domain.{
  NodeSpec, DagSpec, Node, NodeAgent, WorkTree, AgentSession, AuditEntry, ScheduledJob, Trigger,
  trigger_eq, wake, pending, state_value, text_or, is_some,
}
use agentic_dag.Domain.NodeMethods
use agentic_dag.Store.{find_row, get_by_node_id}
use agentic_dag.World.{World}
use agentic_dag.Web.Responses.{
  NodePreviewResponse, NodeDetailResponse, AuditLineResponse, DagSummaryResponse, DagDetailResponse,
}

-- `{row.id: row for row in rows}.get(id)`: the last row of the id.
unfoldable pub last_row : String → List Node → Option Node
last_row id [] = none
last_row id (row ∷ rows) =
    let later = last_row id rows in
    elim later [ some found ↦ some found | none ↦ if row.id == id then some row else none ]

-- `DagSpec.find_node`
unfoldable pub find_node : DagSpec → String → Option NodeSpec
unfolding find_row
find_node dag_spec node_id = find_row (λ node. node.id == node_id) dag_spec.nodes

-- `NodeSpec.get_agent_name`
unfoldable pub spec_agent_name : NodeSpec → String
spec_agent_name node = text_or node.name (text_or node.title node.id)

unfoldable pub get_updated_at : Option Node → Option ℕ
get_updated_at none = none
get_updated_at (some row) = some row.updated_at

abbrev shown_state : Option Node → String
shown_state none = state_value pending
shown_state (some row) = state_value row.state

unfoldable pub to_declared_node_response : NodeSpec → Option Node → NodePreviewResponse
unfolding spec_agent_name get_updated_at
to_declared_node_response node_spec row = record {
  id = node_spec.id;
  title = node_spec.title;
  agent_name = spec_agent_name node_spec;
  state = shown_state row;
  depends_on = node_spec.depends_on;
  updated_at = get_updated_at row;
}

unfoldable pub to_adopted_node_response : Node → NodePreviewResponse
unfolding NodeMethods.get_agent_name get_updated_at
to_adopted_node_response row = record {
  id = row.id;
  title = row.title;
  agent_name = NodeMethods.get_agent_name row;
  state = state_value row.state;
  depends_on = [];
  updated_at = get_updated_at (some row);
}

abbrev pub is_undeclared : DagSpec → Node → Bool
is_undeclared dag_spec row = not (is_some (find_node dag_spec row.id))

unfoldable pub to_node_responses : DagSpec → List Node → List NodePreviewResponse
unfolding keep find_node last_row to_declared_node_response to_adopted_node_response
to_node_responses dag_spec rows =
    map (λ node_spec. to_declared_node_response node_spec (last_row node_spec.id rows))
      dag_spec.nodes
    ++ map to_adopted_node_response (keep (is_undeclared dag_spec) rows)

-- `max` of a moment that may be None and of the newest of the others.
unfoldable pub newest_of : Option ℕ → Option ℕ → Option ℕ
newest_of none newest = newest
newest_of (some time) none = some time
newest_of (some time) (some later) = some (if ltb time later then later else time)

-- None where no node has a moment.
unfoldable pub find_last_activity : List NodePreviewResponse → Option ℕ
unfolding newest_of
find_last_activity [] = none
find_last_activity (node ∷ nodes) = newest_of node.updated_at (find_last_activity nodes)

unfoldable pub to_response : DagSpec → List Node → Option ScheduledJob → Bool → DagSummaryResponse
unfolding to_node_responses find_last_activity
to_response dag_spec rows scheduled_job has_watcher = record {
  name = dag_spec.name;
  base_branch = dag_spec.base_branch;
  tick_interval_seconds = dag_spec.tick_interval_seconds;
  node_count = length (to_node_responses dag_spec rows);
  nodes = to_node_responses dag_spec rows;
  last_activity_at = find_last_activity (to_node_responses dag_spec rows);
  is_scheduled = is_some scheduled_job;
  is_watching = has_watcher;
  is_readable = true;
}

unfoldable pub to_unreadable_response : DagSpec → DagSummaryResponse
to_unreadable_response dag_spec = record {
  name = dag_spec.name;
  base_branch = dag_spec.base_branch;
  tick_interval_seconds = dag_spec.tick_interval_seconds;
  node_count = 0;
  nodes = [];
  last_activity_at = none;
  is_scheduled = false;
  is_watching = false;
  is_readable = false;
}

abbrev pub is_slash : ℕ → Bool
is_slash code = nat_beq code 47

-- `"/" in text`
abbrev pub has_slash : String → Bool
has_slash = has_char is_slash

-- `text.rsplit("/", 1)[-1]`
unfoldable pub last_segment : String → String
unfolding has_char
last_segment String.[] = ""
last_segment (String.◌∷◌ c text) =
    let rest = last_segment text in
    if has_slash (String.◌∷◌ c text) then rest else String.◌∷◌ c text

abbrev pub declared_pr : Option NodeSpec → String
declared_pr none = ""
declared_pr (some node_spec) = node_spec.pr

unfoldable pub pull_url : String → ℕ → String
unfolding concat
pull_url repo_url number = concat (repo_url ∷ "/pull/" ∷ show_int number ∷ [])

unfoldable pub worktree_pr_url : Option WorkTree → String → String
unfolding pull_url
worktree_pr_url none repo_url = ""
worktree_pr_url (some worktree) repo_url =
    if not (worktree.pr_url == "")
    then worktree.pr_url
    else if (worktree.pr_number == 0) || (repo_url == "")
    then ""
    else pull_url repo_url worktree.pr_number

unfoldable pub get_pr_url : Option NodeSpec → Option WorkTree → String → String
unfolding worktree_pr_url
get_pr_url node_spec worktree repo_url =
    if not (declared_pr node_spec == "")
    then declared_pr node_spec
    else worktree_pr_url worktree repo_url

abbrev pub recorded_pr_number : Option WorkTree → ℕ
recorded_pr_number none = 0
recorded_pr_number (some worktree) = worktree.pr_number

abbrev int_or_zero : Option ℕ → ℕ
int_or_zero none = 0
int_or_zero (some number) = number

-- `int` reads every text that `isdecimal` accepts.
unfoldable pub get_pr_number : World → Option NodeSpec → Option WorkTree → ℕ
unfolding last_segment
get_pr_number world node_spec worktree =
    let segment = last_segment (declared_pr node_spec) in
    if not (recorded_pr_number worktree == 0)
    then recorded_pr_number worktree
    else if world.is_decimal segment
    then int_or_zero (world.int_of segment)
    else 0

abbrev pub is_wake : Option Trigger → Bool
is_wake none = false
is_wake (some trigger) = trigger == wake

unfoldable pub count_wakes : Option NodeAgent → ℕ
unfolding keep
count_wakes none = 0
count_wakes (some agent) =
    length (keep (λ (session : AgentSession). is_wake session.triggered_by) agent.sessions)

abbrev pub agent_of_row : List NodeAgent → Option Node → Option NodeAgent
agent_of_row agents none = none
agent_of_row agents (some row) = get_by_node_id row.id agents

abbrev pub tree_of : Option NodeAgent → Option WorkTree
tree_of none = none
tree_of (some agent) = agent.worktree

unfoldable pub detail_of :
    World
    → NodePreviewResponse
    → Option NodeAgent
    → Option NodeSpec
    → String
    → Option ℕ
    → NodeDetailResponse
unfolding get_pr_url get_pr_number count_wakes
detail_of world preview agent node_spec repo_url start_time = record {
  id = preview.id;
  title = preview.title;
  agent_name = preview.agent_name;
  state = preview.state;
  depends_on = preview.depends_on;
  updated_at = preview.updated_at;
  starts_at = start_time;
  wakes = count_wakes agent;
  session_id = elim agent [ none ↦ "" | some found ↦ found.resume_token ];
  pr_url = get_pr_url node_spec (tree_of agent) repo_url;
  pr_number = get_pr_number world node_spec (tree_of agent);
  worktree_name = elim (tree_of agent) [ none ↦ "" | some tree ↦ tree.name ];
  branch = elim (tree_of agent) [ none ↦ "" | some tree ↦ tree.branch ];
}

module _ (world : World) (dag_spec : DagSpec) (rows : List Node) (agents : List NodeAgent) where
  -- The detail of one preview; `start_times` gives the start time of a node's id.
  unfoldable pub to_node_detail_response :
      String → (String → Option ℕ) → NodePreviewResponse → NodeDetailResponse
  unfolding detail_of last_row find_node
  to_node_detail_response repo_url start_times preview =
      detail_of world preview (agent_of_row agents (last_row preview.id rows))
        (find_node dag_spec preview.id) repo_url (start_times preview.id)

  unfoldable pub to_node_detail_responses : String → (String → Option ℕ) → List NodeDetailResponse
  unfolding to_node_detail_response to_node_responses
  to_node_detail_responses repo_url start_times =
      map (to_node_detail_response repo_url start_times) (to_node_responses dag_spec rows)

unfoldable pub to_audit_response : AuditEntry → AuditLineResponse
to_audit_response audit_entry = record {
  created_at = audit_entry.created_at;
  node_id = audit_entry.node_id;
  state = state_value audit_entry.state;
  note = audit_entry.note;
}

unfoldable pub to_detail_response :
    World
    → DagSpec
    → List Node
    → List NodeAgent
    → Option ScheduledJob
    → Bool
    → List AuditEntry
    → String
    → (String → Option ℕ)
    → DagDetailResponse
unfolding to_node_detail_responses to_node_responses find_last_activity to_audit_response
to_detail_response world dag_spec rows agents scheduled_job has_watcher entries repo_url
      start_times =
    record {
      name = dag_spec.name;
      base_branch = dag_spec.base_branch;
      tick_interval_seconds = dag_spec.tick_interval_seconds;
      node_count =
          length (to_node_detail_responses world dag_spec rows agents repo_url start_times);
      nodes = to_node_detail_responses world dag_spec rows agents repo_url start_times;
      last_activity_at = find_last_activity (to_node_responses dag_spec rows);
      is_scheduled = is_some scheduled_job;
      is_watching = has_watcher;
      is_readable = true;
      audit = map to_audit_response entries;
    }
