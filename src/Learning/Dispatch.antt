-- ===== src/Learning/Dispatch.antt =====
-- services/learning/learning_dispatch_service.py and learning_prompt_composer.py.
use agentic_dag.Prelude.{
  ℕ, ◌+◌, String, Bool, false, not, List, [], ◌∷◌, map, Option, none, some, ◌==◌, nat_eq,
  if◌then◌else◌, ltb, join,
}
use agentic_dag.Domain.{state_value, Node, NodeAgent, AgentSession, WorkTree, DagSpec}
use agentic_dag.Labels
use agentic_dag.World.{World}
use agentic_dag.Store.{
  M, LockFile, pure, call, query, modify, perform, ◌>>=◌, ◌>>◌, on_option, launched, killed,
  get_by_node_id, get_nodes_by_ids, set_nodes, get_nodes_due_for_learning_extraction,
  record_learnings_extracted,
}
use agentic_dag.Handlers.Response.{TickResponse, response, executor_value}
use agentic_dag.Recovery.Nodes.{get_pr_number}
use agentic_dag.Recovery.Dispatch.{record_notes, bare_graph_node}
use agentic_dag.Learning.Lock.{
  is_free, acquire, record_session_pid, get_live_session_pid, get_session_node_ids, release,
}

-- LearningPromptComposer

abbrev node_section : Option ℕ → Node → List String → List String
node_section none node sections = sections
node_section (some pr_number) node sections =
    Labels.learning_batch_node node.id node.title (state_value node.state) pr_number ∷ sections

unfoldable pub compose_sections : List Node → List NodeAgent → List String
unfolding get_pr_number get_by_node_id
compose_sections [] agents = []
compose_sections (node ∷ nodes) agents =
    node_section (get_pr_number (get_by_node_id node.id agents)) node
      (compose_sections nodes agents)

unfoldable pub compose_prompt : World → List Node → List NodeAgent → String
unfolding compose_sections
compose_prompt world nodes agents =
    Labels.learning_prompt world.repo_slug world.learnings_path world.learning_runbook
      (join "\n" (compose_sections nodes agents))

-- LearningDispatchService

abbrev agent_name : String
agent_name = "learning"

unfoldable pub learning_worktree : World → ℕ → WorkTree
learning_worktree world current_time = record {
  id = none;
  name = agent_name;
  absolute_path = world.learning_home;
  branch = "";
  pr_number = 0;
  pr_url = "";
  head_sha = none;
  marks = [];
  created_at = current_time;
  reclaimed_at = none;
}

unfoldable pub learning_agent : World → DagSpec → ℕ → NodeAgent
unfolding learning_worktree executor_value
learning_agent world dag_spec current_time = record {
  id = agent_name;
  name = executor_value dag_spec.executor_agent;
  resume_token = world.create_session_token;
  node_id = agent_name;
  sessions = [];
  worktree = some (learning_worktree world current_time);
}

unfoldable pub launch_learning : World → DagSpec → String → ℕ → M AgentSession
unfolding learning_agent bare_graph_node
launch_learning world dag_spec prompt current_time = do
  session ← call (
      world.launch (bare_graph_node world agent_name dag_spec.executor_agent) prompt
        (learning_agent world dag_spec current_time))
  perform (launched agent_name prompt)
  pure session

unfoldable pub record_failure : List String → ℕ → ℕ → M (Unit {0})
unfolding get_nodes_by_ids record_notes
record_failure node_ids exit_code current_time = do
  nodes ← query (λ store. get_nodes_by_ids node_ids store.nodes)
  record_notes nodes (Labels.learning_extraction_failed exit_code) current_time

abbrev is_failed_code : Option ℕ → Bool
is_failed_code none = false
is_failed_code (some exit_code) = not (exit_code == 0)

abbrev or_zero : Option ℕ → ℕ
or_zero none = 0
or_zero (some exit_code) = exit_code

-- `_end_finished_session`; the exit file stands beside the path that the worktree names.
unfoldable pub end_finished : World → List String → ℕ → M (Unit {0})
unfolding record_failure learning_worktree release
end_finished world [] current_time = pure tt
end_finished world (id ∷ node_ids) current_time = do
  exit_code ← call (world.find_exit_code (learning_worktree world 0))
  if is_failed_code exit_code
      then record_failure (id ∷ node_ids) (or_zero exit_code) current_time
      else pure tt
  release

unfoldable pub end_finished_session : World → ℕ → M (Unit {0})
unfolding end_finished get_session_node_ids
end_finished_session world current_time = do
  node_ids ← query (λ store. get_session_node_ids store.extraction_lock)
  end_finished world node_ids current_time

-- `128 + signal.SIGKILL`
abbrev killed_code : ℕ
killed_code = 137

unfoldable pub end_overdue : World → DagSpec → ℕ → LockFile → M (Unit {0})
unfolding record_failure release get_live_session_pid get_session_node_ids
end_overdue world dag_spec current_time file =
    if ltb current_time (file.written_at + dag_spec.caps.session_timeout_seconds)
    then pure tt
    else on_option (get_live_session_pid world (some file)) (pure tt) λ pid. do
      call (world.kill pid)
      perform (killed pid)
      record_failure (get_session_node_ids (some file)) killed_code current_time
      release

unfoldable pub end_overdue_session : World → DagSpec → ℕ → M (Unit {0})
unfolding end_overdue
end_overdue_session world dag_spec current_time = do
  file ← query (λ store. store.extraction_lock)
  on_option file (pure tt) (end_overdue world dag_spec current_time)

abbrev pub ids_of : List Node → List String
ids_of = map (λ (node : Node). node.id)

unfoldable pub start_session : World → DagSpec → List Node → ℕ → M TickResponse
unfolding compose_prompt launch_learning record_session_pid record_learnings_extracted record_notes
start_session world dag_spec settled_nodes current_time = do
  prompt ← query (λ store. compose_prompt world settled_nodes store.agents)
  session ← launch_learning world dag_spec prompt current_time
  on_option session.pid (pure tt) (λ pid. record_session_pid world pid (ids_of settled_nodes))
  modify (set_nodes (record_learnings_extracted (ids_of settled_nodes) current_time))
  record_notes settled_nodes Labels.learning_extraction_started current_time
  pure (response 0 1)

unfoldable pub start_batch : World → DagSpec → List Node → ℕ → M TickResponse
unfolding start_session acquire
start_batch world dag_spec [] current_time = pure (response 0 0)
start_batch world dag_spec (node ∷ nodes) current_time = do
  is_acquired ← acquire world
  if is_acquired
      then start_session world dag_spec (node ∷ nodes) current_time
      else pure (response 0 0)

unfoldable pub dispatch : World → DagSpec → ℕ → M TickResponse
unfolding start_batch is_free end_overdue_session end_finished_session
dispatch world dag_spec current_time = do
  may_start ← query (is_free world)
  if not may_start
      then end_overdue_session world dag_spec current_time >> pure (response 0 0)
      else do
        end_finished_session world current_time
        settled_nodes ← query (λ store. get_nodes_due_for_learning_extraction store.nodes)
        start_batch world dag_spec settled_nodes current_time
