-- ===== src/Recovery/Dispatch.antt =====
-- services/recovery/recovery_dispatch_service.py, recovery_session_killer.py and
-- recovery_prompt_composer.py: one recovery session at a time, with a batch of failed nodes.
pub mod Parts
use agentic_dag.Prelude.{
  ℕ, ◌+◌, String, Bool, true, false, not, ◌&&◌, List, [], ◌∷◌, map, Option, none, some, ◌==◌,
  nat_eq, if◌then◌else◌, ltb, concat, join, show_int,
}
use agentic_dag.Domain.{
  NodeState, state_value, GraphNode, ExecutorAgent, Node, NodeAgent, AgentSession, WorkTree,
  RecoverySession, DagSpec, is_some, text_or,
}
use agentic_dag.Labels
use agentic_dag.World.{World}
use agentic_dag.Store.{
  M, Store, pure, call, query, modify, perform, ◌>>=◌, ◌>>◌, on_option, launched, killed,
  get_by_node_id, get_nodes_by_ids, save_audit_entry,
}
use agentic_dag.Store.Recovery.{
  count_by_node_id, add_recovery_session, close_recovery_session, find_open_session,
}
use agentic_dag.Services.Commands.{latest_session, worktree_of}
use agentic_dag.Handlers.Response.{TickResponse, response, executor_value}
use agentic_dag.Recovery.Scan.{scan_entry}

-- RecoveryPromptComposer

abbrev shown_text : Option String → String
shown_text none = Labels.missing_value
shown_text (some text) = text_or text Labels.missing_value

abbrev shown_code : Option ℕ → String
shown_code none = Labels.missing_value
shown_code (some code) = show_int code

abbrev exit_code_of : Option AgentSession → Option ℕ
exit_code_of none = none
exit_code_of (some session) = session.exit_code

abbrev log_tail_of : Option AgentSession → Option String
log_tail_of none = none
log_tail_of (some session) = session.log_tail

abbrev path_of : Option WorkTree → String
path_of none = Labels.missing_value
path_of (some worktree) = worktree.absolute_path

abbrev branch_of : Option WorkTree → String
branch_of none = Labels.missing_value
branch_of (some worktree) = text_or worktree.branch Labels.missing_value

abbrev shown_pr : Option WorkTree → String
shown_pr none = Labels.missing_value
shown_pr (some worktree) =
    if worktree.pr_number == 0
    then Labels.missing_value
    else concat ("#" ∷ show_int worktree.pr_number ∷ [])

abbrev log_path_of : World → Option WorkTree → String
log_path_of world none = Labels.missing_value
log_path_of world (some worktree) = world.with_log_suffix worktree.absolute_path

abbrev pub transcript_path : World → Option NodeAgent → M (Option String)
transcript_path world none = pure none
transcript_path world (some agent) = call (world.find_transcript agent)

unfoldable pub compose_node_section : World → Node → ℕ → M String
unfolding latest_session
compose_node_section world node attempt_count = do
  agent ← query (λ store. get_by_node_id node.id store.agents)
  transcript ← transcript_path world agent
  let worktree = worktree_of agent
  let session = latest_session agent
  pure (
      Labels.recovery_batch_node node.id (state_value node.state) (path_of worktree)
        (branch_of worktree) (shown_pr worktree) (shown_code (exit_code_of session))
        (log_path_of world worktree) (shown_text transcript) attempt_count
        (shown_text (log_tail_of session)))

unfoldable pub compose_sections : World → List Node → M (List String)
unfolding count_by_node_id compose_node_section
compose_sections world [] = pure []
compose_sections world (node ∷ nodes) = do
  attempt_count ← query (λ store. count_by_node_id node.id store.recoveries)
  section ← compose_node_section world node attempt_count
  sections ← compose_sections world nodes
  pure (section ∷ sections)

unfoldable pub compose_prompt : World → List Node → M String
unfolding compose_sections
compose_prompt world nodes = do
  sections ← compose_sections world nodes
  pure (Labels.recovery_prompt world.dagctl_path world.dag_path world.runbook (join "\n" sections))

-- RecoverySession and RecoverySessionKiller

unfoldable pub is_recovery_alive : World → RecoverySession → Bool
is_recovery_alive world recovery_session = elim recovery_session.pid [
  | none ↦ false
  | some pid ↦ world.is_process_alive pid recovery_session.started_at
]

unfoldable pub close : RecoverySession → ℕ → M (Unit {0})
unfolding close_recovery_session
close recovery_session current_time =
    modify (close_recovery_session (record recovery_session { ended_at = some current_time }))

unfoldable pub kill : World → RecoverySession → ℕ → M (Unit {0})
unfolding is_recovery_alive close
kill world recovery_session current_time = do
  if is_recovery_alive world recovery_session
      then on_option recovery_session.pid (pure tt)
          (λ pid. call (world.kill pid) >> perform (killed pid))
      else pure tt
  close recovery_session current_time

-- RecoveryDispatchService

unfoldable pub record_notes : List Node → String → ℕ → M (Unit {0})
unfolding scan_entry
record_notes [] note current_time = pure tt
record_notes (node ∷ nodes) note current_time = do
  modify (save_audit_entry (scan_entry node node.state note current_time))
  record_notes nodes note current_time

unfoldable pub record_overdue : RecoverySession → ℕ → M (Unit {0})
unfolding record_notes get_nodes_by_ids
record_overdue recovery_session current_time = do
  nodes ← query (λ store. get_nodes_by_ids recovery_session.node_ids store.nodes)
  record_notes nodes Labels.recovery_session_overdue current_time

-- `elapsed_seconds < session_timeout_seconds`, without the subtraction.
unfoldable pub end_open_session : World → DagSpec → ℕ → RecoverySession → M (Unit {0})
unfolding kill record_overdue is_recovery_alive close
end_open_session world dag_spec current_time recovery_session =
    if not (is_recovery_alive world recovery_session)
    then close recovery_session current_time
    else if ltb current_time (recovery_session.started_at + dag_spec.caps.session_timeout_seconds)
    then pure tt
    else kill world recovery_session current_time >> record_overdue recovery_session current_time

abbrev pub agent_name : String
agent_name = "recovery"

unfoldable pub recovery_worktree : World → ℕ → WorkTree
recovery_worktree world current_time = record {
  id = none;
  name = agent_name;
  absolute_path = world.recovery_home;
  branch = "";
  pr_number = 0;
  pr_url = "";
  head_sha = none;
  marks = [];
  created_at = current_time;
  reclaimed_at = none;
}

unfoldable pub recovery_agent : World → DagSpec → ℕ → NodeAgent
unfolding recovery_worktree executor_value
recovery_agent world dag_spec current_time = record {
  id = agent_name;
  name = executor_value dag_spec.executor_agent;
  resume_token = world.create_session_token;
  node_id = agent_name;
  sessions = [];
  worktree = some (recovery_worktree world current_time);
}

-- `GraphNode(id=…, executor_agent=…)`, with the defaults of the class.
unfoldable pub bare_graph_node : World → String → ExecutorAgent → GraphNode
bare_graph_node world id executor_agent = record {
  id = id;
  title = "";
  name = "";
  instructions = "";
  depends_on = [];
  executor_agent = some executor_agent;
  project_root = none;
  workspace_path = world.cwd;
  base_branch = "main";
  cooldown_seconds = 0;
  pr = "";
  recovery_attempts_allowed = world.default_recovery_attempts;
}

unfoldable pub launch_recovery : World → DagSpec → String → List Node → ℕ → M RecoverySession
unfolding recovery_agent bare_graph_node
launch_recovery world dag_spec prompt recoverable_nodes current_time = do
  session ← call (
      world.launch (bare_graph_node world agent_name dag_spec.executor_agent) prompt
        (recovery_agent world dag_spec current_time))
  perform (launched agent_name prompt)
  pure (record {
    id = none;
    session_token = world.create_session_token;
    pid = session.pid;
    started_at = session.started_at;
    ended_at = none;
    node_ids = map (λ (node : Node). node.id) recoverable_nodes;
  })

unfoldable pub start_session : World → DagSpec → List Node → ℕ → M TickResponse
unfolding compose_prompt launch_recovery add_recovery_session record_notes
start_session world dag_spec recoverable_nodes current_time = do
  prompt ← compose_prompt world recoverable_nodes
  recovery_session ← launch_recovery world dag_spec prompt recoverable_nodes current_time
  modify (add_recovery_session recovery_session)
  record_notes recoverable_nodes Labels.recovery_started current_time
  pure (response 0 1)

abbrev pub start_batch : World → DagSpec → List Node → ℕ → M TickResponse
start_batch world dag_spec [] current_time = pure (response 0 0)
start_batch world dag_spec (node ∷ nodes) current_time =
    start_session world dag_spec (node ∷ nodes) current_time

unfoldable pub dispatch : World → DagSpec → List Node → ℕ → M TickResponse
unfolding start_session find_open_session end_open_session
dispatch world dag_spec recoverable_nodes current_time = do
  open_session ← query (λ store. find_open_session store.recovery_sessions)
  on_option open_session (start_batch world dag_spec recoverable_nodes current_time)
      λ recovery_session.
        end_open_session world dag_spec current_time recovery_session >> pure (response 0 0)
