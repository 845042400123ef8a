-- ===== src/Samples.antt =====
-- A small graph, the tables of a run on it, and answers from outside, for the tests.
use agentic_dag.Prelude.{String, true, false, List, [], ◌∷◌, none, some, pos, ◌==◌, string_eq}
use agentic_dag.Domain.{
  NodeState, GraphNode, Graph, DagSpec, Node, NodeAgent, WorkTree, AgentSession, claude, launch,
  finished, PullRequestSnapshot, merged_state, PullRequestState, PrDetails, ReviewArtifact,
  review_comment,
}
use agentic_dag.Store.{Store, ok, raised, unhandled}
use agentic_dag.World.{World}

abbrev pub graph_node : String → List String → GraphNode
graph_node id depends_on = record {
  id = id;
  title = "";
  name = "";
  instructions = "work";
  depends_on = depends_on;
  executor_agent = some claude;
  project_root = some "/project";
  workspace_path = "/work";
  base_branch = "main";
  cooldown_seconds = 0;
  pr = "";
  recovery_attempts_allowed = 1;
}

-- `c` depends on `b`, and `b` on `a`.
abbrev pub chain : Graph
chain = record {
  name = "chain";
  nodes = graph_node "a" [] ∷ graph_node "b" ("a" ∷ []) ∷ graph_node "c" ("b" ∷ []) ∷ [];
  project_root = some "/project";
}

abbrev pub row : String → NodeState → Node
row id state = record {
  id = id;
  title = "";
  name = "";
  state = state;
  created_at = 1;
  updated_at = 1;
  resume_at = none;
  recovery_attempts_allowed = pos 1;
  pull_request_settled_at = none;
  learnings_extracted_at = none;
}

abbrev pub store_with : List Node → List NodeAgent → Store
store_with nodes agents = record {
  nodes = nodes;
  agents = agents;
  audit_entries = [];
  published = [];
  effects = [];
  next_id = 7;
  recoveries = [];
  recovery_sessions = [];
  jobs = [];
  extraction_lock = none;
}

abbrev pub spec : DagSpec
spec = record {
  name = "chain";
  nodes = [];
  project_root = some "/project";
  workspace_path = none;
  executor_agent = claude;
  base_branch = "main";
  cooldown_seconds = 0;
  max_workers = 1;
  tick_interval_seconds = 60;
  caps = record {
    node_wakes = 3;
    node_recoveries = 1;
    session_timeout_seconds = 60;
    session_turns = 10;
  };
  agent_account = "bot";
}

abbrev pub session : AgentSession
session = record {
  id = none;
  agent_id = "agent";
  started_at = 5;
  ended_at = none;
  end_state = "";
  triggered_by = some launch;
  pid = some 11;
  pid_start = "5";
  exit_code = none;
  log_tail = none;
  marks_before = none;
}

abbrev pub worktree : WorkTree
worktree = record {
  id = some 3;
  name = "wt";
  absolute_path = "/work/wt";
  branch = "topic";
  pr_number = 12;
  pr_url = "https://host/12";
  head_sha = some "abc";
  marks = [];
  created_at = 1;
  reclaimed_at = none;
}

abbrev pub agent : NodeAgent
agent = record {
  id = "agent";
  name = "claude";
  resume_token = "token";
  node_id = "a";
  sessions = session ∷ [];
  worktree = some worktree;
}

abbrev pub snapshot : PullRequestState → PullRequestSnapshot
snapshot state = record {
  state = state;
  head_sha = "def";
  base_branch = "main";
  merge_commit_sha = "";
  is_mergeable = true;
  has_changes_requested = false;
  is_approved = true;
  merged_by = "ann";
  title = "topic";
  url = "https://host/12";
  failures = [];
  checks_settled = true;
  is_complete = true;
}

abbrev pub comment : ReviewArtifact
comment = record {
  kind = review_comment;
  artifact_id = 4;
  author = "ann";
  body = "rename this";
  created_at = "2026-01-02";
  path = "a.py";
  updated_at = "";
  is_approval = false;
}

abbrev pub reading : PrDetails
reading = record {
  number = 12;
  head_sha = "def";
  base_branch = "main";
  is_merged = false;
  is_open = true;
  is_conflicted = true;
  is_approved = true;
  title = "topic";
  url = "https://host/12";
  merged_by = "";
  failures = [];
  checks_settled = true;
  artifacts = comment ∷ [];
  is_complete = true;
}

abbrev pub world : World
world = record {
  has_launcher = λ executor_agent. true;
  launch = λ node brief launched. ok session;
  wake = λ node news woken trigger. ok session;
  supervise = λ supervised. ok finished;
  stop = λ stopped. ok tt;
  provision = λ node. ok worktree;
  get_branch = λ tree. ok "topic";
  remove = λ tree root. ok tt;
  find_pull_request = λ node branch. ok 12;
  get_pull_request = λ node number. ok (snapshot merged_state);
  get_review_artifacts = λ node number. ok (comment ∷ []);
  count_commits_between = λ node base head. ok 2;
  get_pr_details_from_url = λ url. raised (unhandled "no such pull request");
  usage_limit_reset_time = λ executor_agent tree. ok none;
  find_exit_code = λ tree. ok (some 0);
  find_log_tail = λ tree. ok none;
  create_session_token = "token";
  uuid = "agent";
  now = λ k. 100;
  show_time = λ time. "soon";
  is_process_alive = λ pid started_at. false;
  fromisoformat = λ text. 5;
  kill = λ pid. ok tt;
  load_dag = λ path. ok spec;
  workspace_home = "/home/tmp/agentic-dag";
  is_registered = λ job. ok true;
  register = λ job. ok tt;
  retire = λ job. ok tt;
  executable = "/bin/dagctl";
  resolve = λ path. path;
  parent = λ path. "/dag";
  job_environment = [];
  runbook = "look at these";
  dagctl_path = "/bin/dagctl";
  dag_path = "/dag/dag.yaml";
  find_transcript = λ agent. ok none;
  with_log_suffix = λ path. path;
  loads = λ text. [];
  cwd = "/";
  default_recovery_attempts = 3;
  int_of = λ text. some 11;
  is_decimal = λ text. text == "11";
  parse_time = λ text. some 5;
  isoformat = λ time. "2026-01-02";
  process_started_at = λ pid. some 5;
  getpid = 9;
  learning_home = "/learning";
  learning_runbook = "learn";
  learnings_path = "/learnings.md";
  repo_slug = "me/project";
  commit_recovery = ok tt;
  commit_attempt = ok tt;
  recovery_home = "/recovery";
}
