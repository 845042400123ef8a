-- ===== src/Domain/Graphs.antt =====
-- domain/graph/graph.py and graph_node.py, and the specifications of domain/specs that a graph is
-- built from. A path is its text, and `None` is `none`.
use agentic_dag.Prelude.{
  ℕ, String, Bool, not, List, Option, none, some, ◌==◌, string_eq, if◌then◌else◌,
}
use agentic_dag.Domain.States.{ExecutorAgent}

-- Python's `a or b` on texts: the empty text is falsy.
abbrev pub text_or : String → String → String
text_or a b = if a == "" then b else a

-- `a or b` on optional values that are never falsy.
abbrev pub or_else {ℓ} : {A : Type ℓ} → Option A → Option A → Option A
or_else none b = b
or_else (some a) b = some a

pub record GraphNode : Type 0 where
  pub id : String
  pub title : String
  pub name : String
  pub instructions : String
  pub depends_on : List String
  pub executor_agent : Option ExecutorAgent
  pub project_root : Option String
  pub workspace_path : String
  pub base_branch : String
  pub cooldown_seconds : ℕ
  pub pr : String
  pub recovery_attempts_allowed : ℕ

unfoldable pub get_agent_name : GraphNode → String
get_agent_name node = text_or node.name (text_or node.title node.id)

unfoldable pub is_adopted : GraphNode → Bool
is_adopted node = not (node.pr == "")

pub record Graph : Type 0 where
  pub name : String
  pub nodes : List GraphNode
  pub project_root : Option String

pub record AttemptBudget : Type 0 where
  pub node_wakes : ℕ
  pub node_recoveries : ℕ
  pub session_timeout_seconds : ℕ
  pub session_turns : ℕ

pub record NodeSpec : Type 0 where
  pub id : String
  pub depends_on : List String
  pub title : String
  pub name : String
  pub instructions : String
  pub project_root : Option String
  pub workspace_path : Option String
  pub executor_agent : Option ExecutorAgent
  pub base_branch : String
  pub cooldown_seconds : Option ℕ
  pub pr : String
  pub session : String

pub record DagSpec : Type 0 where
  pub name : String
  pub nodes : List NodeSpec
  pub project_root : Option String
  pub workspace_path : Option String
  pub executor_agent : ExecutorAgent
  pub base_branch : String
  pub cooldown_seconds : ℕ
  pub max_workers : ℕ
  pub tick_interval_seconds : ℕ
  pub caps : AttemptBudget
  pub agent_account : String
