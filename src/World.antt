-- ===== src/World.antt =====
-- What a handler is given from outside the run: the agent products behind
-- domain/infra/agent/agent_launcher.py, the hosting platform behind domain/infra/code/code_repo.py,
-- git behind domain/infra/workspace/workspace.py, the files beside a worktree, and the clock. Each is
-- a parameter: a record of one answer for each call. A call that can fail answers with a result, and
-- `now k` is the k-th reading of the clock.
use agentic_dag.Prelude.{ℕ, String, Bool, List, Option}
use agentic_dag.Domain.{
  ExecutorAgent, GraphNode, AgentSession, WorkTree, NodeAgent, Trigger, SessionStatus,
  PullRequestSnapshot, ReviewArtifact, PullRequestDetails, DagSpec, ScheduledJob,
}
use agentic_dag.Store.{Result}

pub record World : Type 0 where
  -- `self._agent_launchers.get(executor_agent) is not None`
  pub has_launcher : ExecutorAgent → Bool
  pub launch : GraphNode → String → NodeAgent → Result AgentSession
  pub wake : GraphNode → String → NodeAgent → Trigger → Result AgentSession
  pub supervise : AgentSession → Result SessionStatus
  pub stop : AgentSession → Result (Unit {0})
  pub provision : GraphNode → Result WorkTree
  pub get_branch : WorkTree → Result String
  pub remove : WorkTree → String → Result (Unit {0})
  pub find_pull_request : GraphNode → String → Result ℕ
  pub get_pull_request : GraphNode → ℕ → Result PullRequestSnapshot
  pub get_review_artifacts : GraphNode → ℕ → Result (List ReviewArtifact)
  pub count_commits_between : GraphNode → (base_sha head_sha : String) → Result ℕ
  pub get_pr_details_from_url : String → Result PullRequestDetails
  -- `_get_usage_limit_reset_time`
  pub usage_limit_reset_time : ExecutorAgent → WorkTree → Result (Option ℕ)
  pub find_exit_code : WorkTree → Result (Option ℕ)
  pub find_log_tail : WorkTree → Result (Option String)
  pub create_session_token : String
  pub uuid : String
  pub now : ℕ → ℕ
  -- The text of a moment in a label.
  pub show_time : ℕ → String
  -- `utils/process.is_process_alive`, by the process's id and the moment it started
  pub is_process_alive : (pid started_at : ℕ) → Bool
  -- `datetime.fromisoformat`
  pub fromisoformat : String → ℕ
  -- domain/infra/host/process_killer.py
  pub kill : (pid : ℕ) → Result (Unit {0})
  -- `DagLoader.load`
  pub load_dag : (dag_path : String) → Result DagSpec
  pub workspace_home : String
  -- domain/infra/scheduling/scheduler.py
  pub is_registered : ScheduledJob → Result Bool
  pub register : ScheduledJob → Result (Unit {0})
  pub retire : ScheduledJob → Result (Unit {0})
  -- What `ScheduledJobBuilder` asks of the host.
  pub executable : String
  pub resolve : String → String
  pub parent : String → String
  pub job_environment : List (String × String)
  -- The text of recovery_runbook.md, and the paths that a recovery prompt names.
  pub runbook : String
  pub dagctl_path : String
  pub dag_path : String
  pub find_transcript : NodeAgent → Result (Option String)
  -- `Path.with_suffix(".log")`
  pub with_log_suffix : String → String
  -- `json.loads` of a column of watermarks
  pub loads : String → List (String × String)
  pub cwd : String
  pub default_recovery_attempts : ℕ
  pub recovery_home : String
  -- `int(text)`, `datetime.fromisoformat(text)` and `isoformat`, `none` where they raise a ValueError
  pub int_of : String → Option ℕ
  -- `text.isdecimal()`
  pub is_decimal : String → Bool
  pub parse_time : String → Option ℕ
  pub isoformat : ℕ → String
  -- `utils/process.get_process_started_at`
  pub process_started_at : (pid : ℕ) → Option ℕ
  pub getpid : ℕ
  -- What a learning prompt names.
  pub learning_home : String
  pub learning_runbook : String
  pub learnings_path : String
  pub repo_slug : String
  -- Whether the database takes the row of a recovery, and whether it takes what the recovery costs
  -- its node. They are two statements, each in a session of its own.
  pub commit_recovery : Result (Unit {0})
  pub commit_attempt : Result (Unit {0})
