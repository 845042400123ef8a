-- ===== src/Domain/Recoveries.antt =====
-- The rows of domain/persistence/entities that recovery and scheduling keep, the commands that a
-- person or an agent gives, and domain/command/exit_code.py. A JSON array in a column is the list
-- that it encodes.
use agentic_dag.Prelude.{
  ℕ, String, Bool, true, false, List, Option, none, some, ltb, not, ◌||◌, ◌==◌, string_eq,
  if◌then◌else◌,
}

pub data ExitCode : Type 0 where
  success failure run_complete run_busy : ExitCode

pub data RecoveryCause : Type 0 where
  turn_cap_reached background_wait_terminated usage_limit provider_failure : RecoveryCause
  process_killed no_pull_request session_overdue workspace_inconsistent : RecoveryCause

unfoldable pub cause_value : RecoveryCause → String
cause_value turn_cap_reached = "turn_cap_reached"
cause_value background_wait_terminated = "background_wait_terminated"
cause_value usage_limit = "usage_limit"
cause_value provider_failure = "provider_failure"
cause_value process_killed = "process_killed"
cause_value no_pull_request = "no_pull_request"
cause_value session_overdue = "overdue"
cause_value workspace_inconsistent = "workspace_inconsistent"

pub record NodeRecovery : Type 0 where
  pub node_id : String
  pub session_id : Option ℕ
  pub detected_at : ℕ
  pub cause : RecoveryCause
  pub recoverable : Bool
  pub recover_at : ℕ
  pub action : String

-- `NodeRecovery.is_due`
unfoldable pub is_due : NodeRecovery → ℕ → Bool
is_due recovery current_time =
    if not recovery.recoverable then false else not (ltb current_time recovery.recover_at)

pub record RecoverySession : Type 0 where
  pub id : Option ℕ
  pub session_token : String
  pub pid : Option ℕ
  pub started_at : ℕ
  pub ended_at : Option ℕ
  pub node_ids : List String

pub record ScheduledJob : Type 0 where
  pub dag_name : String
  pub label : String
  pub argv : List String
  pub interval_seconds : ℕ
  pub working_directory : String
  pub log_path : String
  pub environment : List (String × String)
  pub created_at : ℕ

pub record RecoverCommand : Type 0 where
  pub dag_path : String
  pub node_id : String
  pub cause : RecoveryCause
  pub action : String
  pub recoverable : Bool
  pub recover_at : Option ℕ
  pub restore_marks : Bool
  pub wake_message : String

abbrev waits : RecoveryCause → Bool
waits usage_limit = true
waits provider_failure = true
waits _ = false

-- `RecoverCommand.get_resume_at`
unfoldable pub get_resume_at : RecoverCommand → ℕ → Option ℕ
get_resume_at command current_time =
    if not command.recoverable || not (command.wake_message == "")
    then none
    else if not (waits command.cause)
    then none
    else elim command.recover_at [
      | none ↦ none
      | some time ↦ if ltb current_time time then some time else none
    ]

-- The commands of a person that name a node of a dag.
pub record NodeCommand : Type 0 where
  pub dag_path : String
  pub node_id : String
  -- only a retry reads it
  pub reset : Bool
