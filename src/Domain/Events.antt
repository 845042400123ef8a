-- ===== src/Domain/Events.antt =====
-- The events of domain/events: the fields that all share, and those that each class adds. The
-- class of an event is the constructor of its `content`.
use agentic_dag.Prelude.{ℕ, String, Option}
use agentic_dag.Domain.Reading.{PrDetails}

pub data NotificationType : Type 0 where
  work_started work_resumed pr_adopted pr_opened pr_updated : NotificationType
  feedback_received feedback_addressed feedback_answered : NotificationType
  conflicts_found conflicts_resolved ci_failed ci_fixed : NotificationType
  agent_failed blocked human_needed retried node_skipped : NotificationType
  approved pr_merged approved_and_merged closed cancelled superseded : NotificationType

pub data EventContent : Type 0 where
  work_started_event work_resumed_event node_retried_event node_skipped_event : EventContent
  agent_stopped_event : (reason log_tail : String) (pr_details : Option PrDetails) → EventContent
  pull_request_opened_event pull_request_merged_event : (pr_details : PrDetails) → EventContent
  pull_request_adopted_event : (pr_details : PrDetails) → EventContent
  commit_pushed_event : (pr_details : PrDetails) (commit_count : ℕ) → EventContent
  comments_added_event : (pr_details : PrDetails) (comment_count : ℕ) → EventContent
  checks_completed_event mergeability_changed_event : (pr_details : PrDetails) → EventContent
  pull_request_approved_event : (pr_details : PrDetails) → EventContent

pub record NodeEvent : Type 0 where
  pub node_id : String
  pub type : NotificationType
  pub created_at : ℕ
  pub updated_at : ℕ
  pub title : String
  pub agent_name : String
  pub content : EventContent
