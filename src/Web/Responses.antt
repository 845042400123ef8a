-- ===== src/Web/Responses.antt =====
-- The responses of api/web/api_responses that a dag is shown with. A moment is its number of
-- seconds, so setting its timezone to UTC changes nothing.
use agentic_dag.Prelude.{ℕ, String, Bool, List, Option}

pub record NodePreviewResponse : Type 0 where
  pub id : String
  pub title : String
  pub agent_name : String
  pub state : String
  pub depends_on : List String
  pub updated_at : Option ℕ

pub record NodeDetailResponse : Type 0 where
  pub id : String
  pub title : String
  pub agent_name : String
  pub state : String
  pub depends_on : List String
  pub updated_at : Option ℕ
  pub starts_at : Option ℕ
  pub wakes : ℕ
  pub session_id : String
  pub pr_url : String
  pub pr_number : ℕ
  pub worktree_name : String
  pub branch : String

pub record AuditLineResponse : Type 0 where
  pub created_at : ℕ
  pub node_id : String
  pub state : String
  pub note : String

pub record DagSummaryResponse : Type 0 where
  pub name : String
  pub base_branch : String
  pub tick_interval_seconds : ℕ
  pub node_count : ℕ
  pub nodes : List NodePreviewResponse
  pub last_activity_at : Option ℕ
  pub is_scheduled : Bool
  pub is_watching : Bool
  pub is_readable : Bool

pub record DagDetailResponse : Type 0 where
  pub name : String
  pub base_branch : String
  pub tick_interval_seconds : ℕ
  pub node_count : ℕ
  pub nodes : List NodeDetailResponse
  pub last_activity_at : Option ℕ
  pub is_scheduled : Bool
  pub is_watching : Bool
  pub is_readable : Bool
  pub audit : List AuditLineResponse
