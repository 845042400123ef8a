-- ===== src/Domain/Reading.antt =====
-- What the hosting platform says of a pull request: domain/observation, domain/review and
-- domain/run/pr_details.py.
use agentic_dag.Prelude.{ℕ, String, Bool, List, [], not, false, true}

pub data PullRequestState : Type 0 where
  open_state closed_state merged_state : PullRequestState

pub record CheckFailure : Type 0 where
  pub name : String
  pub conclusion : String
  pub run_id : String

pub data ReviewArtifactType : Type 0 where
  issue_comment review_comment review : ReviewArtifactType

pub record ReviewArtifact : Type 0 where
  pub kind : ReviewArtifactType
  pub artifact_id : ℕ
  pub author : String
  pub body : String
  pub created_at : String
  pub path : String
  pub updated_at : String
  pub is_approval : Bool

pub record PrDetails : Type 0 where
  pub number : ℕ
  pub head_sha : String
  pub base_branch : String
  pub is_merged : Bool
  pub is_open : Bool
  pub is_conflicted : Bool
  pub is_approved : Bool
  pub title : String
  pub url : String
  pub merged_by : String
  pub failures : List CheckFailure
  pub checks_settled : Bool
  pub artifacts : List ReviewArtifact
  pub is_complete : Bool

pub record PullRequestSnapshot : Type 0 where
  pub state : PullRequestState
  pub head_sha : String
  pub base_branch : String
  pub merge_commit_sha : String
  pub is_mergeable : Bool
  pub has_changes_requested : Bool
  pub is_approved : Bool
  pub merged_by : String
  pub title : String
  pub url : String
  pub failures : List CheckFailure
  pub checks_settled : Bool
  pub is_complete : Bool

abbrev is_merged_state : PullRequestState → Bool
is_merged_state merged_state = true
is_merged_state _ = false

abbrev is_open_state : PullRequestState → Bool
is_open_state open_state = true
is_open_state _ = false

unfoldable pub to_pr_details : PullRequestSnapshot → ℕ → PrDetails
to_pr_details snapshot number = record {
  number = number;
  head_sha = snapshot.head_sha;
  base_branch = snapshot.base_branch;
  is_merged = is_merged_state snapshot.state;
  is_open = is_open_state snapshot.state;
  is_conflicted = not snapshot.is_mergeable;
  is_approved = snapshot.is_approved;
  title = snapshot.title;
  url = snapshot.url;
  merged_by = snapshot.merged_by;
  failures = snapshot.failures;
  checks_settled = snapshot.checks_settled;
  artifacts = [];
  is_complete = snapshot.is_complete;
}

-- domain/infra/code/pull_request_details.py
pub record PullRequestDetails : Type 0 where
  pub number : ℕ
  pub repository : String
  pub head_branch : String
  pub title : String
  pub url : String
