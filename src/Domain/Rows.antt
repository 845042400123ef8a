-- ===== src/Domain/Rows.antt =====
-- The persisted rows of domain/persistence/entities, and their methods. A moment is its number of
-- seconds; a column that a row leaves to the database, such as an autoincremented id, is `none`.
-- An agent holds its sessions and its worktree, as the repository loads them in one aggregate.
use agentic_dag.Prelude.{ℕ, suc, String, Bool, true, false, List, [], ◌∷◌, Option, none, some, ℤ}
use agentic_dag.Domain.States.{NodeState, Trigger, wake, launch, retry, trigger_eq, state_eq}

pub record Node : Type 0 where
  pub id : String
  pub title : String
  pub name : String
  pub state : NodeState
  pub created_at : ℕ
  pub updated_at : ℕ
  pub resume_at : Option ℕ
  pub recovery_attempts_allowed : ℤ
  pub pull_request_settled_at : Option ℕ
  pub learnings_extracted_at : Option ℕ

pub record AgentSession : Type 0 where
  pub id : Option ℕ
  pub agent_id : String
  pub started_at : ℕ
  pub ended_at : Option ℕ
  pub end_state : String
  pub triggered_by : Option Trigger
  pub pid : Option ℕ
  pub pid_start : String
  pub exit_code : Option ℕ
  pub log_tail : Option String
  pub marks_before : Option String

pub record WorkTree : Type 0 where
  pub id : Option ℕ
  pub name : String
  pub absolute_path : String
  pub branch : String
  pub pr_number : ℕ
  pub pr_url : String
  pub head_sha : Option String
  pub marks : List (String × String)
  pub created_at : ℕ
  pub reclaimed_at : Option ℕ

pub record NodeAgent : Type 0 where
  pub id : String
  pub name : String
  pub resume_token : String
  pub node_id : String
  pub sessions : List AgentSession
  pub worktree : Option WorkTree

pub record AuditEntry : Type 0 where
  pub node_id : String
  pub state : NodeState
  pub note : String
  pub created_at : ℕ

abbrev pub is_some {ℓ} : {A : Type ℓ} → Option A → Bool
is_some none = false
is_some (some _) = true

-- The last element, `xs[-1]`.
unfoldable pub last? {ℓ} : {A : Type ℓ} → List A → Option A
last? [] = none
last? (x ∷ []) = some x
last? (_ ∷ y ∷ ys) = last? (y ∷ ys)

-- The loop of `count_wakes_since_start` over the sessions, newest first, to its `break`.
unfoldable pub count_wakes_back : List AgentSession → ℕ
count_wakes_back [] = 0
count_wakes_back (session ∷ older) =
    let counted = count_wakes_back older in
    elim session.triggered_by [
      | some launch ↦ 0
      | some retry ↦ 0
      | some wake ↦ suc counted
      | _ ↦ counted
    ]
