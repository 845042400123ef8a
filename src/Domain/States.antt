-- ===== src/Domain/States.antt =====
-- domain/node/node_state.py, domain/agent/session_status.py, domain/specs/executor_agent.py and the
-- wake triggers of domain/infra/agent/agent_launcher.py. A row stores `state.value`, a text of its
-- own for each state; the rows of the model hold the state itself.
use agentic_dag.Prelude.{ℕ, String, ◌≡◌, ◌↔◌, Bool, true, [], ◌∷◌, arith, Keyed, nat_beq, mem}

pub data NodeState : Type 0 where
  pending in_progress resting needs_human merged errored skipped : NodeState

abbrev rank : NodeState → ℕ
rank pending = 0
rank in_progress = 1
rank resting = 2
rank needs_human = 3
rank merged = 4
rank errored = 5
rank skipped = 6

abbrev pub state_beq : NodeState → NodeState → Bool
state_beq a b = nat_beq (rank a) (rank b)

pub state_beq_iff : (a b : NodeState) → (state_beq a b ≡ true) ↔ (a ≡ b)
state_beq_iff a b = ground arith

instance abbrev pub state_eq : Keyed NodeState
state_eq = record { same = state_beq; same_iff = state_beq_iff }

-- `state.value`
unfoldable pub state_value : NodeState → String
state_value pending = "pending"
state_value in_progress = "in_progress"
state_value resting = "resting"
state_value needs_human = "needs_human"
state_value merged = "merged"
state_value errored = "errored"
state_value skipped = "skipped"

unfoldable pub is_terminal : NodeState → Bool
unfolding mem
is_terminal state = mem (merged ∷ needs_human ∷ errored ∷ skipped ∷ []) state

-- `_STOPPED` of pending_node_handler.py.
unfoldable pub is_stopped : NodeState → Bool
unfolding mem
is_stopped state = mem (needs_human ∷ errored ∷ []) state

pub data SessionStatus : Type 0 where
  alive finished overdue : SessionStatus

pub data ExecutorAgent : Type 0 where
  claude codex : ExecutorAgent

pub data Trigger : Type 0 where
  launch wake retry recovery : Trigger

abbrev trigger_rank : Trigger → ℕ
trigger_rank launch = 0
trigger_rank wake = 1
trigger_rank retry = 2
trigger_rank recovery = 3

abbrev pub trigger_beq : Trigger → Trigger → Bool
trigger_beq a b = nat_beq (trigger_rank a) (trigger_rank b)

pub trigger_beq_iff : (a b : Trigger) → (trigger_beq a b ≡ true) ↔ (a ≡ b)
trigger_beq_iff a b = ground arith

instance abbrev pub trigger_eq : Keyed Trigger
trigger_eq = record { same = trigger_beq; same_iff = trigger_beq_iff }
