-- ===== src/Recovery/Attempts.antt =====
-- What a decision of the recovery agent costs a node.
pub mod Services
pub mod Steps
pub mod Cost
use agentic_dag.Prelude.{
  ℕ, ◌≡◌, ◌⊎◌, refl, sym, ap, ◌∙◌, String, Bool, true, false, not, List, [], ◌∷◌, ◌++◌, map, Option,
  none, some, ◌==◌, string_eq, if◌then◌else◌, arith, inl, inr, Bool-cases, Option-cases, ℤ,
  pred_int, mem,
}
use text.Mathlib.TextEquality.{eq_iff}
use agentic_dag.Domain.{
  NodeState, Node, NodeAgent, AgentSession, DagSpec, Graph, GraphNode, RecoverCommand, NodeRecovery,
  ExitCode, success, failure, NodeEvent, ScheduledJob, WorkTree,
}
use agentic_dag.World.{World}
use agentic_dag.Store.{
  M, Store, Result, ok, raised, Effect, Failure, Result-cases, ◌>>=◌, ◌>>◌, and_then, pure, query,
  perform, modify, on_option, call, try_except, read_node, find_row, update_where, update_state,
  spend_recovery_attempt, set_nodes, record_move, save_audit_entry, publish, add_session,
  advance_marks, update_worktree,
}
use agentic_dag.Store.Nodes.{read-update_state, read_node-id}
use agentic_dag.Store.Moves.{
  Moves, Frame, pure-Moves, query-Moves, call-Moves, bind-Moves, then-Moves, option-Moves, if-Moves,
  try-Moves,
}
use agentic_dag.Store.Recovery.{add_recovery}
use agentic_dag.Services.Schedule.{
  save_job, register, build_job, get_by_dag_name, ensure_registered, announce, keep_scheduled,
}
use agentic_dag.Services.Release.{record_released, release}
use agentic_dag.Recovery.Service

-- The attempts that a node has left, if it has a row.
abbrev pub allowed : Option Node → Option ℤ
allowed none = none
allowed (some row) = some row.recovery_attempts_allowed

unfoldable pub allowance : String → Store → Option ℤ
allowance id store = allowed (read_node id store.nodes)

-- An action that records no recovery and spends no attempt.
unfoldable pub Unspent : Store → Store → Type 0
Unspent store after =
    (after.recoveries ≡ store.recoveries)
    × ((id : String) → allowance id after ≡ allowance id store)

instance pub Unspent-Frame : Frame Unspent
unfolding Unspent
Unspent-Frame = record {
  reflexive = λ store. (refl, λ id. refl);
  transitive = λ a b c first second. (second.0 ∙ first.0, λ id. second.1 id ∙ first.1 id);
}

moved-allowed :
    (here : Bool) (state : NodeState) (at : ℕ) (resume_at : Option ℕ) (found : Option Node)
    → allowed (elim found [
      | none ↦ none
      | some row ↦ some (
          if here
          then record row { state = state; updated_at = at; resume_at = resume_at }
          else row)
    ])
      ≡ allowed found
moved-allowed here state at resume_at none = refl
moved-allowed true state at resume_at (some row) = refl
moved-allowed false state at resume_at (some row) = refl

pub update_state-Unspent :
    (id : String) (state : NodeState) (at : ℕ) (resume_at : Option ℕ) (store : Store)
    → Unspent store (set_nodes (update_state id state at resume_at) store)
unfolding Unspent allowance set_nodes
update_state-Unspent id state at resume_at store = (
  refl,
  λ other.
      ap allowed (read-update_state id other state at resume_at store.nodes)
      ∙ moved-allowed (id == other) state at resume_at (read_node other store.nodes),
)

pub same_nodes :
    (store after : Store)
    → after.nodes ≡ store.nodes
    → after.recoveries ≡ store.recoveries
    → Unspent store after
unfolding Unspent allowance
same_nodes store after nodes recoveries = (recoveries, λ id. rw nodes refl)

pub record_move-Unspent :
    (event : NodeEvent) (state : NodeState) (note : String)
    → Moves Unspent (modify (record_move event state note))
unfolding Unspent allowance record_move set_nodes save_audit_entry publish modify
record_move-Unspent event state note store =
    update_state-Unspent event.node_id state event.created_at none store

pub perform-Unspent : (effect : Effect) → Moves Unspent (perform effect)
unfolding perform
perform-Unspent effect store = same_nodes store _ refl refl
