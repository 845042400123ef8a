-- ===== src/Recovery/Nodes.antt =====
-- domain/persistence/entities/node.py: what a row says of its recovery. A row's `agent` is passed to
-- the methods that read it.
use agentic_dag.Prelude.{
  ℕ, Bool, true, false, not, ◌&&◌, ◌||◌, [], ◌∷◌, Option, none, some, ◌==◌, string_eq, nat_eq, mem,
  if◌then◌else◌, is_positive,
}
use agentic_dag.Domain.{
  errored, needs_human, resting, state_eq, Node, NodeAgent, AgentSession, WorkTree, is_some,
}
use agentic_dag.World.{World}
use agentic_dag.Services.Commands.{latest_session, worktree_of, is_process_dead}

-- `exit_code != 0`, which a missing code passes.
unfoldable pub is_failed_code : Option ℕ → Bool
is_failed_code none = true
is_failed_code (some code) = not (code == 0)

unfoldable pub has_failed_session : Option AgentSession → Bool
unfolding is_failed_code
has_failed_session none = false
has_failed_session (some session) =
    session.end_state == "overdue" || is_failed_code session.exit_code

unfoldable pub has_failed : Node → Option NodeAgent → Bool
unfolding mem has_failed_session latest_session
has_failed node agent =
    if mem (errored ∷ needs_human ∷ []) node.state
    then true
    else if not (node.state == resting)
    then false
    else has_failed_session (latest_session agent)

unfoldable pub can_attempt : Node → Bool
unfolding is_positive
can_attempt node = is_positive node.recovery_attempts_allowed

abbrev is_stopped_session : Option AgentSession → Bool
is_stopped_session none = false
is_stopped_session (some session) = session.end_state == "stopped"

unfoldable pub can_recover : World → Node → Option NodeAgent → Bool
unfolding is_process_dead has_failed can_attempt latest_session
can_recover world node agent =
    if not (is_some (latest_session agent))
    then false
    else is_process_dead world agent
      && (has_failed node agent
          && (can_attempt node && not (is_stopped_session (latest_session agent))))

unfoldable pub is_out_of_attempts : World → Node → Option NodeAgent → Bool
unfolding is_process_dead has_failed can_attempt
is_out_of_attempts world node agent =
    is_process_dead world agent && (has_failed node agent && not (can_attempt node))

abbrev pr_number_of : Option WorkTree → Option ℕ
pr_number_of none = none
pr_number_of (some worktree) = if worktree.pr_number == 0 then none else some worktree.pr_number

unfoldable pub get_pr_number : Option NodeAgent → Option ℕ
get_pr_number agent = pr_number_of (worktree_of agent)
