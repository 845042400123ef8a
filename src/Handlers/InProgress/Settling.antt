-- ===== src/Handlers/InProgress/Settling.antt =====
-- What a pass over a working node may do to the rows.
use agentic_dag.Prelude.{
  ℕ, ◌≡◌, refl, String, Bool, true, false, none, some, ◌==◌, string_eq, nat_eq,
}
use agentic_dag.Domain.{
  NodeState, pending, in_progress, needs_human, errored, resting, merged, skipped, state_eq,
  GraphNode, WorkTree, AgentSession, SessionStatus, alive, finished, overdue, PrDetails, last?,
}
use agentic_dag.World.{World}
use agentic_dag.Store.{
  M, Store, Failure, base_branch_missing, worktree_conflict, worktree_error, observation_error,
  os_error, unhandled, read_node, close_session_row, record_publication, update_worktree,
}
use agentic_dag.Store.Touch.{
  Writes-handled, kept, moved, Writes, Writes-other, Writes-try, Writes-bind, Writes-then,
  Writes-option, Writes-if, Writes-query, Writes-call, Writes-pure, Writes-perform,
  Writes-record_move, Writes-set_nodes, Writes-save_audit_entry,
}
use agentic_dag.Store.Reach.{Touch-frame}
use agentic_dag.Handlers.Response.{TickResponse}
use agentic_dag.Handlers.InProgress.{
  close_session, wait_until, wait_for_usage_limit, get_pr_details, count_pushed_commits,
  record_stopped, record_resting, find_number, settle_work, settle, stop_and_settle,
  failure_handler, never_started, supervise, advance, event_at, stopped_event, published_event,
  stop_state,
}

-- The states that a working node is moved to.
abbrev pub Settles : NodeState → Type 0
Settles pending = Unit
Settles resting = Unit
Settles needs_human = Unit
Settles errored = Unit
Settles _ = ⊥

stop_state-Settles : (status : SessionStatus) → Settles (stop_state status)
stop_state-Settles alive = tt
stop_state-Settles finished = tt
stop_state-Settles overdue = tt

pub Settles-idle : (state : NodeState) → Settles state → (state == in_progress) ≡ false
Settles-idle pending settles = refl
Settles-idle resting settles = refl
Settles-idle needs_human settles = refl
Settles-idle errored settles = refl
Settles-idle in_progress settles = elim settles [ ]
Settles-idle merged settles = elim settles [ ]
Settles-idle skipped settles = elim settles [ ]

module _ (world : World) (graph_node : GraphNode) where
  close_session-Writes :
      (session : AgentSession) (worktree : WorkTree) (status : SessionStatus) (end_state : String)
      → Writes graph_node.id Settles (close_session world session worktree status end_state)
  unfolding close_session close_session_row
  close_session-Writes session worktree status end_state = Writes-bind (Writes-call _) λ exit_code.
      Writes-bind (Writes-call _)
        λ log_tail. Writes-then (Writes-other _ λ store. refl) (Writes-pure _)

  wait_until-Writes :
      (resume_at : ℕ) (note : String) (now : ℕ)
      → Writes graph_node.id Settles (wait_until graph_node.id resume_at note now)
  unfolding wait_until
  wait_until-Writes resume_at note now =
      Writes-then (Writes-set_nodes _ λ nodes. moved pending now (some resume_at) kept tt refl)
        (Writes-save_audit_entry _)

  wait_for_usage_limit-Writes :
      (session : AgentSession) (worktree : WorkTree) (status : SessionStatus)
      → Writes graph_node.id Settles (wait_for_usage_limit world graph_node session worktree status)
  unfolding wait_for_usage_limit
  wait_for_usage_limit-Writes session worktree status =
      Writes-option graph_node.executor_agent (Writes-pure false) λ executor_agent.
        Writes-bind (Writes-call _) λ reset. Writes-option reset (Writes-pure false) λ reset_time.
          Writes-bind (close_session-Writes session worktree status "usage_limit")
            λ closed. Writes-then (wait_until-Writes reset_time _ _) (Writes-pure true)

  get_pr_details-Writes :
      (number : ℕ) → Writes graph_node.id Settles (get_pr_details world graph_node number)
  unfolding get_pr_details
  get_pr_details-Writes number =
      Writes-if _ (Writes-pure none) (Writes-bind (Writes-call _) λ snapshot. Writes-pure _)

  count_pushed_commits-Writes :
      (worktree : WorkTree) (pr_details : PrDetails)
      → Writes graph_node.id Settles (count_pushed_commits world graph_node worktree pr_details)
  unfolding count_pushed_commits
  count_pushed_commits-Writes worktree pr_details =
      Writes-option worktree.head_sha (Writes-pure 0)
        λ started_sha. Writes-if _ (Writes-pure 0) (Writes-call _)

  record_stopped-Writes :
      (session : AgentSession) (status : SessionStatus)
      → Writes graph_node.id Settles (record_stopped world graph_node session status)
  unfolding record_stopped stopped_event event_at
  record_stopped-Writes session status =
      Writes-then (Writes-record_move _ (stop_state status) _ refl (stop_state-Settles status))
        (Writes-pure _)

  published_event-node_id :
      (pr_details : PrDetails) (count : ℕ) (first : Bool)
      → (published_event world graph_node pr_details count first).node_id ≡ graph_node.id
  unfolding published_event event_at
  published_event-node_id pr_details count true = refl
  published_event-node_id pr_details count false = refl

  record_resting-Writes :
      (worktree : WorkTree) (branch : String) (pr_details : PrDetails) (count : ℕ)
      (status : SessionStatus)
      → Writes graph_node.id Settles
          (record_resting world graph_node worktree branch pr_details count status)
  unfolding record_resting record_publication update_worktree
  record_resting-Writes worktree branch pr_details count status =
      Writes-then (Writes-other _ λ store. refl) (
        Writes-then
          (Writes-record_move _ resting _
            (published_event-node_id pr_details count (worktree.pr_number == 0)) tt)
          (Writes-pure _))

  find_number-Writes :
      (branch : String) → Writes graph_node.id Settles (find_number world graph_node branch)
  unfolding find_number
  find_number-Writes branch = Writes-if _ (Writes-pure 0) (Writes-call _)

  settle_work-Writes :
      (session : AgentSession) (worktree : WorkTree) (status : SessionStatus)
      → Writes graph_node.id Settles (settle_work world graph_node session worktree status)
  unfolding settle_work
  settle_work-Writes session worktree status = Writes-bind (Writes-call _) λ checked_out.
      Writes-bind (find_number-Writes _) λ number. Writes-bind (get_pr_details-Writes _) λ found.
        Writes-bind (close_session-Writes session worktree status "") λ closed.
          Writes-option found (record_stopped-Writes closed status) λ pr_details.
            Writes-bind (count_pushed_commits-Writes worktree pr_details)
              λ count. record_resting-Writes worktree _ pr_details count status

  settle-Writes :
      (session : AgentSession) (worktree : WorkTree) (status : SessionStatus)
      → Writes graph_node.id Settles (settle world graph_node session worktree status)
  unfolding settle
  settle-Writes session worktree status =
      Writes-bind (wait_for_usage_limit-Writes session worktree status) λ is_waiting.
        Writes-if is_waiting (Writes-pure _) (settle_work-Writes session worktree status)

  stop_and_settle-Writes :
      (session : AgentSession) (worktree : WorkTree) (status : SessionStatus)
      → Writes graph_node.id Settles (stop_and_settle world graph_node session worktree status)
  unfolding stop_and_settle
  stop_and_settle-Writes session worktree status =
      Writes-if _
        (Writes-then (Writes-call _) (
          Writes-then (Writes-perform _) (
            Writes-bind (close_session-Writes session worktree status "")
              λ closed. settle-Writes closed worktree status)))
        (settle-Writes session worktree status)

  failure_handler-Writes :
      (failure : Failure) (m : M TickResponse)
      → failure_handler failure ≡ some m
      → Writes graph_node.id Settles m
  unfolding failure_handler
  failure_handler-Writes (base_branch_missing _) m e = Writes-handled e (Writes-pure _)
  failure_handler-Writes (worktree_conflict _) m e = Writes-handled e (Writes-pure _)
  failure_handler-Writes (worktree_error _) m e = Writes-handled e (Writes-pure _)
  failure_handler-Writes (observation_error _) m e = Writes-handled e (Writes-pure _)
  failure_handler-Writes (os_error _) m e = Writes-handled e (Writes-pure _)
  failure_handler-Writes (unhandled _) m e = cc

  never_started-Writes : Writes graph_node.id Settles (never_started world graph_node)
  unfolding never_started stopped_event event_at
  never_started-Writes = Writes-then (Writes-record_move _ errored _ refl tt) (Writes-pure _)

  supervise-Writes :
      (session : AgentSession) (worktree : WorkTree)
      → Writes graph_node.id Settles (supervise world graph_node session worktree)
  unfolding supervise
  supervise-Writes session worktree = Writes-if _ (Writes-pure _) (
      Writes-bind (Writes-call _) λ status.
        Writes-if _ (Writes-pure _)
          (Writes-try (stop_and_settle-Writes session worktree status) failure_handler-Writes))

  pub advance-Writes : Writes graph_node.id Settles (advance world graph_node)
  unfolding advance
  advance-Writes = Writes-bind (Writes-query _) λ found.
      Writes-option found never_started-Writes λ agent.
        Writes-option (last? agent.sessions) never_started-Writes λ session.
          Writes-option agent.worktree never_started-Writes
            λ worktree. supervise-Writes session worktree

  -- A pass over a working node leaves the rows of the other nodes as they are.
  pub advance_in_progress-read_node :
      (store : Store) (other : String)
      → (graph_node.id == other) ≡ false
      → read_node other (advance world graph_node store).1.nodes ≡ read_node other store.nodes
  advance_in_progress-read_node store other = Touch-frame other (advance-Writes.apply store)
