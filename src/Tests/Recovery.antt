-- ===== src/Tests/Recovery.antt =====
-- The theorems on recovery, learning and the whole pass at work on the sample run.
use agentic_dag.Prelude.{
  ◌≤◌, ◌≡◌, ◌⊎◌, refl, true, false, [], ◌∷◌, none, some, pos, keep, has_char, any, mem, ◌&&◌, ◌==◌,
  string_eq, if◌then◌else◌, arith,
}
use agentic_dag.Domain.{
  pending, errored, state_eq, RecoverySession, RecoverCommand, no_pull_request,
}
use agentic_dag.Samples.{chain, row, store_with, spec, session, agent, world}
use agentic_dag.Store.{Store, ok, read_node}
use agentic_dag.Store.Nodes.{AreUnique}
use agentic_dag.Store.Counting.{workers}
use agentic_dag.World.{World}
use agentic_dag.Tick.{handle}
use agentic_dag.Tick.Cap.{handle-max_workers}
use agentic_dag.Recovery.Service.{recover}
use agentic_dag.Recovery.Attempts.Cost.{IsPaid, recover-IsPaid}
use agentic_dag.Recovery.Scan.{
  get_recoverable_nodes, get_stopped_nodes, get_retry_at, get_closed_recovery_sessions,
}
use agentic_dag.Recovery.Choice.{IsUnread, is_examined, get_recoverable_nodes-result}
use agentic_dag.Recovery.GivenUp.{is_given_up, given_up_row, get_recoverable_nodes-read}
use agentic_dag.Recovery.Backoff.{backoff, undecided, get_retry_at-backoff}
use agentic_dag.Recovery.Dispatch.{dispatch}
use agentic_dag.Recovery.OneSession.{open_count, open_sessions, dispatch-one_session}
use agentic_dag.Learning.Lines.{is_line}
use agentic_dag.Learning.Lock.{
  held, session_lines, written, get_live_session_pid, get_session_node_ids, get_state,
}
use agentic_dag.Learning.Lock.Recorded.{session-recorded}

-- `a` failed and its session is over.
abbrev failed_run : Store
failed_run = store_with (row "a" errored ∷ row "b" pending ∷ []) (agent ∷ [])

handle-max_workers_example :
    AreUnique (handle world spec "dag.yaml" 100 failed_run).1.nodes
    × ((workers (handle world spec "dag.yaml" 100 failed_run).1.nodes ≤ workers failed_run.nodes)
        ⊎ (workers (handle world spec "dag.yaml" 100 failed_run).1.nodes ≤ spec.max_workers))
unfolding mem
handle-max_workers_example =
    handle-max_workers world spec 100 "dag.yaml" failed_run (refl, (refl, tt))

abbrev command : RecoverCommand
command = record {
  dag_path = "dag.yaml";
  node_id = "a";
  cause = no_pull_request;
  action = "opened it";
  recoverable = true;
  recover_at = none;
  restore_marks = false;
  wake_message = "go on";
}

recover-IsPaid_example :
    let outcome = recover world spec chain command failed_run in
    IsPaid world.commit_attempt "a" failed_run outcome.0 outcome.1
recover-IsPaid_example = recover-IsPaid world spec chain command failed_run

get_recoverable_nodes-result_example :
    ((get_recoverable_nodes world spec 100 failed_run).0
      ≡ ok (keep (is_examined world spec 100 failed_run) (get_stopped_nodes failed_run)))
    × IsUnread failed_run (get_recoverable_nodes world spec 100 failed_run).1
get_recoverable_nodes-result_example = get_recoverable_nodes-result world spec 100 failed_run

-- `a` failed and has no attempt left.
abbrev spent_run : Store
spent_run =
    store_with (record (row "a" errored) { recovery_attempts_allowed = pos 0 } ∷ []) (agent ∷ [])

get_recoverable_nodes-read_example :
    read_node "a" (get_recoverable_nodes world spec 100 spent_run).1.nodes
    ≡ elim (read_node "a" spent_run.nodes) [
      | none ↦ none
      | some found ↦ some (
          if any
            (λ node. is_given_up world spent_run node && node.id == "a")
            (get_stopped_nodes spent_run)
          then given_up_row found 100
          else found)
    ]
get_recoverable_nodes-read_example = get_recoverable_nodes-read world 100 spec spent_run "a"

abbrev examined : RecoverySession
examined = record {
  id = some 4;
  session_token = "token";
  pid = some 12;
  started_at = 20;
  ended_at = some 30;
  node_ids = "a" ∷ [];
}

get_retry_at-backoff_example :
    let sessions = get_closed_recovery_sessions (row "a" errored) session (examined ∷ []) in
    get_retry_at spec none sessions ≡ backoff spec (undecided none sessions)
get_retry_at-backoff_example =
    get_retry_at-backoff spec none (row "a" errored) session (examined ∷ [])

-- One minute, doubled once, after the end of the session.
retry_time :
    get_retry_at spec none (get_closed_recovery_sessions (row "a" errored) session (examined ∷ []))
    ≡ some 150
unfolding get_retry_at get_closed_recovery_sessions
retry_time = refl

none_open : open_count failed_run ≤ 1
unfolding open_count open_sessions keep
none_open = omega arith

dispatch-one_session_example :
    open_count (dispatch world spec (row "a" errored ∷ []) 100 failed_run).1 ≤ 1
dispatch-one_session_example =
    dispatch-one_session world spec 100 (row "a" errored ∷ []) failed_run none_open

-- The process of every session is alive.
abbrev alive_world : World
alive_world = record world { is_process_alive = λ pid started_at. true }

session-recorded_example :
    let file = some (written (session_lines alive_world 11 ("a" ∷ "b" ∷ [])) 6) in
    (get_live_session_pid alive_world file ≡ some 11)
    × (get_session_node_ids file ≡ "a" ∷ "b" ∷ [])
    × (get_state alive_world file ≡ held)
unfolding has_char mem is_line
session-recorded_example =
    session-recorded alive_world 11 5 6 ("a" ∷ "b" ∷ []) refl refl refl refl refl (refl, (refl, tt))
