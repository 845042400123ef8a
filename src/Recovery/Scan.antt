-- ===== src/Recovery/Scan.antt =====
-- services/recovery/recovery_scan_service.py: the failed nodes that a recovery agent should examine.
-- A pass of the scan writes no agent, no recovery and no recovery session.
use agentic_dag.Prelude.{
  ℕ, ◌+◌, ◌*◌, String, Bool, true, false, not, ◌&&◌, List, [], ◌∷◌, ◌++◌, Option, none, some, ◌==◌,
  string_eq, mem, keep, any, if◌then◌else◌, leb, min,
}
use agentic_dag.Domain.{
  NodeState, errored, needs_human, resting, state_eq, Node, NodeAgent, AgentSession, AuditEntry,
  NodeRecovery, RecoverySession, DagSpec, is_some, is_due,
}
use agentic_dag.Domain.NodeMethods.{is_needing_human}
use agentic_dag.Labels
use agentic_dag.World.{World}
use agentic_dag.Store.{
  M, Store, pure, query, modify, ◌>>=◌, ◌>>◌, set_nodes, update_state, save_audit_entry,
  get_by_node_id, get_nodes_by_state,
}
use agentic_dag.Store.Recovery.{
  get_newest_recovery_by_session_id, count_by_node_id, all_newest_first,
}
use agentic_dag.Services.Commands.{latest_session}
use agentic_dag.Recovery.Nodes.{can_recover, is_out_of_attempts, get_pr_number}

-- `_get_closed_recovery_sessions`

unfoldable pub is_closed_for : Node → AgentSession → RecoverySession → Bool
unfolding mem
is_closed_for node latest recovery_session =
    is_some recovery_session.ended_at
    && (leb latest.started_at recovery_session.started_at && mem recovery_session.node_ids node.id)

unfoldable pub get_closed_recovery_sessions :
    Node → AgentSession → List RecoverySession → List RecoverySession
unfolding keep is_closed_for all_newest_first
get_closed_recovery_sessions node latest sessions =
    keep (is_closed_for node latest) (all_newest_first sessions)

-- `_get_retry_at`

-- `detected_at >= session_started_at`
unfoldable pub is_detected_since : Option NodeRecovery → RecoverySession → Bool
is_detected_since none recovery_session = false
is_detected_since (some recovery) recovery_session =
    leb recovery_session.started_at recovery.detected_at

abbrev first_ended : Option ℕ → Option ℕ → Option ℕ
first_ended none ended_at = ended_at
first_ended (some last) ended_at = some last

-- The loop, on `last_ended_at` and `delay_seconds`, to its `break`.
unfoldable pub count_back : Option NodeRecovery → List RecoverySession → Option ℕ → ℕ → Option ℕ × ℕ
unfolding is_detected_since
count_back newest_recovery [] last_ended_at delay_seconds = (last_ended_at, delay_seconds)
count_back newest_recovery (recovery_session ∷ older) last_ended_at delay_seconds =
    let rest =
      count_back newest_recovery older (first_ended last_ended_at recovery_session.ended_at)
        (min (delay_seconds * 2) 3600) in
    if is_detected_since newest_recovery recovery_session
    then (last_ended_at, delay_seconds)
    else rest

abbrev delayed : Option ℕ × ℕ → Option ℕ
delayed (none, delay_seconds) = none
delayed (some last_ended_at, delay_seconds) = some (last_ended_at + delay_seconds)

unfoldable pub get_retry_at : DagSpec → Option NodeRecovery → List RecoverySession → Option ℕ
unfolding count_back
get_retry_at dag_spec newest_recovery recovery_sessions =
    delayed (count_back newest_recovery recovery_sessions none dag_spec.tick_interval_seconds)

-- `_is_due`

abbrev is_past : Option ℕ → ℕ → Bool
is_past none current_time = true
is_past (some time) current_time = leb time current_time

abbrev is_recovery_due : Option NodeRecovery → ℕ → Bool
is_recovery_due none current_time = true
is_recovery_due (some recovery) current_time = is_due recovery current_time

unfoldable pub is_session_due : DagSpec → ℕ → Node → Option AgentSession → Store → Bool
unfolding get_newest_recovery_by_session_id get_retry_at get_closed_recovery_sessions
is_session_due dag_spec current_time node none store = false
is_session_due dag_spec current_time node (some latest) store =
    let newest_recovery = get_newest_recovery_by_session_id latest.id store.recoveries in
    let sessions = get_closed_recovery_sessions node latest store.recovery_sessions in
    is_recovery_due newest_recovery current_time
    && is_past (get_retry_at dag_spec newest_recovery sessions) current_time

unfoldable pub is_node_due : DagSpec → ℕ → Node → Option NodeAgent → Store → Bool
unfolding is_session_due latest_session
is_node_due dag_spec current_time node agent store =
    is_session_due dag_spec current_time node (latest_session agent) store

-- `_record_out_of_attempts`

unfoldable pub scan_entry : Node → NodeState → String → ℕ → AuditEntry
scan_entry node state note current_time = record {
  node_id = node.id;
  state = state;
  note = note;
  created_at = current_time;
}

unfoldable pub is_recorded : String → String → List AuditEntry → Bool
unfolding any
is_recorded node_id note = any (λ entry. entry.node_id == node_id && entry.note == note)

unfoldable pub record_observed_out_of_attempts : Node → ℕ → M (Unit {0})
unfolding count_by_node_id is_recorded scan_entry
record_observed_out_of_attempts node current_time = do
  attempt_count ← query (λ store. count_by_node_id node.id store.recoveries)
  let note = Labels.out_of_attempts_observing attempt_count
  recorded ← query (λ store. is_recorded node.id note store.audit_entries)
  if recorded
      then pure tt
      else modify (save_audit_entry (scan_entry node node.state note current_time))

unfoldable pub record_out_of_attempts : Node → Option NodeAgent → ℕ → M (Unit {0})
unfolding count_by_node_id scan_entry is_needing_human get_pr_number
record_out_of_attempts node agent current_time =
    if is_needing_human node
    then pure tt
    else if node.state == resting && is_some (get_pr_number agent)
    then record_observed_out_of_attempts node current_time
    else do
      modify (set_nodes (update_state node.id needs_human current_time none))
      attempt_count ← query (λ store. count_by_node_id node.id store.recoveries)
      modify (
          save_audit_entry (
            scan_entry node needs_human (Labels.out_of_recovery_attempts attempt_count)
              current_time))

-- `get_recoverable_nodes`

-- The body of the loop: whether the node is to be examined.
unfoldable pub scan_node : World → DagSpec → ℕ → Node → M Bool
unfolding is_out_of_attempts can_recover is_node_due
scan_node world dag_spec current_time node = do
  agent ← query (λ store. get_by_node_id node.id store.agents)
  if is_out_of_attempts world node agent
      then record_out_of_attempts node agent current_time >> pure false
      else if not (can_recover world node agent)
      then pure false
      else query (is_node_due dag_spec current_time node agent)

unfoldable pub scan_nodes : World → DagSpec → ℕ → List Node → M (List Node)
scan_nodes world dag_spec current_time [] = pure []
scan_nodes world dag_spec current_time (node ∷ nodes) = do
  is_recoverable ← scan_node world dag_spec current_time node
  others ← scan_nodes world dag_spec current_time nodes
  pure (if is_recoverable then node ∷ others else others)

unfoldable pub get_stopped_nodes : Store → List Node
unfolding get_nodes_by_state
get_stopped_nodes store =
    get_nodes_by_state errored store.nodes
    ++ (get_nodes_by_state needs_human store.nodes ++ get_nodes_by_state resting store.nodes)

unfoldable pub get_recoverable_nodes : World → DagSpec → ℕ → M (List Node)
get_recoverable_nodes world dag_spec current_time = do
  stopped_nodes ← query get_stopped_nodes
  scan_nodes world dag_spec current_time stopped_nodes
