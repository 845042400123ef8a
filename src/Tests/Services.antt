-- ===== src/Tests/Services.antt =====
-- The theorems on releases, on built graphs and on the two node repositories at work.
use agentic_dag.Prelude.{
  ◌≡◌, refl, true, List, [], ◌∷◌, map, none, some, mem, string_eq, any, ◌==◌, ◌&&◌, if◌then◌else◌,
  concat, pos,
}
use agentic_dag.Domain.{pending, needs_human, in_progress, errored, Node, is_stopped, state_eq}
use agentic_dag.Samples.{graph_node, chain, row, store_with, spec, agent, world}
use agentic_dag.Labels
use agentic_dag.Building.{create_graph}
use agentic_dag.Building.Inheritance.{validate_executors-create_graph}
use agentic_dag.Validation.{validate_executors}
use agentic_dag.GraphService.{get_effective_dependencies, get_descendants}
use agentic_dag.GraphService.Descendants.{Descends, child, declares}
use agentic_dag.Handlers.Pending.{advance, dependency_rows}
use agentic_dag.Services.Release.{
  release, stopped_dependents, is_upstream_stop, latest_note, is_released,
}
use agentic_dag.Services.Release.Effects.{released_row, release-read, stopped_dependents-Descends}
use agentic_dag.Services.Release.Return.{advance-release}
use agentic_dag.Store.{
  Store, ok, fresh_row, missing_rows, read_node, find_row, get_by_node_id, get_nodes_by_ids,
}
use agentic_dag.Store as Sqlite
use agentic_dag.Store.Memory as Memory
use agentic_dag.Store.Memory.Agreement.{
  Write, ensure, move, spend, memory_write, sqlite_write, replay, replay-agree,
}

-- `a` stopped, and `b` behind it.
abbrev stopped_run : Store
stopped_run = record (store_with (row "a" errored ∷ row "b" needs_human ∷ []) (agent ∷ [])) {
  audit_entries =
      record {
        node_id = "b";
        state = needs_human;
        note = Labels.upstream_stopped "a";
        created_at = 1;
      }
      ∷ [];
}

release-read_example :
    let ids = map (λ (node : Node). node.id) (stopped_dependents chain "a" stopped_run) in
    let outcome = release chain "a" 60 stopped_run in
    (outcome.0 ≡ ok ids)
    × (outcome.1.effects ≡ [])
    × (read_node "b" outcome.1.nodes ≡ elim (read_node "b" stopped_run.nodes) [
      | none ↦ none
      | some found ↦ some (if mem ids "b" then released_row found 60 else found)
    ])
release-read_example = release-read chain "a" 60 stopped_run "b"

stopped_dependents-Descends_example :
    Descends chain "a" "b"
    × (any (λ (node : Node). node.id == "b" && node.state == needs_human) stopped_run.nodes ≡ true)
    × (get_by_node_id "b" stopped_run.agents ≡ none)
    × (is_upstream_stop chain (latest_note stopped_run.audit_entries "b") ≡ true)
unfolding stopped_dependents get_nodes_by_ids get_descendants is_released mem
    Labels.upstream_stopped concat
stopped_dependents-Descends_example = stopped_dependents-Descends chain "a" 60 stopped_run "b" refl

-- `b` waits for `a`, which has stopped.
abbrev waiting_run : Store
waiting_run = store_with (row "a" errored ∷ row "b" pending ∷ []) (agent ∷ [])

advance-release_example :
    let stopped = (advance world spec chain 50 (graph_node "b" ("a" ∷ [])) waiting_run).1 in
    let after = (release chain "a" 60 stopped).1 in
    (read_node "b" after.nodes ≡ some (record (row "b" pending) { updated_at = 60 }))
    × (after.effects ≡ [])
unfolding find_row dependency_rows get_effective_dependencies is_stopped read_node get_by_node_id
    mem declares
advance-release_example =
    advance-release world spec chain (graph_node "b" ("a" ∷ [])) 50 60 waiting_run (row "a" errored)
      (row "b" pending) refl refl refl refl (child refl)

validate_executors-create_graph_example : validate_executors (create_graph world spec) ≡ []
validate_executors-create_graph_example = validate_executors-create_graph world spec

abbrev writes : List Write
writes = ensure chain.nodes 5 ∷ move "b" in_progress 6 none ∷ spend "b" ∷ []

abbrev working : Node
working = record (fresh_row (graph_node "b" ("a" ∷ [])) 5) {
  state = in_progress;
  updated_at = 6;
  recovery_attempts_allowed = pos 0;
}

abbrev rows_after : List Node
rows_after =
    fresh_row (graph_node "a" []) 5 ∷ working ∷ fresh_row (graph_node "c" ("b" ∷ [])) 5 ∷ []

replay-agree_example : read_node "b" rows_after ≡ read_node "b" rows_after
unfolding memory_write sqlite_write replay read_node Memory.ensure_rows Memory.update_state
    Memory.spend_recovery_attempt missing_rows Sqlite.ensure_rows Sqlite.update_state
    Sqlite.spend_recovery_attempt
replay-agree_example = replay-agree writes [] [] rows_after rows_after (λ id. refl) refl refl "b"
