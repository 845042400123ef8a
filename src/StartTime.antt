-- ===== src/StartTime.antt =====
-- domain/service/node_start_time_service.py: when a pending node may start.
pub mod Bounds
use agentic_dag.Prelude.{
  ℕ, ◌+◌, String, Bool, true, false, ◌&&◌, List, [], ◌∷◌, ◌++◌, map, Option, none, some, ◌==◌,
  string_eq, nat_eq, keep, mem, ltb, if◌then◌else◌,
}
use agentic_dag.Domain.{NodeState, skipped, state_eq, GraphNode, Graph, Node}
use agentic_dag.Domain.NodeMethods.{is_merged_or_skipped}
use agentic_dag.GraphService.{node_ids, get_dependencies, get_effective_dependencies}

-- `max(times, default=None)`
unfoldable pub latest : List ℕ → Option ℕ
latest [] = none
latest (time ∷ times) = elim (latest times) [
  | none ↦ some time
  | some later ↦ some (if ltb time later then later else time)
]

-- `[node.resume_at for node in nodes if node.id == id and node.resume_at is not None]`
unfoldable pub resume_times : String → List Node → List ℕ
resume_times id [] = []
resume_times id (node ∷ nodes) = elim node.resume_at [
  | none ↦ resume_times id nodes
  | some time ↦ if node.id == id then time ∷ resume_times id nodes else resume_times id nodes
]

-- The ids whose end a cooldown is counted from.
unfoldable pub cooldown_ids : Graph → GraphNode → List Node → List String
unfolding keep
cooldown_ids graph graph_node nodes =
    let skipped_nodes = keep (λ (node : Node). node.state == skipped) nodes in
    node_ids (get_dependencies graph graph_node.id)
    ++ node_ids (get_effective_dependencies graph graph_node.id skipped_nodes)

unfoldable pub ended_times : List String → List Node → List ℕ
unfolding keep mem
ended_times ids nodes =
    map (λ node. node.updated_at)
      (keep (λ (node : Node). mem ids node.id && is_merged_or_skipped node) nodes)

abbrev later_by : ℕ → Option ℕ → Option ℕ
later_by seconds none = none
later_by seconds (some time) = some (time + seconds)

unfoldable pub get_cooldown_start_time : Graph → GraphNode → List Node → Option ℕ
unfolding latest cooldown_ids ended_times
get_cooldown_start_time graph graph_node nodes =
    if graph_node.cooldown_seconds == 0
    then none
    else later_by graph_node.cooldown_seconds
        (latest (ended_times (cooldown_ids graph graph_node nodes) nodes))

abbrev append_some : List ℕ → Option ℕ → List ℕ
append_some times none = times
append_some times (some time) = times ++ time ∷ []

unfoldable pub get_start_time : Graph → GraphNode → List Node → Option ℕ
unfolding get_cooldown_start_time resume_times
get_start_time graph graph_node nodes = latest (
    append_some (resume_times graph_node.id nodes) (get_cooldown_start_time graph graph_node nodes))
