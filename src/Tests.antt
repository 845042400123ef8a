-- ===== src/Tests.antt =====
-- The theorems at work on the sample graph.
mod Commands
mod Handlers
mod Recovery
mod Services
mod Web
use mathlib.Core.List.{flat_map}
use agentic_dag.Prelude.{
  ℕ, ◌≤◌, ◌<◌, ◌≡◌, ◌≢◌, ◌↔◌, refl, String, Bool, true, false, List, [], ◌∷◌, map, Option, none,
  some, string_eq, mem, arith,
}
use agentic_dag.Domain.{pending, in_progress, merged, skipped, Node}
use agentic_dag.Samples.{graph_node, chain, row, reading, comment}
use agentic_dag.GraphService.{
  node_ids, dependency_ids, effective_ids, descendant_ids, get_effective_dependencies,
  get_descendants, get_run_status, complete, run_errored,
}
use agentic_dag.GraphService.Effective.{
  IsEffective, effective_ids_ends, get_effective_dependencies_iff,
}
use agentic_dag.GraphService.Descendants.{Descends, descendant_ids_ends, get_descendants_iff}
use agentic_dag.GraphService.Status.{IsDone, IsHeld, EveryRow, get_run_status_iff}
use agentic_dag.Signals.{
  detect_all, detect_comments, pr_signals, advanced, newest, get_timestamp, name, detect,
  SignalChange, comment_signal,
}
use agentic_dag.Signals.Quiet.{detect_all-advanced}
use agentic_dag.Signals.Comments.{AreSeen, detect_comments-AreSeen}
use agentic_dag.StartTime.{get_start_time}
use agentic_dag.StartTime.Bounds.{IsElapsed, get_start_time_iff}
use agentic_dag.Validation.{find_cycle_members, validate_cycles, validate_graph, is_blocking}
use agentic_dag.Validation.Cycles.{
  Ranking, IsStuck, find_cycle_members-IsStuck, validate_cycles_iff,
}
use agentic_dag.Validation.Rules.{IsRunnable, validate_graph_iff}

-- `b` is skipped, so that `c` waits for `a`.
abbrev rows : List Node
rows = row "a" merged ∷ row "b" skipped ∷ row "c" pending ∷ []

get_effective_dependencies_iff_example :
    (mem (node_ids (get_effective_dependencies chain "c" (row "b" skipped ∷ []))) "a" ≡ true)
    ↔ IsEffective chain ("b" ∷ []) "c" "a"
get_effective_dependencies_iff_example =
    get_effective_dependencies_iff chain "c" (row "b" skipped ∷ []) "a"

effective_ids_ends_example : effective_ids chain "c" ("b" ∷ []) ≢ none
effective_ids_ends_example = effective_ids_ends chain "c" ("b" ∷ [])

get_descendants_iff_example :
    (mem (node_ids (get_descendants chain "a")) "c" ≡ true) ↔ Descends chain "a" "c"
get_descendants_iff_example = get_descendants_iff chain "a" "c"

descendant_ids_ends_example : descendant_ids chain "a" ≢ none
descendant_ids_ends_example = descendant_ids_ends chain "a"

get_run_status_iff_example :
    ((get_run_status chain rows ≡ complete) ↔ EveryRow IsDone chain rows)
    × ((get_run_status chain rows ≡ run_errored)
        ↔ ((¬ EveryRow IsDone chain rows) × EveryRow IsHeld chain rows))
unfolding mem
get_run_status_iff_example = get_run_status_iff rows (refl, (refl, (refl, tt))) chain

detect_all-advanced_example :
    detect_all (pr_signals "bot") reading (advanced [] (detect_all (pr_signals "bot") reading []))
    ≡ []
detect_all-advanced_example = detect_all-advanced "bot" reading []

get_start_time_iff_example :
    ((time : ℕ) → get_start_time chain (graph_node "c" ("b" ∷ [])) rows ≡ some time → time ≤ 5)
    ↔ IsElapsed chain (graph_node "c" ("b" ∷ [])) rows 5
get_start_time_iff_example = get_start_time_iff chain (graph_node "c" ("b" ∷ [])) rows 5

validate_cycles_iff_example : (validate_cycles chain ≡ []) ↔ Ranking chain
validate_cycles_iff_example = validate_cycles_iff chain

find_cycle_members-IsStuck_example : IsStuck (dependency_ids chain) (find_cycle_members chain)
find_cycle_members-IsStuck_example = find_cycle_members-IsStuck chain

validate_graph_iff_example : (is_blocking (validate_graph chain) ≡ false) ↔ IsRunnable chain
validate_graph_iff_example = validate_graph_iff chain

-- The sample graph may run, and its last node inherits the dependency of the skipped one.
chain_may_run : is_blocking (validate_graph chain) ≡ false
unfolding is_blocking validate_graph flat_map
chain_may_run = refl

chain_inherits : node_ids (get_effective_dependencies chain "c" (row "b" skipped ∷ [])) ≡ "a" ∷ []
unfolding get_effective_dependencies
chain_inherits = refl
