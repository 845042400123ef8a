-- ===== src/Validation.antt =====
-- domain/service/validators, domain/service/graph_validation_service.py and domain/validation: the
-- rules that a graph is held to before a run touches it. A Python set or dictionary is a list whose
-- order is not observed: what is shown of one is sorted.
pub mod Peeling
pub mod Cycles
pub mod Rules
use agentic_dag.Prelude.{
  ℕ, zero, suc, ◌+◌, String, Bool, true, false, not, ◌&&◌, ◌||◌, List, [], ◌∷◌, ◌++◌, map, Option,
  none, some, ◌==◌, string_eq, keep, any, mem, length, if◌then◌else◌, concat, join, sorted, ltb,
}
use text.Mathlib.Text.{starts_with}
use mathlib.Core.List.{flat_map}
use agentic_dag.Domain.{GraphNode, Graph, ExecutorAgent, is_some}

pub record ValidationError : Type 0 where
  pub code : String
  pub message : String
  pub node_id : Option String
  pub is_fatal : Bool

abbrev fatal : String → String → Option String → ValidationError
fatal code message node_id = record {
  code = code;
  message = message;
  node_id = node_id;
  is_fatal = true;
}

-- The ids that are still to be peeled, each with the set of its unpeeled dependencies.
abbrev pub Remaining : Type 0
Remaining = List (String × List String)

abbrev pub keys : Remaining → List String
keys = map (λ entry. entry.0)

-- `{node.id: {dep for dep in node.depends_on if dep in known} for node in graph.nodes}`: a later
-- node of the same id takes the place of an earlier one.
unfoldable pub remaining : List String → List GraphNode → Remaining
unfolding mem keep
remaining known [] = []
remaining known (node ∷ nodes) =
    if mem (map (λ later. later.id) nodes) node.id
    then remaining known nodes
    else (node.id, keep (mem known) node.depends_on) ∷ remaining known nodes

abbrev is_nil : List String → Bool
is_nil [] = true
is_nil (_ ∷ _) = false

unfoldable pub startable : Remaining → List String
startable [] = []
startable ((id, deps) ∷ entries) = if is_nil deps then id ∷ startable entries else startable entries

-- `del remaining[id]` for each of the ids, and `deps.difference_update(ids)` for each set.
unfoldable pub strip : List String → Remaining → Remaining
unfolding mem keep
strip ids [] = []
strip ids ((id, deps) ∷ entries) =
    if mem ids id
    then strip ids entries
    else (id, keep (λ d. not (mem ids d)) deps) ∷ strip ids entries

-- The `while peeled` loop; `none` means that the fuel ran out.
unfoldable pub peel : ℕ → Remaining → Option Remaining
unfolding startable strip
peel zero entries = none
peel (suc fuel) entries =
    let rest = peel fuel (strip (startable entries) entries) in
    if is_nil (startable entries) then some (strip (startable entries) entries) else rest

abbrev or_empty : Option Remaining → Remaining
or_empty none = []
or_empty (some entries) = entries

-- A round of the loop takes an entry away, but for the last. The default is never taken
-- (Validation/Cycles).
unfoldable pub find_cycle_members : Graph → List String
unfolding peel remaining
find_cycle_members graph =
    let entries = remaining (map (λ node. node.id) graph.nodes) graph.nodes in
    keys (or_empty (peel (suc (length entries)) entries))

unfoldable pub validate_cycles : Graph → List ValidationError
unfolding find_cycle_members
validate_cycles graph =
    if is_nil (find_cycle_members graph)
    then []
    else fatal "dependency-cycle"
        (concat (join ", " (sorted (find_cycle_members graph)) ∷ " form a dependency cycle" ∷ []))
        none
      ∷ []

-- The ids of a `Counter` with a count above one, each once, where it is first met.
unfoldable pub duplicated_ids : (seen : List String) → List GraphNode → List String
unfolding mem
duplicated_ids seen [] = []
duplicated_ids seen (node ∷ nodes) =
    let rest = duplicated_ids (node.id ∷ seen) nodes in
    if mem (map (λ later. later.id) nodes) node.id && not (mem seen node.id)
    then node.id ∷ rest
    else rest

unfoldable pub validate_duplicates : Graph → List ValidationError
unfolding duplicated_ids
validate_duplicates graph =
    map (λ id. fatal "duplicate-node" (concat (id ∷ " is declared more than once" ∷ [])) (some id))
      (duplicated_ids [] graph.nodes)

unfoldable pub validate_dependencies : Graph → List ValidationError
unfolding mem keep
validate_dependencies graph =
    let known = map (λ (node : GraphNode). node.id) graph.nodes in
    flat_map
      (λ node.
        map
          (λ dep_id.
            fatal "unknown-dependency"
              (concat (node.id ∷ " depends on " ∷ dep_id ∷ ", which is not in the graph" ∷ []))
              (some node.id))
          (keep (λ dep_id. not (mem known dep_id)) node.depends_on))
      graph.nodes

unfoldable pub validate_executors : Graph → List ValidationError
unfolding keep
validate_executors graph =
    map
      (λ node.
        fatal "missing-executor"
          (concat
            (node.id ∷ " resolves to no executor agent; name one on the node or the dag" ∷ []))
          (some node.id))
      (keep (λ node. not (is_some node.executor_agent)) graph.nodes)

unfoldable pub has_url_scheme : String → Bool
has_url_scheme pr = starts_with pr "http://" || starts_with pr "https://"

unfoldable pub validate_pull_requests : Graph → List ValidationError
unfolding keep has_url_scheme
validate_pull_requests graph =
    map
      (λ node.
        fatal "pr-not-url"
          (concat (node.id ∷ " names pr " ∷ node.pr ∷ ", which is not a pull request url" ∷ []))
          (some node.id))
      (keep (λ node. not (node.pr == "") && not (has_url_scheme node.pr)) graph.nodes)

unfoldable pub validate_project_root : Graph → List ValidationError
validate_project_root graph =
    if is_some graph.project_root
    then []
    else fatal "missing-project-root" "The dag requires a project_root setting." none ∷ []

-- The validators of a run, in the order of bootstrap/register_beans.py.
unfoldable pub validate_graph : Graph → List ValidationError
unfolding validate_cycles validate_duplicates validate_dependencies validate_executors
    validate_pull_requests validate_project_root
validate_graph graph =
    validate_cycles graph
    ++ (validate_duplicates graph
        ++ (validate_dependencies graph
            ++ (validate_executors graph
                ++ (validate_pull_requests graph ++ validate_project_root graph))))

unfoldable pub is_blocking : List ValidationError → Bool
unfolding any
is_blocking = any (λ error. error.is_fatal)

unfoldable pub describe : List ValidationError → String
describe errors = concat (
    map
      (λ error. concat (
        (if error.is_fatal then "" else "warning: ")
        ∷ error.code
        ∷ ": "
        ∷ error.message
        ∷ "\n"
        ∷ []))
      errors)
