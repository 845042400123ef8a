-- ===== src/GraphService.antt =====
-- domain/service/graph_service.py: queries on one graph. A Python set of ids is a list that is only
-- tested for membership, and a stack is a list whose head is its end.
pub mod Lookup
pub mod Effective
pub mod Descendants
pub mod Status
use agentic_dag.Prelude.{
  ℕ, zero, suc, ◌+◌, String, Bool, true, false, not, ◌&&◌, List, [], ◌∷◌, ◌++◌, map, Option, none,
  some, ◌==◌, string_eq, mem, keep, length, if◌then◌else◌,
}
use agentic_dag.Domain.{
  GraphNode, Graph, Node, NodeState, pending, in_progress, resting, merged, skipped, needs_human,
  errored, state_eq,
}

abbrev pub node_ids : List GraphNode → List String
node_ids = map (λ node. node.id)

-- `_graph_nodes_by_id`: where an id repeats, the dictionary holds the last node.
unfoldable pub find_node : List GraphNode → String → Option GraphNode
find_node [] id = none
find_node (node ∷ nodes) id = elim (find_node nodes id) [
  | some later ↦ some later
  | none ↦ if node.id == id then some node else none
]

-- `[nodes_by_id[id] for id in ids if id in nodes_by_id]`
unfoldable pub known_nodes : List GraphNode → List String → List GraphNode
unfolding find_node
known_nodes nodes [] = []
known_nodes nodes (id ∷ ids) = elim (find_node nodes id) [
  | some node ↦ node ∷ known_nodes nodes ids
  | none ↦ known_nodes nodes ids
]

unfoldable pub get_dependencies : Graph → String → List GraphNode
unfolding known_nodes
get_dependencies graph id = elim (find_node graph.nodes id) [
  | none ↦ []
  | some node ↦ known_nodes graph.nodes node.depends_on
]

abbrev pub dependency_ids : Graph → String → List String
dependency_ids graph id = node_ids (get_dependencies graph id)

unfoldable pub graph_nodes_with_ids : Graph → List String → List GraphNode
unfolding mem keep
graph_nodes_with_ids graph ids = keep (λ node. mem ids node.id) graph.nodes

-- `frontier += ids`
unfoldable pub push_all : List String → List String → List String
push_all [] frontier = frontier
push_all (id ∷ ids) frontier = push_all ids (id ∷ frontier)

-- The `while frontier` loop of `get_effective_dependencies`; `none` means that the fuel ran out.
unfoldable pub resolve :
    Graph → List String → ℕ → (frontier resolved effective : List String) → Option (List String)
unfolding mem push_all
resolve graph skipped_ids zero [] resolved effective = some effective
resolve graph skipped_ids zero (_ ∷ _) resolved effective = none
resolve graph skipped_ids (suc fuel) [] resolved effective = some effective
resolve graph skipped_ids (suc fuel) (id ∷ frontier) resolved effective =
    let known = resolve graph skipped_ids fuel frontier resolved effective in
    let kept = resolve graph skipped_ids fuel frontier (id ∷ resolved) (id ∷ effective) in
    let replaced =
      resolve graph skipped_ids fuel (push_all (dependency_ids graph id) frontier) (id ∷ resolved)
        effective in
    if mem resolved id then known else if not (mem skipped_ids id) then kept else replaced

-- One round for each id that is ever put on the stack.
unfoldable pub pushes : Graph → List GraphNode → ℕ
pushes graph [] = 0
pushes graph (node ∷ nodes) = length (dependency_ids graph node.id) + pushes graph nodes

abbrev pub resolve_fuel : Graph → String → ℕ
resolve_fuel graph id = length (dependency_ids graph id) + pushes graph graph.nodes

abbrev pub or_nil {ℓ} : {A : Type ℓ} → Option (List A) → List A
or_nil none = []
or_nil (some xs) = xs

unfoldable pub effective_ids : Graph → String → List String → Option (List String)
unfolding resolve pushes get_dependencies push_all
effective_ids graph id skipped_ids =
    resolve graph skipped_ids (resolve_fuel graph id) (push_all (dependency_ids graph id) []) [] []

-- The fuel suffices, so the default is never taken (GraphService/Effective).
unfoldable pub get_effective_dependencies : Graph → String → List Node → List GraphNode
unfolding effective_ids graph_nodes_with_ids
get_effective_dependencies graph id skipped_nodes =
    graph_nodes_with_ids graph
      (or_nil (effective_ids graph id (map (λ node. node.id) skipped_nodes)))

-- The `for graph_node in self._graph.nodes` loop of `get_descendants`.
unfoldable pub scan :
    String → List GraphNode → (found frontier : List String) → List String × List String
unfolding mem
scan current [] found frontier = (found, frontier)
scan current (node ∷ nodes) found frontier =
    let passed = scan current nodes found frontier in
    let added = scan current nodes (node.id ∷ found) (node.id ∷ frontier) in
    if not (mem node.depends_on current)
    then passed
    else if mem found node.id
    then passed
    else added

unfoldable pub descend : Graph → ℕ → (found frontier : List String) → Option (List String)
unfolding scan
descend graph zero found [] = some found
descend graph zero found (_ ∷ _) = none
descend graph (suc fuel) found [] = some found
descend graph (suc fuel) found (current ∷ frontier) =
    let (found', frontier') = scan current graph.nodes found frontier in
    descend graph fuel found' frontier'

-- Each node of the graph enters the stack once at most, beside the start.
unfoldable pub descendant_ids : Graph → String → Option (List String)
unfolding descend
descendant_ids graph id = descend graph (suc (length graph.nodes)) [] (id ∷ [])

unfoldable pub get_descendants : Graph → String → List GraphNode
unfolding descendant_ids graph_nodes_with_ids
get_descendants graph id = graph_nodes_with_ids graph (or_nil (descendant_ids graph id))

pub data RunStatus : Type 0 where
  active complete run_errored : RunStatus

-- `states_by_id.get(id, "pending")`: the last row of an id counts, and an id with no row is pending.
unfoldable pub state_of : List Node → String → NodeState
state_of [] id = pending
state_of (node ∷ nodes) id =
    if mem (map (λ row. row.id) nodes) id
    then state_of nodes id
    else if node.id == id
    then node.state
    else pending

abbrev pub graph_states : Graph → List Node → List NodeState
graph_states graph nodes = map (λ node. state_of nodes node.id) graph.nodes

-- `states <= {…}` on sets.
unfoldable pub subset : List NodeState → List NodeState → Bool
unfolding mem
subset [] allowed = true
subset (state ∷ states) allowed = mem allowed state && subset states allowed

unfoldable pub get_run_status : Graph → List Node → RunStatus
unfolding state_of subset
get_run_status graph nodes =
    if subset (graph_states graph nodes) (merged ∷ skipped ∷ [])
    then complete
    else if subset (graph_states graph nodes) (needs_human ∷ errored ∷ skipped ∷ [])
    then run_errored
    else active

unfoldable pub nodes_in : Graph → NodeState → List Node → List GraphNode
unfolding graph_nodes_with_ids keep
nodes_in graph state nodes =
    graph_nodes_with_ids graph (map (λ node. node.id) (keep (λ node. node.state == state) nodes))
