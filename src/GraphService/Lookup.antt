-- ===== src/GraphService/Lookup.antt =====
-- The dictionary of nodes by id, and the lists of nodes that the queries return.
use agentic_dag.Prelude.{
  ◌+◌, ◌≡◌, refl, String, true, false, ◌&&◌, List, [], ◌∷◌, none, some, string_eq, mem, keep,
  length, arith, Option-cases, ◌⊎◌, inl, inr, ◌↔◌,
}
use text.Mathlib.TextEquality.{eq_iff}
use agentic_dag.Domain.{GraphNode, Graph}
use agentic_dag.GraphService.{
  node_ids, find_node, known_nodes, get_dependencies, dependency_ids, graph_nodes_with_ids,
  push_all,
}

pub find_node-id :
    (nodes : List GraphNode) (id : String) (node : GraphNode)
    → find_node nodes id ≡ some node
    → node.id ≡ id
unfolding find_node
find_node-id [] id node h = ground arith
find_node-id (first ∷ nodes) id node h = elim (Option-cases (find_node nodes id)) [
  | inl nothing ↦ ground (arith, eq_iff first.id id)
  | inr (later, e) ↦ ground (arith, find_node-id nodes id later)
]

-- A node is found exactly under the ids of the graph.
pub find_node-none :
    (nodes : List GraphNode) (id : String)
    → (find_node nodes id ≡ none) ↔ (mem (node_ids nodes) id ≡ false)
unfolding find_node mem
find_node-none [] id = ground arith
find_node-none (first ∷ nodes) id = elim (Option-cases (find_node nodes id)) [
  | inl nothing ↦ ground (arith, find_node-none nodes id)
  | inr (later, e) ↦ ground (arith, find_node-none nodes id)
]

pub mem-known_nodes :
    (nodes : List GraphNode) (ids : List String) (d : String)
    → mem (node_ids (known_nodes nodes ids)) d ≡ (mem ids d && mem (node_ids nodes) d)
unfolding known_nodes mem
mem-known_nodes nodes [] d = refl
mem-known_nodes nodes (id ∷ ids) d = elim (Option-cases (find_node nodes id)) [
  | inl nothing ↦ ground (arith, mem-known_nodes nodes ids d, find_node-none nodes id, eq_iff id d)
  | inr (node, e) ↦ ground (
    arith,
    mem-known_nodes nodes ids d,
    find_node-none nodes id,
    eq_iff id d,
    eq_iff node.id d,
    find_node-id nodes id node,
  )
]

pub mem-graph_nodes_with_ids :
    (graph : Graph) (ids : List String) (d : String)
    → mem (node_ids (graph_nodes_with_ids graph ids)) d
      ≡ (mem ids d && mem (node_ids graph.nodes) d)
unfolding graph_nodes_with_ids
mem-graph_nodes_with_ids graph ids d = go graph.nodes
  where
    go :
        (nodes : List GraphNode)
        → mem (node_ids (keep (λ node. mem ids node.id) nodes)) d
          ≡ (mem ids d && mem (node_ids nodes) d)
    go [] = ground arith
    go (node ∷ nodes) = ground (arith, go nodes, eq_iff node.id d)

pub dependency_ids-IsKnown :
    (graph : Graph) (id d : String)
    → mem (dependency_ids graph id) d ≡ true
    → mem (node_ids graph.nodes) d ≡ true
unfolding get_dependencies mem
dependency_ids-IsKnown graph id d h = elim (Option-cases (find_node graph.nodes id)) [
  | inl nothing ↦ ground arith
  | inr (node, e) ↦ ground (arith, mem-known_nodes graph.nodes node.depends_on d)
]

-- An id that the graph lacks has no dependencies.
pub dependency_ids-unknown :
    (graph : Graph) (id : String)
    → mem (node_ids graph.nodes) id ≡ false
    → dependency_ids graph id ≡ []
unfolding get_dependencies
dependency_ids-unknown graph id h = ground (arith, find_node-none graph.nodes id)

pub mem-push_all :
    (ids frontier : List String) (d : String)
    → (mem (push_all ids frontier) d ≡ true) ↔ ((mem ids d ≡ true) ⊎ (mem frontier d ≡ true))
unfolding push_all mem
mem-push_all [] frontier d = ground arith
mem-push_all (id ∷ ids) frontier d = ground (arith, mem-push_all ids (id ∷ frontier) d)

pub length-push_all :
    (ids frontier : List String) → length (push_all ids frontier) ≡ length ids + length frontier
unfolding push_all
length-push_all [] frontier = omega arith
length-push_all (id ∷ ids) frontier = omega (arith, length-push_all ids (id ∷ frontier))
