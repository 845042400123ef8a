-- ===== src/Building/Inheritance.antt =====
-- What the graph that is built says of its nodes, and what the validation rules find in it.
use agentic_dag.Prelude.{◌≡◌, refl, true, not, List, [], ◌∷◌, map, string_eq, keep, arith, All}
use agentic_dag.Domain.{GraphNode, NodeSpec, DagSpec, is_some}
use agentic_dag.World.{World}
use agentic_dag.Validation.{validate_executors}
use agentic_dag.Building.{build_node, create_graph}

executors_known :
    (world : World) (dag_spec : DagSpec) (specs : List NodeSpec)
    → All (λ node. is_some node.executor_agent ≡ true) (map (build_node world dag_spec) specs)
unfolding build_node
executors_known world dag_spec [] = tt
executors_known world dag_spec (spec ∷ specs) = (refl, executors_known world dag_spec specs)

keep_executors :
    (nodes : List GraphNode)
    → All (λ node. is_some node.executor_agent ≡ true) nodes
    → keep (λ node. not (is_some node.executor_agent)) nodes ≡ []
unfolding keep
keep_executors [] all = refl
keep_executors (node ∷ nodes) all = ground (arith, all.0, keep_executors nodes all.1)

-- A graph that was built from a specification has an executor on every node, so the rule on missing
-- executors reports nothing.
pub validate_executors-create_graph :
    (world : World) (dag_spec : DagSpec) → validate_executors (create_graph world dag_spec) ≡ []
unfolding validate_executors create_graph
validate_executors-create_graph world dag_spec =
    rw
      (keep_executors (map (build_node world dag_spec) dag_spec.nodes)
        (executors_known world dag_spec dag_spec.nodes))
      refl
