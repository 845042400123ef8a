-- ===== src/Building.antt =====
-- domain/service/graph_builder.py with the methods of domain/specs/dag_spec.py that settle what a
-- node inherits, and services/preview/mermaid_renderer.py. A `Path` is never falsy.
pub mod Inheritance
use agentic_dag.Prelude.{
  ℕ, String, Bool, true, false, not, List, [], ◌∷◌, ◌++◌, map, Option, none, some, ◌==◌, string_eq,
  concat, join, if◌then◌else◌,
}
use mathlib.Core.List.{flat_map}
use agentic_dag.Domain.{ExecutorAgent, GraphNode, Graph, NodeSpec, DagSpec, text_or, or_else}
use agentic_dag.World.{World}
use agentic_dag.Store.{M, call, pure, ◌>>=◌}

abbrev or_default {ℓ} : {A : Type ℓ} → Option A → A → A
or_default none a = a
or_default (some a) _ = a

unfoldable pub get_project_root : DagSpec → NodeSpec → Option String
get_project_root dag_spec node = or_else node.project_root dag_spec.project_root

unfoldable pub get_workspace_path : World → DagSpec → NodeSpec → String
get_workspace_path world dag_spec node =
    or_default (or_else node.workspace_path dag_spec.workspace_path)
      (concat (world.workspace_home ∷ "/" ∷ dag_spec.name ∷ []))

unfoldable pub get_executor_agent : DagSpec → NodeSpec → ExecutorAgent
get_executor_agent dag_spec node = or_default node.executor_agent dag_spec.executor_agent

unfoldable pub get_base_branch : DagSpec → NodeSpec → String
get_base_branch dag_spec node = text_or node.base_branch (text_or dag_spec.base_branch "main")

unfoldable pub get_cooldown_seconds : DagSpec → NodeSpec → ℕ
get_cooldown_seconds dag_spec node = or_default node.cooldown_seconds dag_spec.cooldown_seconds

unfoldable pub build_node : World → DagSpec → NodeSpec → GraphNode
unfolding get_project_root get_workspace_path get_executor_agent get_base_branch
    get_cooldown_seconds
build_node world dag_spec spec = record {
  id = spec.id;
  title = spec.title;
  name = spec.name;
  instructions = spec.instructions;
  depends_on = spec.depends_on;
  executor_agent = some (get_executor_agent dag_spec spec);
  project_root = get_project_root dag_spec spec;
  workspace_path = get_workspace_path world dag_spec spec;
  base_branch = get_base_branch dag_spec spec;
  cooldown_seconds = get_cooldown_seconds dag_spec spec;
  pr = spec.pr;
  recovery_attempts_allowed = dag_spec.caps.node_recoveries;
}

unfoldable pub create_graph : World → DagSpec → Graph
unfolding build_node
create_graph world dag_spec = record {
  name = dag_spec.name;
  nodes = map (build_node world dag_spec) dag_spec.nodes;
  project_root = dag_spec.project_root;
}

unfoldable pub build_from_path : World → String → M Graph
build_from_path world dag_path = do
  spec ← call (world.load_dag dag_path)
  pure (create_graph world spec)

-- `MermaidRenderer`

unfoldable pub render_label : NodeSpec → String
render_label node =
    if not (node.pr == "")
    then concat ("[\"" ∷ node.id ∷ " (adopted)\"]" ∷ [])
    else concat ("[" ∷ node.id ∷ "]" ∷ [])

unfoldable pub render_lines : List NodeSpec → List String
unfolding render_label
render_lines nodes =
    "flowchart TD" ∷ map (λ node. concat ("    " ∷ node.id ∷ render_label node ∷ [])) nodes
    ++ flat_map
        (λ node. map (λ dep. concat ("    " ∷ dep ∷ " --> " ∷ node.id ∷ [])) node.depends_on) nodes

unfoldable pub render : DagSpec → String
unfolding render_lines
render spec = join "\n" (render_lines spec.nodes)
