-- ===== src/Tests/Web.antt =====
-- The theorems on the responses of the web interface at work.
use agentic_dag.Prelude.{◌≡◌, refl, true, List, [], ◌∷◌, map, none, some, String, show_int}
use agentic_dag.Domain.{wake, NodeSpec, DagSpec, Node, NodeAgent, WorkTree, resting, merged}
use agentic_dag.Samples.{session, row, spec, agent, worktree, world}
use agentic_dag.Web.Mapper.{
  to_declared_node_response, to_node_responses, to_response, get_pr_url, get_pr_number,
}
use agentic_dag.Web.Responses.{NodePreviewResponse}
use agentic_dag.Web.Mapper.Listing.{preview_at, listed, listed_ids, preview-listed}
use agentic_dag.Web.Mapper.Activity.{IsNewest, last_activity-IsNewest}
use agentic_dag.Web.Mapper.PullRequests.{get_pr_number-get_pr_url}

abbrev declared : String → NodeSpec
declared id = record {
  id = id;
  depends_on = [];
  title = "";
  name = "";
  instructions = "work";
  project_root = none;
  workspace_path = none;
  executor_agent = none;
  base_branch = "";
  cooldown_seconds = none;
  pr = "";
  session = "";
}

-- `a` is declared and has a row, and `d` is adopted.
abbrev dag : DagSpec
dag = record spec { nodes = declared "a" ∷ declared "b" ∷ [] }

abbrev rows : List Node
rows = row "a" resting ∷ row "d" merged ∷ []

preview-listed_example :
    let nodes = to_node_responses dag rows in
    (map (λ (node : NodePreviewResponse). node.id) nodes ≡ listed_ids dag rows)
    × (preview_at "d" nodes ≡ listed dag rows "d")
preview-listed_example = preview-listed dag rows "d"

last_activity-IsNewest_example :
    let response = to_response dag rows none true in
    IsNewest response.last_activity_at response.nodes
last_activity-IsNewest_example = last_activity-IsNewest dag rows none true

-- A worktree that was recorded before its url was.
abbrev old_worktree : WorkTree
old_worktree = record worktree { pr_number = 11; pr_url = "" }

get_pr_number-get_pr_url_example :
    let url = get_pr_url (some (declared "a")) (some old_worktree) "https://host" in
    (get_pr_number world (some (record (declared "b") { pr = url })) none ≡ 11)
    × (get_pr_number world (some (declared "a")) (some old_worktree) ≡ 11)
unfolding show_int
get_pr_number-get_pr_url_example =
    get_pr_number-get_pr_url world (declared "a") (declared "b") old_worktree "https://host" refl
      refl refl refl refl refl

-- A session that a wake started, after one that a launch did.
abbrev woken_agent : NodeAgent
woken_agent = record agent { sessions = session ∷ record session { triggered_by = some wake } ∷ [] }

abbrev preview : NodePreviewResponse
preview = to_declared_node_response (declared "a") none
