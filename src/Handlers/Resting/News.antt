-- ===== src/Handlers/Resting/News.antt =====
-- What a pass over a resting node does with the state of its pull request and with its news.
use agentic_dag.Prelude.{
  ℕ, ◌≤◌, ◌<◌, ◌≡◌, refl, true, false, List, [], ◌∷◌, Option, none, some, string_eq, nat_eq, leb,
  arith, ◌⊎◌, inl, inr, Option-cases, Bool-cases, keep, ◌++◌,
}
use text.Mathlib.TextEquality.{eq_iff}
use agentic_dag.Domain.{
  NodeState, needs_human, merged, state_eq, GraphNode, Node, DagSpec, NodeAgent, WorkTree,
  PrDetails, PullRequestSnapshot, PullRequestState, open_state, closed_state, merged_state,
}
use agentic_dag.Domain.NodeMethods.{has_pull_request_settled}
use agentic_dag.Signals.{SignalChange}
use agentic_dag.Labels
use agentic_dag.World.{World}
use agentic_dag.Store.{
  M, Store, ok, read_node, record_move, run, set_nodes, save_audit_entry, publish, ◌>>=◌, ◌>>◌,
  query, pure, and_then,
}
use agentic_dag.Store.Nodes.{read-update_state, read-settled, read_node-some}
use agentic_dag.Store.Counting.{workers}
use agentic_dag.Handlers.Response.{TickResponse, response}
use agentic_dag.Handlers.Resting.{
  record_settled, record_merged, record_closed, out_of_wakes, wake_agent, wake_and_tell, report,
  act_on, stopped_event, event_at, is_nil, count_wakes_since_start,
}

-- `pull_request_settled_at` after a pass that finds the pull request merged or closed.
abbrev pub settled_time : World → Node → Option ℕ
settled_time world node = elim node.pull_request_settled_at [
  | none ↦ some (world.now 0)
  | some time ↦ some time
]

-- The state that a pull request of that state leads to, where it leads to one.
abbrev pub settled_state : PullRequestState → NodeState
settled_state merged_state = merged
settled_state _ = needs_human

module _ (world : World) (spec : DagSpec) (graph_node : GraphNode) where
  record_settled-read :
      (store : Store) (node : Node)
      → read_node graph_node.id store.nodes ≡ some node
      → read_node graph_node.id (record_settled world graph_node store).1.nodes
        ≡ some (record node { pull_request_settled_at = settled_time world node })
  unfolding record_settled run set_nodes has_pull_request_settled
  record_settled-read store node found = rw found (
      ground (
        arith,
        found,
        read-settled node.id graph_node.id (world.now 0) store.nodes,
        (read_node-some graph_node.id store.nodes node found).1,
        eq_iff node.id graph_node.id,
      ))

  record_settled-ok : (store : Store) → (record_settled world graph_node store).0 ≡ ok tt
  unfolding record_settled run set_nodes
  record_settled-ok store = elim (Option-cases (read_node graph_node.id store.nodes)) [
    | inl missing ↦ rw missing refl
    | inr (node, found) ↦ ground (arith, found)
  ]

  after_settled :
      (m : M TickResponse) (store : Store)
      → (record_settled world graph_node >> m) store ≡ m (record_settled world graph_node store).1
  unfolding ◌>>◌ ◌>>=◌ and_then
  after_settled m store = rw (record_settled-ok store) refl

  record_merged-read :
      (worktree : WorkTree) (snapshot : PullRequestSnapshot) (store : Store) (node : Node)
      → read_node graph_node.id store.nodes ≡ some node
      → read_node graph_node.id (record_merged world graph_node worktree snapshot store).1.nodes
        ≡ some (record node { state = merged; updated_at = world.now 1; resume_at = none })
  unfolding record_merged run record_move set_nodes save_audit_entry publish event_at
  record_merged-read worktree snapshot store node found = ground (
    arith,
    found,
    read-update_state graph_node.id graph_node.id merged (world.now 1) none store.nodes,
    eq_iff graph_node.id graph_node.id,
  )

  record_closed-read :
      (worktree : WorkTree) (snapshot : PullRequestSnapshot) (store : Store) (node : Node)
      → read_node graph_node.id store.nodes ≡ some node
      → read_node graph_node.id (record_closed world graph_node worktree snapshot store).1.nodes
        ≡ some (record node { state = needs_human; updated_at = world.now 1; resume_at = none })
  unfolding record_closed run record_move set_nodes save_audit_entry publish event_at stopped_event
  record_closed-read worktree snapshot store node found = ground (
    arith,
    found,
    read-update_state graph_node.id graph_node.id needs_human (world.now 1) none store.nodes,
    eq_iff graph_node.id graph_node.id,
  )

  -- Where the pull request is found merged, or closed, and the node has a row, the pass moves the
  -- row to merged, or to needs_human, no longer waiting for a time, and the moment that the pull
  -- request settled is recorded, or kept where there is one.
  pub act_on-settled :
      (agent : NodeAgent) (worktree : WorkTree) (snapshot : PullRequestSnapshot)
      (state : PullRequestState) (store : Store) (node : Node)
      → read_node graph_node.id store.nodes ≡ some node
      → (state ≡ merged_state) ⊎ (state ≡ closed_state)
      → read_node graph_node.id
          (act_on world spec graph_node agent worktree snapshot state store).1.nodes
        ≡ some (record node {
          state = settled_state state;
          updated_at = world.now 1;
          resume_at = none;
          pull_request_settled_at = settled_time world node;
        })
  unfolding act_on
  act_on-settled agent worktree snapshot merged_state store node found closed =
      rw (after_settled (record_merged world graph_node worktree snapshot) store)
        (record_merged-read worktree snapshot _ _ (record_settled-read store node found))
  act_on-settled agent worktree snapshot closed_state store node found closed =
      rw (after_settled (record_closed world graph_node worktree snapshot) store)
        (record_closed-read worktree snapshot _ _ (record_settled-read store node found))
  act_on-settled agent worktree snapshot open_state store node found closed = ground arith

  -- Where some of the changes would wake the agent, the agent has wakes left, and as many nodes are at
  -- work as the run has workers, reporting the changes returns an empty response and leaves the
  -- whole run as it was, the watermarks included.
  pub report-busy :
      (agent : NodeAgent) (worktree : WorkTree) (changes : List SignalChange)
      (pr_details : PrDetails) (store : Store)
      → is_nil (keep (λ (change : SignalChange). change.wakes_node) changes) ≡ false
      → count_wakes_since_start agent < spec.caps.node_wakes
      → spec.max_workers ≤ workers store.nodes
      → report world spec graph_node agent worktree changes pr_details store
        ≡ (ok (response 0 0), store)
  unfolding report wake_and_tell wake_agent run keep
  report-busy agent worktree [] pr_details store waking left busy = cc
  report-busy agent worktree (change ∷ changes) pr_details store waking left busy =
      let enough : leb spec.caps.node_wakes (count_wakes_since_start agent) ≡ false =
        ground (arith, left) in
      let full : leb spec.max_workers (workers store.nodes) ≡ true = ground (arith, busy) in
      rw (waking, enough, full) refl

  out_of_wakes-effects :
      (pr_details : PrDetails) (store : Store)
      → (out_of_wakes world graph_node pr_details store).1.effects ≡ store.effects
  unfolding out_of_wakes run record_move set_nodes save_audit_entry publish
  out_of_wakes-effects pr_details store = refl

  -- The agent of a resting node is asked for nothing, unless it has been woken less often since its
  -- start than `node_wakes` allows, and fewer nodes are at work than the run has workers.
  pub wake_agent-caps :
      (agent : NodeAgent) (worktree : WorkTree) (changes : List SignalChange)
      (pr_details : PrDetails) (store : Store)
      → ((wake_agent world spec graph_node agent worktree changes pr_details store).1.effects
          ≡ store.effects)
        ⊎ ((count_wakes_since_start agent < spec.caps.node_wakes)
            × (workers store.nodes < spec.max_workers))
  unfolding wake_agent ◌>>=◌ query and_then pure
  wake_agent-caps agent worktree changes pr_details store =
      elim (Bool-cases (leb spec.caps.node_wakes (count_wakes_since_start agent))) [
        | inl spent ↦ inl (rw spent (out_of_wakes-effects pr_details store))
        | inr left ↦ elim (Bool-cases (leb spec.max_workers (workers store.nodes))) [
          | inl busy ↦ inl (rw (left, busy) refl)
          | inr free ↦ inr (ground (arith, left), ground (arith, free))
        ]
      ]

  -- Where the agent has been woken as often as `node_wakes` allows and the node has a row, the node
  -- is moved to needs_human with one audit entry, and the agents of the run stay as they are.
  pub wake_agent-out_of_wakes :
      (agent : NodeAgent) (worktree : WorkTree) (changes : List SignalChange)
      (pr_details : PrDetails) (store : Store) (node : Node)
      → spec.caps.node_wakes ≤ count_wakes_since_start agent
      → read_node graph_node.id store.nodes ≡ some node
      → let after = (wake_agent world spec graph_node agent worktree changes pr_details store).1 in
        (read_node graph_node.id after.nodes
          ≡ some (record node { state = needs_human; updated_at = world.now 1; resume_at = none }))
        × (after.audit_entries
            ≡ store.audit_entries
              ++ record {
                node_id = graph_node.id;
                state = needs_human;
                note = Labels.out_of_wakes;
                created_at = world.now 1;
              }
                ∷ [])
        × (after.agents ≡ store.agents)
  unfolding wake_agent out_of_wakes run record_move set_nodes save_audit_entry publish event_at
      stopped_event
  wake_agent-out_of_wakes agent worktree changes pr_details store node spent found =
      let full : leb spec.caps.node_wakes (count_wakes_since_start agent) ≡ true =
        ground (arith, spent) in
      rw full (
        ground (
          arith,
          found,
          read-update_state graph_node.id graph_node.id needs_human (world.now 1) none store.nodes,
          eq_iff graph_node.id graph_node.id,
        ),
        refl,
        refl,
      )
