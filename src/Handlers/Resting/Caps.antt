-- ===== src/Handlers/Resting/Caps.antt =====
-- What a pass over a resting node may do to the rows, and when it wakes the node's agent.
use agentic_dag.Prelude.{
  ◌≤◌, ◌≡◌, refl, String, Bool, true, false, not, ◌||◌, List, [], ◌∷◌, some, ◌==◌, string_eq,
  nat_eq, leb, if◌then◌else◌, ◌⊎◌, inl, inr, Option-cases, Bool-cases, keep,
}
use agentic_dag.Domain.{
  NodeState, pending, in_progress, needs_human, errored, merged, skipped, resting, state_eq,
  GraphNode, DagSpec, NodeAgent, WorkTree, PrDetails, PullRequestSnapshot, PullRequestState,
  open_state, closed_state, merged_state,
}
use agentic_dag.Domain.NodeMethods.{has_pull_request_settled}
use agentic_dag.Signals.{SignalChange, advanced}
use agentic_dag.World.{World}
use agentic_dag.Store.{
  M, Store, Failure, base_branch_missing, worktree_conflict, worktree_error, observation_error,
  os_error, unhandled, read_node, run, pure, set_nodes, ◌>>=◌, query, and_then, add_session,
  save_worktree, advance_marks, update_worktree, get_by_node_id,
}
use agentic_dag.Store.Nodes.{AreUnique, read_node-some}
use agentic_dag.Store.Touch.{
  Writes-handled, Touch, if-Touch, option-Touch, call-Touch, bind-Touch, try-Touch, kept, settled,
  Writes, Writes-other, Writes-bind, Writes-then, Writes-option, Writes-if, Writes-call,
  Writes-pure, Writes-perform, Writes-record_move, Writes-publish,
}
use agentic_dag.Store.Counting.{workers, has_free_worker}
use agentic_dag.Store.Reach.{Touch-frame, Touch-cap}
use agentic_dag.Handlers.Response.{TickResponse, can_launch}
use agentic_dag.Handlers.Resting.{
  publish_news, get_signal_event, record_settled, record_merged, record_closed, out_of_wakes,
  resume, wake_agent, wake_and_tell, tell, report, act_on, observe_open, observe, failure_handler,
  never_started, advance, stopped_event, event_at, is_nil, count_wakes_since_start,
}

-- The states that a resting node is moved to: to work only while a worker is free.
abbrev pub Rests : Bool → NodeState → Type 0
Rests free merged = Unit
Rests free needs_human = Unit
Rests free errored = Unit
Rests free in_progress = free ≡ true
Rests free _ = ⊥

Rests-idle : (state : NodeState) → Rests false state → (state == in_progress) ≡ false
Rests-idle pending allowed = refl
Rests-idle needs_human allowed = refl
Rests-idle errored allowed = refl
Rests-idle in_progress allowed = cc
Rests-idle merged allowed = refl
Rests-idle skipped allowed = refl
Rests-idle resting allowed = refl

module _ (world : World) (graph_node : GraphNode) where
  publish_news-Writes :
      (Allowed : NodeState → Type 0) (changes : List SignalChange) (pr_details : PrDetails)
      → Writes graph_node.id Allowed (publish_news world graph_node changes pr_details)
  unfolding publish_news
  publish_news-Writes Allowed [] pr_details = Writes-pure tt
  publish_news-Writes Allowed (change ∷ changes) pr_details =
      Writes-then
        (Writes-option (get_signal_event world graph_node change pr_details) (Writes-pure tt)
          λ event. Writes-publish event)
        (publish_news-Writes Allowed changes pr_details)

  -- The row that is read is the row of the node.
  record_settled-Touch :
      (Allowed : NodeState → Type 0) (store : Store)
      → Touch graph_node.id Allowed store.nodes (record_settled world graph_node store).1.nodes
  unfolding record_settled run set_nodes
  record_settled-Touch Allowed store = elim (Option-cases (read_node graph_node.id store.nodes)) [
    | inl missing ↦ rw missing kept
    | inr (node, found) ↦ elim (Bool-cases (has_pull_request_settled node)) [
      | inl already ↦ rw (found, already) kept
      | inr first ↦
          rw (found, first)
            (settled (world.now 0) kept
              (rw (read_node-some graph_node.id store.nodes node found).1 refl))
    ]
  ]

  record_settled-Writes :
      (Allowed : NodeState → Type 0)
      → Writes graph_node.id Allowed (record_settled world graph_node)
  record_settled-Writes Allowed = record { apply = record_settled-Touch Allowed }

  record_merged-Writes :
      (free : Bool) (worktree : WorkTree) (snapshot : PullRequestSnapshot)
      → Writes graph_node.id (Rests free) (record_merged world graph_node worktree snapshot)
  unfolding record_merged event_at
  record_merged-Writes free worktree snapshot =
      Writes-then (Writes-record_move _ merged _ refl tt) (Writes-pure _)

  record_closed-Writes :
      (free : Bool) (worktree : WorkTree) (snapshot : PullRequestSnapshot)
      → Writes graph_node.id (Rests free) (record_closed world graph_node worktree snapshot)
  unfolding record_closed event_at stopped_event
  record_closed-Writes free worktree snapshot =
      Writes-then (Writes-record_move _ needs_human _ refl tt) (Writes-pure _)

  out_of_wakes-Writes :
      (free : Bool) (pr_details : PrDetails)
      → Writes graph_node.id (Rests free) (out_of_wakes world graph_node pr_details)
  unfolding out_of_wakes event_at stopped_event
  out_of_wakes-Writes free pr_details =
      Writes-then (Writes-record_move _ needs_human _ refl tt) (Writes-pure _)

  never_started-Writes :
      (free : Bool) → Writes graph_node.id (Rests free) (never_started world graph_node)
  unfolding never_started event_at stopped_event
  never_started-Writes free = Writes-then (Writes-record_move _ errored _ refl tt) (Writes-pure _)

  resume-Writes :
      (agent : NodeAgent) (worktree : WorkTree) (changes : List SignalChange)
      (pr_details : PrDetails)
      → Writes graph_node.id
          (Rests true)
          (resume world graph_node agent worktree changes pr_details)
  unfolding resume event_at add_session save_worktree update_worktree
  resume-Writes agent worktree changes pr_details = Writes-bind (Writes-call _) λ launched.
      Writes-then (Writes-perform _) (
        Writes-then (Writes-other _ λ store. refl) (
          Writes-then (Writes-other _ λ store. refl)
            (Writes-then (Writes-record_move _ in_progress _ refl refl) (Writes-pure _))))

  tell-Writes :
      (Allowed : NodeState → Type 0) (worktree : WorkTree) (changes : List SignalChange)
      (pr_details : PrDetails) (tick_response : TickResponse)
      → Writes graph_node.id Allowed
          (tell world graph_node worktree changes pr_details tick_response)
  unfolding tell advance_marks update_worktree
  tell-Writes Allowed worktree changes pr_details tick_response =
      Writes-then (Writes-other _ λ store. refl)
        (Writes-then (publish_news-Writes Allowed changes pr_details) (Writes-pure _))

  failure_handler-Writes :
      (Allowed : NodeState → Type 0) (failure : Failure) (m : M TickResponse)
      → failure_handler failure ≡ some m
      → Writes graph_node.id Allowed m
  unfolding failure_handler
  failure_handler-Writes Allowed (base_branch_missing _) m e = Writes-handled e (Writes-pure _)
  failure_handler-Writes Allowed (worktree_conflict _) m e = Writes-handled e (Writes-pure _)
  failure_handler-Writes Allowed (worktree_error _) m e = Writes-handled e (Writes-pure _)
  failure_handler-Writes Allowed (observation_error _) m e = Writes-handled e (Writes-pure _)
  failure_handler-Writes Allowed (os_error _) m e = Writes-handled e (Writes-pure _)
  failure_handler-Writes Allowed (unhandled _) m e = cc

module _ (world : World) (spec : DagSpec) (graph_node : GraphNode) where
  wake_agent-Touch :
      (agent : NodeAgent) (worktree : WorkTree) (changes : List SignalChange)
      (pr_details : PrDetails) (store : Store)
      → Touch graph_node.id
          (Rests (has_free_worker spec store))
          store.nodes
          (wake_agent world spec graph_node agent worktree changes pr_details store).1.nodes
  unfolding wake_agent ◌>>=◌ query and_then
  wake_agent-Touch agent worktree changes pr_details store =
      elim (Bool-cases (leb spec.caps.node_wakes (count_wakes_since_start agent))) [
        | inl spent ↦ rw spent ((out_of_wakes-Writes world graph_node _ pr_details).apply store)
        | inr left ↦ elim (Bool-cases (leb spec.max_workers (workers store.nodes))) [
          | inl busy ↦ rw (left, busy) ((Writes-pure _).apply store)
          | inr free ↦
              rw (left, free)
                ((resume-Writes world graph_node agent worktree changes pr_details).apply store)
        ]
      ]

  wake_and_tell-Touch :
      (agent : NodeAgent) (worktree : WorkTree) (waking changes : List SignalChange)
      (pr_details : PrDetails) (store : Store)
      → Touch graph_node.id
          (Rests (has_free_worker spec store))
          store.nodes
          (wake_and_tell world spec graph_node agent worktree waking changes pr_details
            store).1.nodes
  unfolding wake_and_tell
  wake_and_tell-Touch agent worktree waking changes pr_details store =
      bind-Touch (wake_agent world spec graph_node agent worktree waking pr_details)
        (λ tick_response.
          if tick_response.sessions_started == 0
          then pure tick_response
          else tell world graph_node worktree changes pr_details tick_response)
        store (wake_agent-Touch agent worktree waking pr_details store)
        λ tick_response.
          Writes-if _ (Writes-pure _)
            (tell-Writes world graph_node _ worktree changes pr_details tick_response)

  report-Touch :
      (agent : NodeAgent) (worktree : WorkTree) (changes : List SignalChange)
      (pr_details : PrDetails) (store : Store)
      → Touch graph_node.id
          (Rests (has_free_worker spec store))
          store.nodes
          (report world spec graph_node agent worktree changes pr_details store).1.nodes
  unfolding report ◌>>=◌
  report-Touch agent worktree changes pr_details store = elim (Bool-cases (is_nil changes)) [
    | inl quiet ↦ rw quiet ((Writes-pure _).apply store)
    | inr news ↦
        elim (Bool-cases (is_nil (keep (λ (change : SignalChange). change.wakes_node) changes))) [
          | inl silent ↦
              rw (news, silent)
                ((tell-Writes world graph_node _ _ changes pr_details _).apply store)
          | inr waking ↦
              rw (news, waking)
                (wake_and_tell-Touch agent
                  (record worktree { marks = advanced worktree.marks changes })
                  (keep (λ (change : SignalChange). change.wakes_node) changes) changes pr_details
                  store)
        ]
  ]

  observe_open-Touch :
      (agent : NodeAgent) (worktree : WorkTree) (snapshot : PullRequestSnapshot) (store : Store)
      → Touch graph_node.id
          (Rests (has_free_worker spec store))
          store.nodes
          (observe_open world spec graph_node agent worktree snapshot store).1.nodes
  unfolding observe_open
  observe_open-Touch agent worktree snapshot store =
      call-Touch (world.get_review_artifacts graph_node worktree.pr_number) _ store
        λ artifacts. report-Touch agent worktree _ _ store

  act_on-Touch :
      (agent : NodeAgent) (worktree : WorkTree) (snapshot : PullRequestSnapshot)
      (state : PullRequestState) (store : Store)
      → Touch graph_node.id
          (Rests (has_free_worker spec store))
          store.nodes
          (act_on world spec graph_node agent worktree snapshot state store).1.nodes
  unfolding act_on
  act_on-Touch agent worktree snapshot merged_state store =
      (Writes-then (record_settled-Writes world graph_node _)
          (record_merged-Writes world graph_node _ worktree snapshot)).apply
        store
  act_on-Touch agent worktree snapshot closed_state store =
      (Writes-then (record_settled-Writes world graph_node _)
          (record_closed-Writes world graph_node _ worktree snapshot)).apply
        store
  act_on-Touch agent worktree snapshot open_state store =
      observe_open-Touch agent worktree snapshot store

  observe-Touch :
      (agent : NodeAgent) (worktree : WorkTree) (store : Store)
      → Touch graph_node.id
          (Rests (has_free_worker spec store))
          store.nodes
          (observe world spec graph_node agent worktree store).1.nodes
  unfolding observe
  observe-Touch agent worktree store =
      call-Touch (world.get_pull_request graph_node worktree.pr_number) _ store λ snapshot.
        if-Touch (not snapshot.is_complete) _ _ store ((Writes-pure _).apply store)
          (act_on-Touch agent worktree snapshot snapshot.state store)

  pub advance-Touch :
      (store : Store)
      → Touch graph_node.id
          (Rests (has_free_worker spec store))
          store.nodes
          (advance world spec graph_node store).1.nodes
  unfolding advance ◌>>=◌ query and_then
  advance-Touch store =
      let never =
        (never_started-Writes world graph_node (has_free_worker spec store)).apply store in
      option-Touch (get_by_node_id graph_node.id store.agents) _ _ store never λ agent.
        option-Touch agent.worktree _ _ store never λ worktree.
          if-Touch (worktree.pr_number == 0 || not (can_launch world graph_node.executor_agent)) _ _
            store ((Writes-pure _).apply store)
            (try-Touch (observe world spec graph_node agent worktree) failure_handler store
              (observe-Touch agent worktree store) (failure_handler-Writes world graph_node _))

  -- A pass over a resting node leaves the rows of the other nodes as they are.
  pub advance_resting-read_node :
      (store : Store) (other : String)
      → (graph_node.id == other) ≡ false
      → read_node other (advance world spec graph_node store).1.nodes ≡ read_node other store.nodes
  advance_resting-read_node store other = Touch-frame other (advance-Touch store)

  -- With one row per node, a pass over a resting node keeps one row per node, and leaves no more
  -- nodes at work than there were before, or no more than `max_workers`.
  pub advance-max_workers :
      (store : Store)
      → AreUnique store.nodes
      → AreUnique (advance world spec graph_node store).1.nodes
        × ((workers (advance world spec graph_node store).1.nodes ≤ workers store.nodes)
            ⊎ (workers (advance world spec graph_node store).1.nodes ≤ spec.max_workers))
  advance-max_workers store =
      Touch-cap Rests spec.max_workers (has_free_worker spec store) refl Rests-idle
        (advance-Touch store)
