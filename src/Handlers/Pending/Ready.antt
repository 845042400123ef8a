-- ===== src/Handlers/Pending/Ready.antt =====
-- What a pass writes to the rows of a pending node.
use agentic_dag.Prelude.{
  ℕ, ◌≡◌, refl, String, Bool, true, List, [], ◌∷◌, ◌++◌, Option, none, some, ◌==◌, string_eq, all,
  leb, length, inl, inr, Option-cases, Bool-cases,
}
use agentic_dag.Domain.{
  NodeState, pending, in_progress, needs_human, errored, merged, state_eq, is_stopped, GraphNode,
  Graph, Node, NodeAgent, DagSpec, WorkTree, PullRequestDetails,
}
use agentic_dag.StartTime.{get_start_time}
use agentic_dag.World.{World}
use agentic_dag.Store.{
  M, Store, Failure, base_branch_missing, worktree_conflict, worktree_error, observation_error,
  os_error, unhandled, read_node, get_nodes_by_state, find_row, ◌>>=◌, query, and_then, on_option,
}
use agentic_dag.Store.Counting.{has_free_worker}
use agentic_dag.Store.Touch.{
  Writes-handled, Touch, kept, moved, ensured, Writes, Writes-try, Writes-bind, Writes-then,
  Writes-option, Writes-if, Writes-query, Writes-call, Writes-pure, Writes-record_move,
  Writes-save_agent, Writes-set_nodes, Writes-save_audit_entry, Writes-publish, writes,
}
use agentic_dag.Handlers.Response.{TickResponse}
use agentic_dag.Handlers.Import.{import_node, record_takeover, launch_adopted}
use agentic_dag.Handlers.Pending.{
  record_wait, adopt, open_session, launch_agent, resume_agent, start, failure_handler, give_up,
  stop_node, begin, admit, advance, started_event, stopped_event, is_future, skipped_rows,
  dependency_rows,
}

-- The states that a pending node is moved to: to work only while a worker is free.
abbrev pub Starts : Bool → NodeState → Type 0
Starts free pending = Unit
Starts free needs_human = Unit
Starts free errored = Unit
Starts free in_progress = free ≡ true
Starts free _ = ⊥

open_session-Writes :
    (id : String) (Allowed : NodeState → Type 0) (world : World) (graph_node : GraphNode)
    (node : Node) (worktree : WorkTree) (recorded : Option NodeAgent)
    → Writes id Allowed (open_session world graph_node node worktree recorded)
unfolding open_session launch_agent resume_agent
open_session-Writes id Allowed world graph_node node worktree none = search writes
open_session-Writes id Allowed world graph_node node worktree (some agent) = search writes

start-Writes :
    (world : World) (graph_node : GraphNode) (node : Node) (now : ℕ)
    → Writes graph_node.id (Starts true) (start world graph_node node now)
unfolding start started_event
start-Writes world graph_node node now = Writes-bind (Writes-call _) λ worktree.
    Writes-bind (Writes-query _) λ recorded.
      Writes-bind
        (open_session-Writes graph_node.id (Starts true) world graph_node node worktree recorded)
        λ opened. Writes-then (Writes-save_agent opened.0) (
          Writes-then
            (Writes-record_move (started_event graph_node now) in_progress opened.1 refl refl)
            (Writes-pure _))

launch_adopted-Writes :
    (id : String) (Allowed : NodeState → Type 0) (world : World) (graph_node : GraphNode)
    (worktree : WorkTree) (recorded : Option NodeAgent)
    → Writes id Allowed (launch_adopted world graph_node worktree recorded)
unfolding launch_adopted
launch_adopted-Writes id Allowed world graph_node worktree recorded = search writes

record_takeover-Writes :
    (Allowed : NodeState → Type 0) (world : World) (graph_node : GraphNode)
    (details : PullRequestDetails) (agent : NodeAgent) (state : NodeState)
    → Allowed state
    → Writes graph_node.id Allowed (record_takeover world graph_node details agent state)
unfolding record_takeover
record_takeover-Writes Allowed world graph_node details agent state allowed =
    Writes-then (Writes-set_nodes _ (λ nodes. ensured graph_node (world.now 0) kept refl refl)) (
      Writes-bind (Writes-query _) λ found. Writes-option found (Writes-pure tt) λ node.
        Writes-then (Writes-save_agent agent) (
          Writes-then
            (Writes-set_nodes _ (λ nodes. moved state (world.now 0) none kept allowed refl))
            (Writes-then (Writes-save_audit_entry _) (Writes-publish _))))

import_node-Writes :
    (Allowed : NodeState → Type 0) (world : World) (graph_node : GraphNode)
    (details : PullRequestDetails)
    → Allowed in_progress
    → Writes graph_node.id Allowed (import_node world graph_node details "")
unfolding import_node
import_node-Writes Allowed world graph_node details working =
    Writes-bind (Writes-call _) λ provisioned. Writes-bind (Writes-query _) λ recorded.
      Writes-bind (launch_adopted-Writes graph_node.id Allowed world _ _ recorded)
        λ agent. record_takeover-Writes Allowed world _ details agent in_progress working

stop_node-Writes :
    (free : Bool) (graph_node : GraphNode) (note : String) (now : ℕ)
    → Writes graph_node.id (Starts free) (stop_node graph_node note now)
unfolding stop_node stopped_event
stop_node-Writes free graph_node note now =
    Writes-then (Writes-record_move (stopped_event graph_node _ note now) needs_human note refl tt)
      (Writes-pure _)

give_up-Writes :
    (graph_node : GraphNode) (note : String) (now : ℕ)
    → Writes graph_node.id (Starts true) (give_up graph_node note now)
unfolding give_up stopped_event
give_up-Writes graph_node note now =
    Writes-then (Writes-record_move (stopped_event graph_node _ note now) errored note refl tt)
      (Writes-pure _)

failure_handler-Writes :
    (graph_node : GraphNode) (now : ℕ) (failure : Failure) (m : M TickResponse)
    → failure_handler graph_node now failure ≡ some m
    → Writes graph_node.id (Starts true) m
unfolding failure_handler
failure_handler-Writes graph_node now (base_branch_missing note) m e =
    Writes-handled e (give_up-Writes graph_node note now)
failure_handler-Writes graph_node now (worktree_conflict note) m e =
    Writes-handled e (give_up-Writes graph_node note now)
failure_handler-Writes graph_node now (worktree_error _) m e = Writes-handled e (Writes-pure _)
failure_handler-Writes graph_node now (observation_error _) m e = Writes-handled e (Writes-pure _)
failure_handler-Writes graph_node now (os_error _) m e = Writes-handled e (Writes-pure _)
failure_handler-Writes graph_node now (unhandled _) m e = cc

begin-Writes :
    (world : World) (graph_node : GraphNode) (node : Node) (now : ℕ)
    → Writes graph_node.id (Starts true) (begin world graph_node node now)
unfolding begin adopt
begin-Writes world graph_node node now = Writes-if _ (stop_node-Writes true graph_node _ now) (
    Writes-try
      (Writes-bind (Writes-query _) λ resumable.
        Writes-if _
          (Writes-bind (Writes-call _) λ details.
            Writes-then (import_node-Writes (Starts true) world graph_node details refl)
              (Writes-pure _))
          (start-Writes world graph_node node now))
      (failure_handler-Writes graph_node now))

record_wait-Writes :
    (free : Bool) (world : World) (graph_node : GraphNode) (start_time : ℕ)
    → Writes graph_node.id (Starts free) (record_wait world graph_node start_time)
unfolding record_wait
record_wait-Writes free world graph_node start_time = Writes-bind (Writes-query _) λ found.
    Writes-option found (Writes-pure tt) λ node. Writes-if _ (Writes-pure tt) (
      Writes-then (Writes-set_nodes _ (λ nodes. moved pending (world.now 0) none kept tt refl))
        (Writes-save_audit_entry _))

admit-Touch :
    (world : World) (spec : DagSpec) (graph : Graph) (graph_node : GraphNode) (now : ℕ)
    (dependencies : List Node) (node : Node) (store : Store)
    → Touch graph_node.id
        (Starts (has_free_worker spec store))
        store.nodes
        (admit world spec graph graph_node now dependencies node store).1.nodes
unfolding admit ◌>>=◌ query and_then
admit-Touch world spec graph graph_node now dependencies node store =
    elim (Bool-cases (
      is_future now
        (get_start_time graph graph_node (skipped_rows store ++ (dependencies ++ node ∷ []))))) [
          | inl early ↦
              rw early (
                (Writes-then (record_wait-Writes _ world graph_node _) (Writes-pure _)).apply store)
          | inr due ↦
              elim (Bool-cases
                (leb spec.max_workers (length (get_nodes_by_state in_progress store.nodes)))) [
                  | inl busy ↦ rw (due, busy) ((Writes-pure _).apply store)
                  | inr free ↦ rw (due, free) ((begin-Writes world graph_node node now).apply store)
                ]
        ]

pub advance-Touch :
    (world : World) (spec : DagSpec) (graph : Graph) (graph_node : GraphNode) (now : ℕ)
    (store : Store)
    → Touch graph_node.id
        (Starts (has_free_worker spec store))
        store.nodes
        (advance world spec graph now graph_node store).1.nodes
unfolding advance ◌>>=◌ query and_then on_option
advance-Touch world spec graph graph_node now store =
    elim (Option-cases
      (find_row (λ (row : Node). is_stopped row.state) (dependency_rows graph graph_node store))) [
        | inr (row, stopped) ↦ rw stopped ((stop_node-Writes _ graph_node _ now).apply store)
        | inl none_stopped ↦
            elim (Bool-cases (
              all (λ (row : Node). row.state == merged) (dependency_rows graph graph_node store))) [
                | inr waiting ↦ rw (none_stopped, waiting) ((Writes-pure _).apply store)
                | inl all_merged ↦ elim (Option-cases (read_node graph_node.id store.nodes)) [
                  | inl missing ↦
                      rw (none_stopped, all_merged, missing) ((Writes-pure _).apply store)
                  | inr (node, found) ↦
                      rw (none_stopped, all_merged, found)
                        (admit-Touch world spec graph graph_node now
                          (dependency_rows graph graph_node store) node store)
                ]
              ]
      ]
