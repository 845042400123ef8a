-- ===== src/Tests/Handlers.antt =====
-- The theorems on the passes at work on the sample run.
use agentic_dag.Prelude.{
  ◌<◌, ◌≤◌, ◌≡◌, refl, List, [], ◌∷◌, some, ◌⊎◌, inl, string_eq, arith, mem, keep, text_lt,
  max_text,
}
use agentic_dag.Domain.{
  pending, in_progress, resting, merged, errored, needs_human, merged_state, is_stopped,
}
use agentic_dag.Domain.{NodeAgent, wake}
use agentic_dag.Samples.{
  session, graph_node, chain, row, reading, store_with, spec, worktree, agent, snapshot, world,
}
use agentic_dag.Store.{Store, ok, read_node, get_nodes_by_state, find_row}
use agentic_dag.Store.Nodes.{AreUnique}
use agentic_dag.Store.Counting.{workers}
use agentic_dag.Labels
use agentic_dag.GraphService.{get_effective_dependencies}
use agentic_dag.Signals.{SignalChange, detect_all, pr_signals, read}
use agentic_dag.Handlers.{response}
use agentic_dag.Handlers.InProgress
use agentic_dag.Handlers.InProgress.Settling.{advance_in_progress-read_node}
use agentic_dag.Handlers.Resting
use agentic_dag.Handlers.Resting.Caps.{advance_resting-read_node}
use agentic_dag.Handlers.Resting.News.{
  act_on-settled, report-busy, wake_agent-caps, wake_agent-out_of_wakes,
}
use agentic_dag.Handlers.Pending
use agentic_dag.Handlers.Pending.Admission.{
  IsAdmitted, advance_pending-read_node, advance-IsAdmitted, advance-upstream_stopped,
}
use agentic_dag.Handlers.Merged
use agentic_dag.Handlers.Merged.Reclaiming.{IsReclaimed, advance-IsReclaimed}
use agentic_dag.Handlers.Sweep.{sweep}
use agentic_dag.Handlers.Sweep.Cap.{sweep-max_workers}

-- `a` has merged, and the others wait.
abbrev store : Store
store = store_with (row "a" merged ∷ row "b" pending ∷ row "c" pending ∷ []) (agent ∷ [])

-- `a` has stopped.
abbrev stopped_store : Store
stopped_store = store_with (row "a" errored ∷ row "b" pending ∷ row "c" pending ∷ []) (agent ∷ [])

-- `b` works, and `a` rests.
abbrev busy_store : Store
busy_store = store_with (row "a" resting ∷ row "b" in_progress ∷ row "c" pending ∷ []) (agent ∷ [])

sweep-max_workers_example :
    AreUnique (sweep world spec chain 50 store).1.nodes
    × ((workers (sweep world spec chain 50 store).1.nodes ≤ workers store.nodes)
        ⊎ (workers (sweep world spec chain 50 store).1.nodes ≤ 1))
unfolding mem
sweep-max_workers_example =
    sweep-max_workers world spec chain 50 store (refl, (refl, (refl, tt)))
      (refl, (refl, (refl, tt)))

advance_pending-read_node_example :
    read_node "c" (Pending.advance world spec chain 50 (graph_node "b" ("a" ∷ [])) store).1.nodes
    ≡ read_node "c" store.nodes
advance_pending-read_node_example =
    advance_pending-read_node world spec chain (graph_node "b" ("a" ∷ [])) 50 store "c" refl

advance_resting-read_node_example :
    read_node "b" (Resting.advance world spec (graph_node "a" []) busy_store).1.nodes
    ≡ read_node "b" busy_store.nodes
advance_resting-read_node_example =
    advance_resting-read_node world spec (graph_node "a" []) busy_store "b" refl

advance_in_progress-read_node_example :
    read_node "c" (InProgress.advance world (graph_node "a" []) busy_store).1.nodes
    ≡ read_node "c" busy_store.nodes
advance_in_progress-read_node_example =
    advance_in_progress-read_node world (graph_node "a" []) busy_store "c" refl

advance-IsAdmitted_example :
    ((Pending.advance world spec chain 50 (graph_node "b" ("a" ∷ [])) store).1.effects ≡ [])
    ⊎ IsAdmitted world spec chain (graph_node "b" ("a" ∷ [])) 50 store
advance-IsAdmitted_example =
    advance-IsAdmitted world spec chain (graph_node "b" ("a" ∷ [])) 50 store

advance-upstream_stopped_example :
    let after = (Pending.advance world spec chain 50 (graph_node "b" ("a" ∷ [])) stopped_store).1 in
    (read_node "b" after.nodes
      ≡ some (record (row "b" pending) { state = needs_human; updated_at = 50 }))
    × (after.audit_entries
        ≡ record {
          node_id = "b";
          state = needs_human;
          note = Labels.upstream_stopped "a";
          created_at = 50;
        }
          ∷ [])
    × (after.effects ≡ [])
unfolding find_row Pending.dependency_rows get_effective_dependencies is_stopped read_node
advance-upstream_stopped_example =
    advance-upstream_stopped world spec chain (graph_node "b" ("a" ∷ [])) 50 stopped_store
      (row "a" errored) (row "b" pending) refl refl

act_on-settled_example :
    read_node "a"
      (Resting.act_on world spec
        (graph_node "a" [])
        agent
        worktree
        (snapshot merged_state)
        merged_state
        busy_store).1.nodes
    ≡ some (record (row "a" resting) {
      state = merged;
      updated_at = 100;
      pull_request_settled_at = some 100;
    })
unfolding read_node
act_on-settled_example =
    act_on-settled world spec (graph_node "a" []) agent worktree (snapshot merged_state)
      merged_state busy_store (row "a" resting) refl (inl refl)

abbrev changes : List SignalChange
changes = detect_all (pr_signals "bot") reading []

report-busy_example :
    Resting.report world spec (graph_node "a" []) agent worktree changes reading busy_store
    ≡ (ok (response 0 0), busy_store)
unfolding keep detect_all pr_signals text_lt read max_text Resting.count_wakes_since_start
    get_nodes_by_state
report-busy_example =
    report-busy world spec (graph_node "a" []) agent worktree changes reading busy_store refl
      (omega arith) (omega arith)

wake_agent-caps_example :
    ((Resting.wake_agent world spec
        (graph_node "a" [])
        agent
        worktree
        changes
        reading
        store).1.effects
      ≡ [])
    ⊎ ((Resting.count_wakes_since_start agent < 3) × (workers store.nodes < 1))
wake_agent-caps_example =
    wake_agent-caps world spec (graph_node "a" []) agent worktree changes reading store

-- An agent that has been woken three times since it was launched.
abbrev tired_agent : NodeAgent
tired_agent =
    let woken = record session { triggered_by = some wake } in
    record agent { sessions = session ∷ woken ∷ woken ∷ woken ∷ [] }

wake_agent-out_of_wakes_example :
    let after =
      (Resting.wake_agent world spec
        (graph_node "a" [])
        tired_agent
        worktree
        changes
        reading
        busy_store).1 in
    (read_node "a" after.nodes
      ≡ some (record (row "a" resting) { state = needs_human; updated_at = 100 }))
    × (after.audit_entries
        ≡ record {
          node_id = "a";
          state = needs_human;
          note = Labels.out_of_wakes;
          created_at = 100;
        }
          ∷ [])
    × (after.agents ≡ agent ∷ [])
unfolding read_node Resting.count_wakes_since_start
wake_agent-out_of_wakes_example =
    wake_agent-out_of_wakes world spec (graph_node "a" []) tired_agent worktree changes reading
      busy_store (row "a" resting) (omega arith) refl

advance-IsReclaimed_example :
    IsReclaimed (graph_node "a" []) store (Merged.advance world 50 (graph_node "a" []) store).1
advance-IsReclaimed_example = advance-IsReclaimed world (graph_node "a" []) 50 store
