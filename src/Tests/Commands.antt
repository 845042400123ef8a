-- ===== src/Tests/Commands.antt =====
-- The theorems on the commands of a person at work.
use agentic_dag.Prelude.{◌≡◌, ◌⊎◌, refl, String, false, mem, [], ◌∷◌, some, string_eq}
use agentic_dag.Domain.{Node, NodeCommand, needs_human, errored, merged, state_eq}
use agentic_dag.Samples.{graph_node, chain, row, store_with, spec, agent, world}
use agentic_dag.Domain.NodeMethods.{is_skippable}
use agentic_dag.Store.{Store, Failure, raised, read_node, find_row}
use agentic_dag.Services.Commands.{skip, retry_command, is_retryable}
use agentic_dag.Services.Commands.Retrying.{retried_row, retry_command-IsRetried}
use agentic_dag.Services.Commands.Skipping.{
  skipped_row, skip-IsSkipped, skip-outcome, CannotSkip, CanSkip,
}

abbrev of_node : String → NodeCommand
of_node id = record { dag_path = "/dag/dag.yaml"; node_id = id; reset = false }

-- `a` stopped, and `c` merged.
abbrev run_rows : Store
run_rows = store_with (row "a" errored ∷ row "b" needs_human ∷ row "c" merged ∷ []) (agent ∷ [])

skip-IsSkipped_example :
    read_node "a" (skip world spec chain (of_node "a") 60 run_rows).1.nodes
    ≡ some (skipped_row (row "a" errored) 60)
unfolding read_node find_row is_skippable mem
skip-IsSkipped_example =
    skip-IsSkipped world spec chain (of_node "a") 60 run_rows (row "a" errored) refl refl

skip-outcome_example :
    let found = read_node "c" run_rows.nodes in
    let outcome = skip world spec chain (of_node "c") 60 run_rows in
    (CannotSkip found × ((failure : Failure) × (outcome ≡ (raised failure, run_rows))))
    ⊎ (CanSkip found
        × ((node : Node) × (found ≡ some node)
            × (read_node "c" outcome.1.nodes ≡ some (skipped_row node 60))))
skip-outcome_example = skip-outcome world spec chain (of_node "c") 60 run_rows

retry_command-IsRetried_example :
    read_node "a" (retry_command world spec chain (of_node "a") run_rows).1.nodes
    ≡ some (retried_row (row "a" errored) 1 100)
unfolding read_node find_row is_retryable mem
retry_command-IsRetried_example =
    retry_command-IsRetried world spec chain (of_node "a") (graph_node "a" []) (row "a" errored)
      run_rows refl refl refl
