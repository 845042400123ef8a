-- ===== src/Tick.antt =====
-- api/cli/handlers/tick_command_handler.py: one control pass, from the validation of the graph to the
-- exit code. The recovery and the learning of a pass, which the program gathers, run one after the
-- other.
pub mod Calm
pub mod Extraction
pub mod Cap
use agentic_dag.Prelude.{ℕ, String, Bool, true, false, not, Option, none, some, if◌then◌else◌}
use agentic_dag.Domain.{Graph, Node, DagSpec, ExitCode, success, failure, run_complete}
use agentic_dag.Labels
use agentic_dag.World.{World}
use agentic_dag.Building.{build_from_path}
use agentic_dag.GraphService.{RunStatus, get_run_status, active, complete, run_errored}
use agentic_dag.Validation.{validate_graph, is_blocking, describe}
use agentic_dag.Store.{M, Store, pure, query, perform, ◌>>=◌, ◌>>◌, emitted}
use agentic_dag.Handlers.Response.{TickResponse, increment_with}
use agentic_dag.Handlers.Sweep.{sweep}
use agentic_dag.Recovery.Scan.{get_recoverable_nodes}
use agentic_dag.Recovery.Dispatch as RecoveryDispatch
use agentic_dag.Learning.Dispatch as LearningDispatch

unfoldable pub recover_failed_nodes : World → DagSpec → ℕ → M TickResponse
recover_failed_nodes world dag_spec current_time = do
  recoverable_nodes ← get_recoverable_nodes world dag_spec current_time
  RecoveryDispatch.dispatch world dag_spec recoverable_nodes current_time

-- The end of `handle`: what it writes, and the exit code.
unfoldable pub conclude : RunStatus → TickResponse → M ExitCode
conclude active tick_response =
    perform
      (emitted (Labels.tick_outcome tick_response.events_applied tick_response.sessions_started))
    >> pure success
conclude complete tick_response = perform (emitted Labels.run_complete) >> pure run_complete
conclude run_errored tick_response = perform (emitted Labels.run_complete) >> pure run_complete

-- `handle` after the validation.
unfoldable pub run_pass : World → DagSpec → Graph → ℕ → M ExitCode
unfolding recover_failed_nodes increment_with conclude
run_pass world dag_spec graph current_time = do
  swept ← sweep world dag_spec graph current_time
  recovery_response ← recover_failed_nodes world dag_spec current_time
  learning_response ← LearningDispatch.dispatch world dag_spec current_time
  run_status ← query (λ store. get_run_status graph store.nodes)
  conclude run_status (increment_with (increment_with swept recovery_response) learning_response)

unfoldable pub handle : World → DagSpec → String → ℕ → M ExitCode
unfolding run_pass validate_graph is_blocking describe
handle world dag_spec dag_path current_time = do
  graph ← build_from_path world dag_path
  let errors = validate_graph graph
  perform (emitted (describe errors))
  if is_blocking errors then pure failure else run_pass world dag_spec graph current_time
