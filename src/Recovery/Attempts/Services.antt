-- ===== src/Recovery/Attempts/Services.antt =====
-- Releasing dependents and keeping a run scheduled costs no attempt.
use agentic_dag.Prelude.{ℕ, refl, String, List, [], ◌∷◌, string_eq}
use agentic_dag.Domain.{Node, DagSpec, Graph, ScheduledJob}
use agentic_dag.World.{World}
use agentic_dag.Store.{modify}
use agentic_dag.Store.Moves.{Moves, pure-Moves, query-Moves, bind-Moves, then-Moves}
use agentic_dag.Services.Schedule.{save_job, keep_scheduled}
use agentic_dag.Services.Schedule.Keeping.{keep_scheduled-Moves}
use agentic_dag.Services.Release.{record_released, release}
use agentic_dag.Recovery.Attempts.{
  Unspent, Unspent-Frame, same_nodes, record_move-Unspent, perform-Unspent,
}

record_released-Unspent : (nodes : List Node) (now : ℕ) → Moves Unspent (record_released nodes now)
unfolding record_released
record_released-Unspent [] now = pure-Moves Unspent _
record_released-Unspent (node ∷ nodes) now =
    then-Moves Unspent _ _ (record_move-Unspent _ _ _) (record_released-Unspent nodes now)

pub release-Unspent : (graph : Graph) (id : String) (now : ℕ) → Moves Unspent (release graph id now)
unfolding release
release-Unspent graph id now =
    bind-Moves Unspent _ _ (query-Moves Unspent _)
      λ nodes. then-Moves Unspent _ _ (record_released-Unspent nodes now) (pure-Moves Unspent _)

save_job-Unspent : (job : ScheduledJob) → Moves Unspent (modify (save_job job))
unfolding modify save_job
save_job-Unspent job store = same_nodes store _ refl refl

pub keep_scheduled-Unspent :
    (world : World) (spec : DagSpec) (path : String)
    → Moves Unspent (keep_scheduled world spec path)
keep_scheduled-Unspent = keep_scheduled-Moves Unspent save_job-Unspent perform-Unspent
