-- ===== src/Services/Schedule/Keeping.antt =====
-- What keeping a run scheduled does to the database: it saves a job, tells of it, and no more.
use agentic_dag.Prelude.{not, refl, Option, none, some, string_eq, String}
use agentic_dag.Domain.{DagSpec, ScheduledJob}
use agentic_dag.World.{World}
use agentic_dag.Store.{Store, Effect, ◌>>=◌, ◌>>◌, pure, query, modify, perform, on_option, run}
use agentic_dag.Store.Moves.{
  Moves, Frame, Keeps, Keeps-Frame, pure-Moves, query-Moves, call-Moves, bind-Moves, then-Moves,
  option-Moves, if-Moves,
}
use agentic_dag.Services.Schedule.{
  save_job, register, build_job, get_by_dag_name, ensure_registered, announce, keep_scheduled,
}

module _ (R : Store → Store → Type 0) ⦃frame : Frame R⦄
    (saves : (job : ScheduledJob) → Moves R (modify (save_job job)))
    (tells : (effect : Effect) → Moves R (perform effect)) (world : World) (spec : DagSpec) where
  register-Moves : (job : ScheduledJob) → Moves R (register world job)
  unfolding register
  register-Moves job =
      then-Moves R _ _ (call-Moves R _)
        (then-Moves R _ _ (tells _) (then-Moves R _ _ (saves job) (pure-Moves R _)))

  ensure_registered-Moves : (path : String) → Moves R (ensure_registered world spec path)
  unfolding ensure_registered
  ensure_registered-Moves path =
      let job = build_job world spec path (world.now 9) in
      bind-Moves R _ _ (call-Moves R _) λ is_registered.
        if-Moves R (not is_registered) (register world job)
          (query (λ store. get_by_dag_name job.dag_name store.jobs) >>= λ stored.
            on_option stored (modify (save_job job) >> pure none) λ row. pure none)
          (register-Moves job)
          (bind-Moves R _ _ (query-Moves R _) λ stored.
            option-Moves R stored _ _ (then-Moves R _ _ (saves job) (pure-Moves R _))
              λ row. pure-Moves R _)

  announce-Moves : (job : Option ScheduledJob) → Moves R (announce job)
  unfolding announce
  announce-Moves none = pure-Moves R _
  announce-Moves (some job) = tells _

  pub keep_scheduled-Moves : (path : String) → Moves R (keep_scheduled world spec path)
  unfolding keep_scheduled
  keep_scheduled-Moves path = bind-Moves R _ _ (ensure_registered-Moves path) announce-Moves

-- The rows of the nodes stay as they are.
abbrev pub KeepsNodes : Store → Store → Type 0
KeepsNodes = Keeps (λ store. store.nodes)

instance pub KeepsNodes-Frame : Frame KeepsNodes
KeepsNodes-Frame = Keeps-Frame (λ store. store.nodes)

pub keep_scheduled-nodes :
    (world : World) (spec : DagSpec) (path : String)
    → Moves KeepsNodes (keep_scheduled world spec path)
unfolding run save_job
keep_scheduled-nodes = keep_scheduled-Moves KeepsNodes (λ job store. refl) (λ effect store. refl)
