-- ===== src/Services/Schedule.antt =====
-- services/scheduling, infra/persistence/sqlite/sqlite_scheduled_job_repo.py and
-- domain/persistence/entities/scheduled_job.py: the host job that advances a run.
pub mod Keeping
use agentic_dag.Prelude.{
  ℕ, String, Bool, true, false, not, ◌&&◌, List, [], ◌∷◌, Option, none, some, ◌==◌, string_eq,
  nat_eq, concat, if◌then◌else◌, keep,
}
use agentic_dag.Domain.{DagSpec, ScheduledJob}
use agentic_dag.Labels
use agentic_dag.World.{World}
use agentic_dag.Store.{
  M, Store, pure, call, query, modify, perform, ◌>>=◌, ◌>>◌, on_option, find_row, emitted,
  registered_job, retired_job,
}

-- `ScheduledJob.get_label`
unfoldable pub get_label : String → String
get_label dag_name = concat ("fyi.virgo.dag" ∷ "." ∷ dag_name ∷ [])

unfoldable pub build_argv : World → String → List String
build_argv world dag_path = world.executable ∷ "start" ∷ "--dag" ∷ world.resolve dag_path ∷ []

-- `ScheduledJobBuilder.build`
unfoldable pub build_job : World → DagSpec → String → ℕ → ScheduledJob
unfolding build_argv get_label
build_job world dag_spec dag_path current_time =
    let home = world.resolve (world.parent dag_path) in
    record {
      dag_name = dag_spec.name;
      label = get_label dag_spec.name;
      argv = build_argv world dag_path;
      interval_seconds = dag_spec.tick_interval_seconds;
      working_directory = home;
      log_path = concat (home ∷ "/start.log" ∷ []);
      environment = world.job_environment;
      created_at = current_time;
    }

-- SqliteScheduledJobRepo

unfoldable pub put_job : ScheduledJob → List ScheduledJob → List ScheduledJob
put_job job [] = job ∷ []
put_job job (row ∷ rows) =
    if row.dag_name == job.dag_name then job ∷ rows else row ∷ put_job job rows

unfoldable pub save_job : ScheduledJob → Store → Store
unfolding put_job
save_job job store = record store { jobs = put_job job store.jobs }

unfoldable pub get_by_dag_name : String → List ScheduledJob → Option ScheduledJob
unfolding find_row
get_by_dag_name dag_name = find_row (λ job. job.dag_name == dag_name)

unfoldable pub delete_job : String → Store → Store
unfolding keep
delete_job dag_name store = record store {
  jobs = keep (λ job. not (job.dag_name == dag_name)) store.jobs;
}

-- RunScheduleService

unfoldable pub register : World → ScheduledJob → M (Option ScheduledJob)
unfolding save_job
register world job = do
  call (world.register job)
  perform (registered_job job)
  modify (save_job job)
  pure (some job)

unfoldable pub ensure_registered : World → DagSpec → String → M (Option ScheduledJob)
unfolding build_job save_job register
ensure_registered world dag_spec dag_path = do
  let job = build_job world dag_spec dag_path (world.now 9)
  is_registered ← call (world.is_registered job)
  if not is_registered then register world job else do
    stored_job ← query (λ store. get_by_dag_name job.dag_name store.jobs)
    on_option stored_job (modify (save_job job) >> pure none) λ stored. pure none

abbrev words_same : List String → List String → Bool
words_same [] [] = true
words_same (a ∷ words) (b ∷ others) = a == b && words_same words others
words_same _ _ = false

abbrev pairs_same : List (String × String) → List (String × String) → Bool
pairs_same [] [] = true
pairs_same ((a, x) ∷ pairs) ((b, y) ∷ others) = a == b && (x == y && pairs_same pairs others)
pairs_same _ _ = false

-- The rows hold the JSON texts of `argv` and `environment`, in the order in which they were built.
unfoldable pub is_unchanged : ScheduledJob → ScheduledJob → Bool
is_unchanged stored job =
    words_same stored.argv job.argv
    && (pairs_same stored.environment job.environment
        && (stored.interval_seconds == job.interval_seconds
            && (stored.working_directory == job.working_directory
                && stored.log_path == job.log_path)))

abbrev unchanged_from : Option ScheduledJob → ScheduledJob → Bool
unchanged_from none job = false
unchanged_from (some stored) job = is_unchanged stored job

unfoldable pub reconcile : World → DagSpec → String → M (Option ScheduledJob)
unfolding build_job register is_unchanged
reconcile world dag_spec dag_path = do
  let job = build_job world dag_spec dag_path (world.now 9)
  is_registered ← call (world.is_registered job)
  stored_job ← query (λ store. get_by_dag_name job.dag_name store.jobs)
  if is_registered && unchanged_from stored_job job then pure none else register world job

abbrev environment_of : Option ScheduledJob → List (String × String)
environment_of none = []
environment_of (some job) = job.environment

unfoldable pub retire : World → String → M (Unit {0})
unfolding get_label delete_job
retire world dag_name = do
  stored_job ← query (λ store. get_by_dag_name dag_name store.jobs)
  on_option stored_job (pure tt) λ job. modify (delete_job job.dag_name)
  let job : ScheduledJob = record {
    dag_name = dag_name;
    label = get_label dag_name;
    argv = [];
    environment = environment_of stored_job;
    interval_seconds = 0;
    working_directory = "";
    log_path = "";
    created_at = 0;
  }
  is_registered ← call (world.is_registered job)
  if is_registered then call (world.retire job) >> perform (retired_job job) else pure tt

-- What a command says of a job that was registered.
unfoldable pub announce : Option ScheduledJob → M (Unit {0})
announce none = pure tt
announce (some job) = perform (emitted (concat (Labels.run_scheduled job.label ∷ "\n" ∷ [])))

-- The end of the commands that put a node back in the run.
unfoldable pub keep_scheduled : World → DagSpec → String → M (Unit {0})
keep_scheduled world dag_spec dag_path = do
  scheduled_job ← ensure_registered world dag_spec dag_path
  announce scheduled_job
