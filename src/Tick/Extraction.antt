-- ===== src/Tick/Extraction.antt =====
-- The learning of a pass puts no node to work.
use agentic_dag.Prelude.{
  ℕ, ◌+◌, ltb, refl, String, not, List, [], ◌∷◌, Option, none, some, string_eq, arith,
}
use agentic_dag.Domain.{state_eq, Node, DagSpec}
use agentic_dag.World.{World}
use agentic_dag.Handlers.Response.{response}
use agentic_dag.Store.{
  LockFile, pure, query, call, perform, modify, on_option, ◌>>=◌, ◌>>◌, set_nodes,
  record_learnings_extracted, get_nodes_due_for_learning_extraction, killed,
}
use agentic_dag.Store.Nodes.{update_where-AreUnique}
use agentic_dag.Store.Moves.{
  Moves, pure-Moves, query-Moves, call-Moves, bind-Moves, then-Moves, option-Moves, if-Moves,
}
use agentic_dag.Recovery.Dispatch.Parts.{record_notes-Moves}
use agentic_dag.Tick.Calm.{Calm, Calm-Frame, Calm-Allows, same_rows, learned-workers}
use agentic_dag.Learning.Lock.{
  get_live_session_pid, get_session_node_ids, acquire, create_lock, record_session_pid, set_lock,
  release,
}
use agentic_dag.Learning.Dispatch.{
  ids_of, compose_prompt, launch_learning, record_failure, end_finished, end_finished_session,
  end_overdue, end_overdue_session,
}
use agentic_dag.Learning.Dispatch as LearningDispatch

set_lock-Calm : (file : Option LockFile) → Moves Calm (modify (set_lock file))
unfolding modify set_lock
set_lock-Calm file store = same_rows store _ refl

release-Calm : Moves Calm release
unfolding release
release-Calm = set_lock-Calm none

module _ (world : World) where
  record_session_pid-Calm :
      (pid : ℕ) (node_ids : List String) → Moves Calm (record_session_pid world pid node_ids)
  unfolding record_session_pid
  record_session_pid-Calm pid node_ids = set_lock-Calm _

  create_lock-Calm : (file : Option LockFile) → Moves Calm (create_lock world file)
  create_lock-Calm none =
      then-Moves Calm _ _ (record_session_pid-Calm world.getpid []) (pure-Moves Calm _)
  create_lock-Calm (some file) = pure-Moves Calm _

  acquire-Calm : Moves Calm (acquire world)
  unfolding acquire
  acquire-Calm = bind-Moves Calm _ _ (query-Moves Calm _) λ may_take.
      then-Moves Calm _ _
        (if-Moves Calm may_take (modify (set_lock none)) (pure tt) (set_lock-Calm none)
          (pure-Moves Calm tt))
        (bind-Moves Calm _ _ (query-Moves Calm _) create_lock-Calm)

record_failure-Calm :
    (ids : List String) (exit_code now : ℕ) → Moves Calm (record_failure ids exit_code now)
unfolding record_failure
record_failure-Calm ids exit_code now =
    bind-Moves Calm _ _ (query-Moves Calm _) λ nodes. record_notes-Moves Calm nodes _ now

module _ (world : World) (spec : DagSpec) (now : ℕ) where
  launch_learning-Calm : (prompt : String) → Moves Calm (launch_learning world spec prompt now)
  unfolding launch_learning
  launch_learning-Calm prompt =
      bind-Moves Calm _ _ (call-Moves Calm _)
        λ session. then-Moves Calm _ _ (Calm-Allows.performs _) (pure-Moves Calm _)

  end_finished-Calm : (ids : List String) → Moves Calm (end_finished world ids now)
  unfolding end_finished
  end_finished-Calm [] = pure-Moves Calm _
  end_finished-Calm (id ∷ ids) = bind-Moves Calm _ _ (call-Moves Calm _) λ exit_code.
      then-Moves Calm _ _
        (if-Moves Calm _ _ _ (record_failure-Calm (id ∷ ids) _ now) (pure-Moves Calm _))
        release-Calm

  end_finished_session-Calm : Moves Calm (end_finished_session world now)
  unfolding end_finished_session
  end_finished_session-Calm = bind-Moves Calm _ _ (query-Moves Calm _) end_finished-Calm

  end_overdue-Calm : (file : LockFile) → Moves Calm (end_overdue world spec now file)
  unfolding end_overdue
  end_overdue-Calm file =
      if-Moves Calm (ltb now (file.written_at + spec.caps.session_timeout_seconds)) (pure tt)
        (on_option (get_live_session_pid world (some file)) (pure tt) λ pid.
          call (world.kill pid)
          >> (perform (killed pid)
              >> (record_failure (get_session_node_ids (some file)) 137 now >> release)))
        (pure-Moves Calm tt)
        (option-Moves Calm (get_live_session_pid world (some file)) _ _ (pure-Moves Calm _) λ pid.
          then-Moves Calm _ _ (call-Moves Calm _) (
            then-Moves Calm _ _ (Calm-Allows.performs _)
              (then-Moves Calm _ _ (record_failure-Calm _ 137 now) release-Calm)))

  end_overdue_session-Calm : Moves Calm (end_overdue_session world spec now)
  unfolding end_overdue_session
  end_overdue_session-Calm =
      bind-Moves Calm _ _ (query-Moves Calm _)
        λ file. option-Moves Calm file _ _ (pure-Moves Calm _) end_overdue-Calm

  learned-Calm :
      (ids : List String) → Moves Calm (modify (set_nodes (record_learnings_extracted ids now)))
  unfolding modify set_nodes Calm record_learnings_extracted
  learned-Calm ids store unique = (
    update_where-AreUnique _ _ store.nodes (λ row. refl) unique,
    omega (arith, learned-workers ids now store.nodes),
  )

  start_learning-Calm :
      (nodes : List Node) → Moves Calm (LearningDispatch.start_session world spec nodes now)
  unfolding LearningDispatch.start_session
  start_learning-Calm nodes = bind-Moves Calm _ _ (query-Moves Calm _) λ prompt.
      bind-Moves Calm _ _ (launch_learning-Calm prompt) λ session.
        then-Moves Calm _ _
          (option-Moves Calm session.pid _ _ (pure-Moves Calm _)
            λ pid. record_session_pid-Calm world pid _)
          (then-Moves Calm _ _ (learned-Calm _)
            (then-Moves Calm _ _ (record_notes-Moves Calm nodes _ now) (pure-Moves Calm _)))

  learning_batch-Calm :
      (nodes : List Node) → Moves Calm (LearningDispatch.start_batch world spec nodes now)
  unfolding LearningDispatch.start_batch
  learning_batch-Calm [] = pure-Moves Calm _
  learning_batch-Calm (node ∷ nodes) = bind-Moves Calm _ _ (acquire-Calm world) λ is_acquired.
      if-Moves Calm is_acquired (LearningDispatch.start_session world spec (node ∷ nodes) now)
        (pure (response 0 0)) (start_learning-Calm (node ∷ nodes)) (pure-Moves Calm _)

  pub learning-Calm : Moves Calm (LearningDispatch.dispatch world spec now)
  unfolding LearningDispatch.dispatch
  learning-Calm = bind-Moves Calm _ _ (query-Moves Calm _) λ may_start.
      if-Moves Calm (not may_start) (end_overdue_session world spec now >> pure (response 0 0))
        (end_finished_session world now
          >> (query (λ store. get_nodes_due_for_learning_extraction store.nodes) >>= λ nodes.
              LearningDispatch.start_batch world spec nodes now))
        (then-Moves Calm _ _ end_overdue_session-Calm (pure-Moves Calm _))
        (then-Moves Calm _ _ end_finished_session-Calm
          (bind-Moves Calm _ _ (query-Moves Calm _) learning_batch-Calm))
