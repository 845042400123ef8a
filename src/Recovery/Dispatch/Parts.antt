-- ===== src/Recovery/Dispatch/Parts.antt =====
-- The parts of a dispatch, in any relation that asking the host and writing audit entries stay in.
use agentic_dag.Prelude.{ℕ, ◌+◌, String, not, List, [], ◌∷◌, Option, none, some, if◌then◌else◌, ltb}
use agentic_dag.Domain.{Node, NodeAgent, RecoverySession, DagSpec, AuditEntry}
use agentic_dag.World.{World}
use agentic_dag.Store.{Store, Effect, pure, perform, modify, ◌>>◌, save_audit_entry}
use agentic_dag.Store.Moves.{
  Moves, Frame, pure-Moves, query-Moves, call-Moves, bind-Moves, then-Moves, option-Moves, if-Moves,
}
use agentic_dag.Recovery.Dispatch.{
  transcript_path, compose_node_section, compose_sections, compose_prompt, record_notes, close,
  kill, record_overdue, end_open_session, is_recovery_alive, launch_recovery,
}

pub record Allows (R : Store → Store → Type 0) : Type 0 where
  pub performs : (effect : Effect) → Moves R (perform effect)
  pub saves : (entry : AuditEntry) → Moves R (modify (save_audit_entry entry))

module _ (R : Store → Store → Type 0) ⦃frame : Frame R⦄ ⦃allows : Allows R⦄ where
  module _ (world : World) where
    transcript_path-Moves : (agent : Option NodeAgent) → Moves R (transcript_path world agent)
    transcript_path-Moves none = pure-Moves R _
    transcript_path-Moves (some agent) = call-Moves R _

    compose_node_section-Moves :
        (node : Node) (count : ℕ) → Moves R (compose_node_section world node count)
    unfolding compose_node_section
    compose_node_section-Moves node count =
        bind-Moves R _ _ (query-Moves R _)
          λ agent. bind-Moves R _ _ (transcript_path-Moves agent) λ transcript. pure-Moves R _

    compose_sections-Moves : (nodes : List Node) → Moves R (compose_sections world nodes)
    unfolding compose_sections
    compose_sections-Moves [] = pure-Moves R _
    compose_sections-Moves (node ∷ nodes) = bind-Moves R _ _ (query-Moves R _) λ count.
        bind-Moves R _ _ (compose_node_section-Moves node count)
          λ section. bind-Moves R _ _ (compose_sections-Moves nodes) λ sections. pure-Moves R _

    pub compose_prompt-Moves : (nodes : List Node) → Moves R (compose_prompt world nodes)
    unfolding compose_prompt
    compose_prompt-Moves nodes =
        bind-Moves R _ _ (compose_sections-Moves nodes) λ sections. pure-Moves R _

  pub record_notes-Moves :
      (nodes : List Node) (note : String) (now : ℕ) → Moves R (record_notes nodes note now)
  unfolding record_notes
  record_notes-Moves [] note now = pure-Moves R _
  record_notes-Moves (node ∷ nodes) note now =
      then-Moves R _ _ (allows.saves _) (record_notes-Moves nodes note now)

  module _ (world : World) (spec : DagSpec) (now : ℕ) where
    kill-Moves :
        ((session : RecoverySession) (now : ℕ) → Moves R (close session now))
        → (session : RecoverySession) → Moves R (kill world session now)
    unfolding kill
    kill-Moves closes session =
        then-Moves R _ _
          (if-Moves R _ _ _
            (option-Moves R _ _ _ (pure-Moves R _)
              λ pid. then-Moves R _ _ (call-Moves R _) (allows.performs _))
            (pure-Moves R _))
          (closes session now)

    record_overdue-Moves : (session : RecoverySession) → Moves R (record_overdue session now)
    unfolding record_overdue
    record_overdue-Moves session =
        bind-Moves R _ _ (query-Moves R _) λ nodes. record_notes-Moves nodes _ now

    pub end_open_session-Moves :
        ((session : RecoverySession) (now : ℕ) → Moves R (close session now))
        → (session : RecoverySession) → Moves R (end_open_session world spec now session)
    unfolding end_open_session
    end_open_session-Moves closes session =
        let timeout = spec.caps.session_timeout_seconds in
        let ended = kill world session now >> record_overdue session now in
        let overdue = ltb now (session.started_at + timeout) in
        if-Moves R (not (is_recovery_alive world session)) (close session now)
          (if overdue then pure tt else ended) (closes session now)
          (if-Moves R overdue (pure tt) ended (pure-Moves R tt) (
            then-Moves R (kill world session now) (record_overdue session now)
              (kill-Moves closes session) (record_overdue-Moves session)))

    pub launch_recovery-Moves :
        (prompt : String) (nodes : List Node)
        → Moves R (launch_recovery world spec prompt nodes now)
    unfolding launch_recovery
    launch_recovery-Moves prompt nodes =
        bind-Moves R _ _ (call-Moves R _)
          λ session. then-Moves R _ _ (allows.performs _) (pure-Moves R _)
