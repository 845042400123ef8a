-- ===== src/Handlers/Merged/Reclaiming.antt =====
-- When the worktree of a merged node counts as reclaimed.
use agentic_dag.Prelude.{
  ℕ, ◌≡◌, refl, Bool, true, false, [], ◌∷◌, ◌++◌, Option, none, some, ◌⊎◌, inl, inr, Option-cases,
  Bool-cases,
}
use agentic_dag.Domain.{GraphNode, WorkTree, NodeAgent, is_some}
use agentic_dag.World.{World}
use agentic_dag.Store.{
  Store, Result, ok, raised, Failure, Result-cases, removed_worktree, get_by_node_id,
  mark_reclaimed, update_worktree, query, ◌>>=◌, and_then, on_option, pure, call, perform, modify,
  caught, try_except, ◌>>◌, base_branch_missing, worktree_conflict, worktree_error,
  observation_error, os_error, unhandled,
}
use agentic_dag.Handlers.Merged.{
  advance, reclaim, remove_worktree, failure_handler, get_project_root,
}

-- The agents of the run are as they were, or the removal of the node's worktree, which was not
-- reclaimed before, has just been done.
abbrev pub IsReclaimed : GraphNode → Store → Store → Type 0
IsReclaimed graph_node before after =
    (after.agents ≡ before.agents)
    ⊎ ((agent : NodeAgent) × (worktree : WorkTree) × (get_by_node_id graph_node.id before.agents
          ≡ some agent)
        × (agent.worktree ≡ some worktree)
        × (is_some worktree.reclaimed_at ≡ false)
        × (after.effects ≡ before.effects ++ removed_worktree worktree ∷ []))

-- The worktree stays where it is, and the pass goes on or raises.
abbrev HasFailed : Store → Result Bool × Store → Type 0
HasFailed store outcome =
    (outcome ≡ (ok false, store)) ⊎ ((failure : Failure) × (outcome ≡ (raised failure, store)))

handled :
    (failure : Failure) (store : Store)
    → HasFailed store (caught (raised failure) failure_handler store)
unfolding caught failure_handler pure
handled (base_branch_missing _) store = inl refl
handled (worktree_conflict _) store = inl refl
handled (worktree_error _) store = inl refl
handled (os_error _) store = inl refl
handled (observation_error note) store = inr (observation_error note, refl)
handled (unhandled note) store = inr (unhandled note, refl)

module _ (world : World) (graph_node : GraphNode) (now : ℕ) where
  remove_worktree-cases :
      (worktree : WorkTree) (store : Store)
      → (remove_worktree world graph_node worktree store
          ≡ (ok true, record store { effects = store.effects ++ removed_worktree worktree ∷ [] }))
        ⊎ HasFailed store (remove_worktree world graph_node worktree store)
  unfolding remove_worktree call perform ◌>>=◌ ◌>>◌ and_then try_except pure
  remove_worktree-cases worktree store = elim (Result-cases (get_project_root graph_node)) [
    | inr (failure, e) ↦ inr (rw e (handled failure store))
    | inl (project_root, e) ↦ elim (Result-cases (world.remove worktree project_root)) [
      | inl (done, removed) ↦ inl (rw (e, removed, caught) refl)
      | inr (failure, kept) ↦ inr (rw (e, kept) (handled failure store))
    ]
  ]

  reclaim-agents :
      (worktree : WorkTree) (store : Store)
      → ((reclaim world graph_node worktree now store).1.agents ≡ store.agents)
        ⊎ ((reclaim world graph_node worktree now store).1.effects
            ≡ store.effects ++ removed_worktree worktree ∷ [])
  unfolding reclaim ◌>>=◌ and_then ◌>>◌ modify pure mark_reclaimed update_worktree
  reclaim-agents worktree store = elim (remove_worktree-cases worktree store) [
    | inl removed ↦ inr (rw removed refl)
    | inr (inl kept) ↦ inl (rw kept refl)
    | inr (inr (failure, kept)) ↦ inl (rw kept refl)
  ]

  -- A pass over a merged node changes the record of an agent only where it has just removed the
  -- worktree of the node's agent, which was not reclaimed before.
  pub advance-IsReclaimed :
      (store : Store) → IsReclaimed graph_node store (advance world now graph_node store).1
  unfolding advance ◌>>=◌ query and_then on_option pure
  advance-IsReclaimed store = elim (Option-cases (get_by_node_id graph_node.id store.agents)) [
    | inl none_yet ↦ inl (rw none_yet refl)
    | inr (agent, found) ↦ with_worktree agent found agent.worktree refl
  ]
    where
      with_worktree :
          (agent : NodeAgent)
          → get_by_node_id graph_node.id store.agents ≡ some agent
          → (held : Option WorkTree) → agent.worktree ≡ held
          → IsReclaimed graph_node store (advance world now graph_node store).1
      with_worktree agent found none bare = inl (rw (found, bare) refl)
      with_worktree agent found (some worktree) held =
          elim (Bool-cases (is_some worktree.reclaimed_at)) [
            | inl before ↦ inl (rw (found, held, before) refl)
            | inr first ↦ elim (reclaim-agents worktree store) [
              | inl same ↦ inl (rw (found, held, first) same)
              | inr removed ↦
                  inr (agent, worktree, found, held, first, rw (found, held, first) removed)
            ]
          ]
