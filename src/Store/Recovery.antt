-- ===== src/Store/Recovery.antt =====
-- infra/persistence/sqlite/sqlite_node_recovery_repo.py and sqlite_recovery_session_repo.py. A later
-- row of a table has a larger id.
use agentic_dag.Prelude.{
  ℕ, suc, String, Bool, true, false, List, [], ◌∷◌, ◌++◌, Option, none, some, ◌==◌, string_eq, keep,
  length, if◌then◌else◌,
}
use mathlib.Core.List.{reverse}
use agentic_dag.Domain.{NodeRecovery, RecoverySession}
use agentic_dag.Store.{Store, same_id, update_where}

-- SqliteNodeRecoveryRepo

unfoldable pub add_recovery : NodeRecovery → Store → Store
add_recovery node_recovery store = record store {
  recoveries = store.recoveries ++ node_recovery ∷ [];
}

abbrev pub later_row {ℓ} : {A : Type ℓ} → Option A → Bool → A → Option A
later_row (some later) matches row = some later
later_row none matches row = if matches then some row else none

-- `order_by(id.desc()).limit(1)`
unfoldable pub newest {ℓ} : {A : Type ℓ} → (A → Bool) → List A → Option A
newest test [] = none
newest test (row ∷ rows) = later_row (newest test rows) (test row) row

unfoldable pub get_newest_recovery_by_session_id :
    Option ℕ → List NodeRecovery → Option NodeRecovery
unfolding newest
get_newest_recovery_by_session_id session_id = newest (λ row. same_id row.session_id session_id)

unfoldable pub get_newest_recovery_by_node_id : String → List NodeRecovery → Option NodeRecovery
unfolding newest
get_newest_recovery_by_node_id node_id = newest (λ row. row.node_id == node_id)

unfoldable pub count_by_node_id : String → List NodeRecovery → ℕ
unfolding keep
count_by_node_id node_id recoveries = length (keep (λ row. row.node_id == node_id) recoveries)

-- SqliteRecoverySessionRepo

unfoldable pub add_recovery_session : RecoverySession → Store → Store
add_recovery_session recovery_session store = record store {
  recovery_sessions =
      store.recovery_sessions ++ record recovery_session { id = some store.next_id } ∷ [];
  next_id = suc store.next_id;
}

unfoldable pub close_recovery_session : RecoverySession → Store → Store
unfolding update_where
close_recovery_session closed store = record store {
  recovery_sessions =
      update_where (λ row. same_id row.id closed.id)
        (λ row. record row { ended_at = closed.ended_at }) store.recovery_sessions;
}

abbrev pub is_open : RecoverySession → Bool
is_open row = elim row.ended_at [ none ↦ true | some _ ↦ false ]

unfoldable pub find_open_session : List RecoverySession → Option RecoverySession
unfolding newest
find_open_session = newest is_open

-- `get_all`, the newest first.
unfoldable pub all_newest_first : List RecoverySession → List RecoverySession
all_newest_first = reverse
