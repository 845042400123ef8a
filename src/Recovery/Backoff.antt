-- ===== src/Recovery/Backoff.antt =====
-- services/recovery/recovery_scan_service.py, `_get_retry_at`: how long a scan waits after recovery
-- sessions that ended without a decision.
use Prim.Native.Nat.{◌^◌}
use native.Mathlib.Numerals.{unary_clauses}
use agentic_dag.Prelude.{
  ℕ, suc, ◌+◌, ◌*◌, ◌≡◌, refl, List, [], ◌∷◌, Option, none, some, true, if◌then◌else◌, length, min,
  arith, inl, inr, Bool-cases, Option-cases, all, keep,
}
use agentic_dag.Domain.{Node, AgentSession, NodeRecovery, RecoverySession, DagSpec, is_some}
use agentic_dag.Recovery.Scan.{
  is_detected_since, count_back, get_retry_at, is_closed_for, get_closed_recovery_sessions,
}
use agentic_dag.Store.Recovery.{all_newest_first}

-- The recovery sessions, newest first, since the newest decision on the node's session.
unfoldable pub undecided : Option NodeRecovery → List RecoverySession → List RecoverySession
undecided newest_recovery [] = []
undecided newest_recovery (session ∷ older) =
    if is_detected_since newest_recovery session
    then []
    else session ∷ undecided newest_recovery older

doubled_cap : (delay : ℕ) → min (min delay 3600 * 2) 3600 ≡ min (delay * 2) 3600
doubled_cap delay = omega arith

times_one : (n : ℕ) → n * 1 ≡ n
times_one n = omega arith

product : (a b : ℕ) → (a * 2) * b ≡ a * (b * 2)
product a b = grind arith

doubled_pow : (delay n : ℕ) → (delay * 2) * 2 ^ n ≡ delay * 2 ^ suc n
doubled_pow delay n = simp unary_clauses (product delay (2 ^ n))

count_back-later :
    (newest : Option NodeRecovery) (sessions : List RecoverySession) (last delay : ℕ)
    → count_back newest sessions (some last) (min delay 3600)
      ≡ (some last, min (delay * 2 ^ length (undecided newest sessions)) 3600)
unfolding count_back undecided
count_back-later newest [] last delay = rw (times_one delay) refl
count_back-later newest (session ∷ older) last delay =
    elim (Bool-cases (is_detected_since newest session)) [
      | inl decided ↦ rw decided (rw (times_one delay) refl)
      | inr undecides ↦
          rw
            (
              undecides,
              doubled_cap delay,
              count_back-later newest older last (delay * 2),
              doubled_pow delay (length (undecided newest older)),
            )
            refl
    ]

-- The wait after these sessions: from the end of the newest, the interval of a tick, doubled for each
-- of them, and at most an hour.
unfoldable pub backoff : DagSpec → List RecoverySession → Option ℕ
backoff spec [] = none
backoff spec (session ∷ older) = elim session.ended_at [
  | none ↦ none
  | some ended_at ↦ some (ended_at + min (spec.tick_interval_seconds * 2 ^ suc (length older)) 3600)
]

get_retry_at-closed :
    (spec : DagSpec) (newest : Option NodeRecovery) (sessions : List RecoverySession)
    → all (λ (session : RecoverySession). is_some session.ended_at) sessions ≡ true
    → get_retry_at spec newest sessions ≡ backoff spec (undecided newest sessions)
unfolding get_retry_at backoff count_back undecided all
get_retry_at-closed spec newest [] closed = refl
get_retry_at-closed spec newest (session ∷ older) closed =
    elim (Bool-cases (is_detected_since newest session)) [
      | inl decided ↦ rw decided refl
      | inr undecides ↦ elim (Option-cases session.ended_at) [
        | inl running ↦ ground (arith, running)
        | inr (ended_at, ends) ↦
            rw
              (
                undecides,
                ends,
                count_back-later newest older ended_at (spec.tick_interval_seconds * 2),
                doubled_pow spec.tick_interval_seconds (length (undecided newest older)),
              )
              refl
      ]
    ]

ended_of :
    (node : Node) (latest : AgentSession) (row : RecoverySession)
    → is_closed_for node latest row ≡ true
    → is_some row.ended_at ≡ true
unfolding is_closed_for
ended_of node latest row closes = ground arith

closed_sessions-ended :
    (node : Node) (latest : AgentSession) (rows : List RecoverySession)
    → all
        (λ (session : RecoverySession). is_some session.ended_at)
        (keep (is_closed_for node latest) rows)
      ≡ true
unfolding keep all
closed_sessions-ended node latest [] = refl
closed_sessions-ended node latest (row ∷ rows) = elim (Bool-cases (is_closed_for node latest row)) [
  | inl closes ↦
      rw (closes, ended_of node latest row closes, closed_sessions-ended node latest rows) refl
  | inr stays ↦ rw (stays, closed_sessions-ended node latest rows) refl
]

-- A scan waits for nothing where no recovery session of a node ended since the newest decision on
-- it. Otherwise it waits, from the end of the last of them, for the interval of a tick, doubled for
-- each of them, and at most for an hour.
pub get_retry_at-backoff :
    (spec : DagSpec) (newest : Option NodeRecovery) (node : Node) (latest : AgentSession)
    (rows : List RecoverySession)
    → let sessions = get_closed_recovery_sessions node latest rows in
      get_retry_at spec newest sessions ≡ backoff spec (undecided newest sessions)
unfolding get_closed_recovery_sessions
get_retry_at-backoff spec newest node latest rows =
    get_retry_at-closed spec newest _ (closed_sessions-ended node latest (all_newest_first rows))
