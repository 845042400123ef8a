-- ===== src/Store/Monad.antt =====
-- Statements that write to the database and may raise. What was written before an exception stays.
use agentic_dag.Prelude.{
  ℕ, String, List, ◌++◌, ◌∷◌, [], Option, none, some, ◌≡◌, refl, ◌⊎◌, inl, inr,
}
use agentic_dag.Domain.{
  NodeRecovery, RecoverySession, ScheduledJob, Node, NodeAgent, AgentSession, WorkTree, AuditEntry,
  NodeEvent, Trigger,
}

pub data Effect : Type 0 where
  launched : (node_id brief : String) → Effect
  woken : (node_id news : String) (trigger : Trigger) → Effect
  stopped_session : (session : AgentSession) → Effect
  removed_worktree : (worktree : WorkTree) → Effect
  emitted : (text : String) → Effect
  killed : (pid : ℕ) → Effect
  registered_job retired_job : (job : ScheduledJob) → Effect

-- The lock file of learning extraction: its text, as it is read, and when it was last written.
pub record LockFile : Type 0 where
  pub content : String
  pub written_at : ℕ

pub record Store : Type 0 where
  pub nodes : List Node
  pub agents : List NodeAgent
  pub audit_entries : List AuditEntry
  pub published : List NodeEvent
  pub effects : List Effect
  pub next_id : ℕ
  pub recoveries : List NodeRecovery
  pub recovery_sessions : List RecoverySession
  pub jobs : List ScheduledJob
  pub extraction_lock : Option LockFile

-- The exceptions that the calls may raise, with their text. The first two are classes of
-- WorktreeError; `unhandled` is any that no handler names.
pub data Failure : Type 0 where
  base_branch_missing worktree_conflict worktree_error : String → Failure
  observation_error os_error unhandled : String → Failure

pub data Result {ℓ} (A : Type ℓ) : Type ℓ where
  ok : A → Result A
  raised : Failure → Result A

pub Result-cases {ℓ} :
    {A : Type ℓ} (result : Result A)
    → ((a : A) × (result ≡ ok a)) ⊎ ((failure : Failure) × (result ≡ raised failure))
Result-cases (ok a) = inl (a, refl)
Result-cases (raised failure) = inr (failure, refl)

abbrev pub M : Type 0 → Type 0
M A = Store → Result A × Store

-- The combinators are shut: a proof that runs an action unfolds `run`.
module _ {A : Type 0} where
  unfoldable pub pure : A → M A
  pure a store = (ok a, store)

  unfoldable pub call : Result A → M A
  call result store = (result, store)

  unfoldable pub query : (Store → A) → M A
  query f store = (ok (f store), store)

  unfoldable pub caught : Result A → (Failure → Option (M A)) → M A
  caught (ok a) handler after = (ok a, after)
  caught (raised failure) handler after = elim (handler failure) [
    | none ↦ (raised failure, after)
    | some recovery ↦ recovery after
  ]

  -- `try: body` with `except` clauses; `none` lets the exception pass.
  unfoldable pub try_except : M A → (Failure → Option (M A)) → M A
  unfolding caught
  try_except body handler store = let (result, after) = body store in caught result handler after

unfoldable pub modify : (Store → Store) → M (Unit {0})
modify f store = (ok tt, f store)

unfoldable pub perform : Effect → M (Unit {0})
perform effect store = (ok tt, record store { effects = store.effects ++ effect ∷ [] })

module _ {A B : Type 0} where
  unfoldable pub and_then : Result A → (A → M B) → M B
  and_then (ok a) f store = f a store
  and_then (raised failure) f store = (raised failure, store)

  infixl 5 ◌>>=◌
  unfoldable pub ◌>>=◌ : M A → (A → M B) → M B
  unfolding and_then
  m >>= f = λ store. let (result, after) = m store in and_then result f after

  -- `if value is None: … else: …`
  unfoldable pub on_option : Option A → M B → (A → M B) → M B
  on_option none absent present store = absent store
  on_option (some a) absent present store = present a store

infixl 5 ◌>>◌
unfoldable pub ◌>>◌ : {B : Type 0} → M (Unit {0}) → M B → M B
unfolding ◌>>=◌
m >> n = m >>= λ _. n

-- Opens the combinators.
unfoldable pub run : Unit {0}
unfolding pure call query caught try_except modify perform and_then ◌>>=◌ ◌>>◌ on_option
run = tt
