-- ===== src/Store/Touch.antt =====
-- What an action may do to the node table: write to the rows of one id, and only certain states.
use agentic_dag.Prelude.{
  ℕ, ◌≡◌, refl, String, Bool, true, false, List, [], ◌∷◌, Option, none, some, string_eq,
  if◌then◌else◌, Option-cases, inl, inr,
}
use mathlib.Core.Option.{some-injective}
use mathlib.Core.Path.{subst}
use agentic_dag.Domain.{NodeState, state_eq, Node, GraphNode, NodeEvent, NodeAgent, AuditEntry}
use agentic_dag.Store.{
  M, Store, Result, ok, raised, Failure, Effect, pure, call, query, modify, perform, caught,
  try_except, and_then, ◌>>=◌, ◌>>◌, on_option, update_state, ensure_rows,
  record_pull_request_settled, record_move, set_nodes, save_audit_entry, publish, save_agent,
}

-- From the first table to the second by writes to the rows of `id`: moves to states that `Allowed`
-- holds of, the mark of a settled pull request, and the row that a missing node gets.
pub data Touch (id : String) (Allowed : NodeState → Type 0) (before : List Node)
    : List Node → Type 0 where
  kept : Touch id Allowed before before
  moved :
      {middle after : List Node} (state : NodeState) (at : ℕ) (resume_at : Option ℕ)
      → Touch id Allowed before middle
      → Allowed state
      → after ≡ update_state id state at resume_at middle
      → Touch id Allowed before after
  settled :
      {middle after : List Node} (at : ℕ)
      → Touch id Allowed before middle
      → after ≡ record_pull_request_settled id at middle
      → Touch id Allowed before after
  ensured :
      {middle after : List Node} (graph_node : GraphNode) (at : ℕ)
      → Touch id Allowed before middle
      → graph_node.id ≡ id
      → after ≡ ensure_rows (graph_node ∷ []) at middle
      → Touch id Allowed before after

module _ {id : String} {Allowed : NodeState → Type 0} where
  pub Touch-trans :
      {a b c : List Node} → Touch id Allowed a b → Touch id Allowed b c → Touch id Allowed a c
  Touch-trans p kept = p
  Touch-trans p (moved state at resume_at q allowed e) =
      moved state at resume_at (Touch-trans p q) allowed e
  Touch-trans p (settled at q e) = settled at (Touch-trans p q) e
  Touch-trans p (ensured graph_node at q same e) = ensured graph_node at (Touch-trans p q) same e

-- An action that does no more than that, whatever it finds, whether or not it raises.
pub record Writes (id : String) (Allowed : NodeState → Type 0) {A : Type 0} (m : M A) : Type 0 where
  pub apply : (store : Store) → Touch id Allowed store.nodes (m store).1.nodes

module _ {id : String} {Allowed : NodeState → Type 0} where
  module _ {A : Type 0} where
    pub Writes-pure : (a : A) → Writes id Allowed (pure a)
    unfolding pure
    Writes-pure a = record { apply = λ store. kept }

    pub Writes-call : (result : Result A) → Writes id Allowed (call result)
    unfolding call
    Writes-call result = record { apply = λ store. kept }

    pub Writes-query : (f : Store → A) → Writes id Allowed (query f)
    unfolding query
    Writes-query f = record { apply = λ store. kept }

    pub Writes-if :
        (b : Bool) {x y : M A}
        → Writes id Allowed x
        → Writes id Allowed y
        → Writes id Allowed (if b then x else y)
    Writes-if true p q = p
    Writes-if false p q = q

    pub if-Touch :
        (b : Bool) (x y : M A) {before : List Node} (store : Store)
        → Touch id Allowed before (x store).1.nodes
        → Touch id Allowed before (y store).1.nodes
        → Touch id Allowed before ((if b then x else y) store).1.nodes
    if-Touch true x y store p q = p
    if-Touch false x y store p q = q

    pub caught-Touch :
        (result : Result A) (handler : Failure → Option (M A)) {before : List Node} (after : Store)
        → Touch id Allowed before after.nodes
        → ((failure : Failure) (m : M A) → handler failure ≡ some m → Writes id Allowed m)
        → Touch id Allowed before (caught result handler after).1.nodes
    unfolding caught
    caught-Touch (ok a) handler after p h = p
    caught-Touch (raised failure) handler after p h = elim (Option-cases (handler failure)) [
      | inl nothing ↦ rw (nothing, caught) p
      | inr (m, e) ↦ rw (e, caught) (Touch-trans p ((h failure m e).apply after))
    ]

    pub try-Touch :
        (m : M A) (handler : Failure → Option (M A)) (store : Store)
        → Touch id Allowed store.nodes (m store).1.nodes
        → ((failure : Failure) (n : M A) → handler failure ≡ some n → Writes id Allowed n)
        → Touch id Allowed store.nodes (try_except m handler store).1.nodes
    unfolding try_except
    try-Touch m handler store = caught-Touch (m store).0 handler (m store).1

    pub Writes-try :
        {m : M A} {handler : Failure → Option (M A)}
        → Writes id Allowed m
        → ((failure : Failure) (n : M A) → handler failure ≡ some n → Writes id Allowed n)
        → Writes id Allowed (try_except m handler)
    unfolding try_except
    Writes-try {m} {handler} p h = record {
      apply = λ store. caught-Touch (m store).0 handler (m store).1 (p.apply store) h;
    }

  pub Writes-perform : (effect : Effect) → Writes id Allowed (perform effect)
  unfolding perform
  Writes-perform effect = record { apply = λ store. kept }

  pub Writes-modify :
      (f : Store → Store)
      → ((store : Store) → Touch id Allowed store.nodes (f store).nodes)
      → Writes id Allowed (modify f)
  unfolding modify
  Writes-modify f h = record { apply = h }

  -- An update that leaves the table alone.
  pub Writes-other :
      (f : Store → Store)
      → ((store : Store) → (f store).nodes ≡ store.nodes)
      → Writes id Allowed (modify f)
  Writes-other f h = Writes-modify f (λ store. rw (h store) kept)

  module _ {A B : Type 0} where
    pub and_then-Touch :
        (result : Result A) (f : A → M B) {before : List Node} (after : Store)
        → Touch id Allowed before after.nodes
        → ((a : A) → Writes id Allowed (f a))
        → Touch id Allowed before (and_then result f after).1.nodes
    unfolding and_then
    and_then-Touch (ok a) f after p h = Touch-trans p ((h a).apply after)
    and_then-Touch (raised failure) f after p h = p

    -- Where the table that the first action finds matters.
    pub bind-Touch :
        (m : M A) (f : A → M B) (store : Store)
        → Touch id Allowed store.nodes (m store).1.nodes
        → ((a : A) → Writes id Allowed (f a))
        → Touch id Allowed store.nodes ((m >>= f) store).1.nodes
    unfolding ◌>>=◌
    bind-Touch m f store = and_then-Touch (m store).0 f (m store).1

    pub Writes-bind :
        {m : M A} {f : A → M B}
        → Writes id Allowed m
        → ((a : A) → Writes id Allowed (f a))
        → Writes id Allowed (m >>= f)
    unfolding ◌>>=◌
    Writes-bind {m} {f} p h = record {
      apply = λ store. and_then-Touch (m store).0 f (m store).1 (p.apply store) h;
    }

    pub option-Touch :
        (o : Option A) (m : M B) (f : A → M B) {before : List Node} (store : Store)
        → Touch id Allowed before (m store).1.nodes
        → ((a : A) → Touch id Allowed before (f a store).1.nodes)
        → Touch id Allowed before (on_option o m f store).1.nodes
    unfolding on_option
    option-Touch none m f store p h = p
    option-Touch (some a) m f store p h = h a

    -- A call from outside leaves the table as it is.
    pub call-Touch :
        (result : Result A) (f : A → M B) (store : Store)
        → ((a : A) → Touch id Allowed store.nodes (f a store).1.nodes)
        → Touch id Allowed store.nodes ((call result >>= f) store).1.nodes
    unfolding call and_then ◌>>=◌
    call-Touch (ok a) f store h = h a
    call-Touch (raised failure) f store h = kept

    pub Writes-option :
        (o : Option A) {m : M B} {f : A → M B}
        → Writes id Allowed m
        → ((a : A) → Writes id Allowed (f a))
        → Writes id Allowed (on_option o m f)
    unfolding on_option
    Writes-option none {m} p h = record { apply = λ store. p.apply store }
    Writes-option (some a) {m} {f} p h = record { apply = λ store. (h a).apply store }

  -- The action that a handler answers with.
  pub Writes-handled :
      {A : Type 0} {m n : M A} → some m ≡ some n → Writes id Allowed m → Writes id Allowed n
  Writes-handled e p = subst (λ k. Writes id Allowed k) (some-injective _ _ e) p

  pub Writes-then :
      {B : Type 0} {m : M (Unit {0})} {n : M B}
      → Writes id Allowed m
      → Writes id Allowed n
      → Writes id Allowed (m >> n)
  unfolding ◌>>◌
  Writes-then p q = Writes-bind p (λ _. q)

module _ {id : String} {Allowed : NodeState → Type 0} where
  pub Writes-record_move :
      (event : NodeEvent) (state : NodeState) (note : String)
      → event.node_id ≡ id
      → Allowed state
      → Writes id Allowed (modify (record_move event state note))
  unfolding record_move set_nodes save_audit_entry publish
  Writes-record_move event state note same allowed =
      Writes-modify _ (λ store. moved state event.created_at none kept allowed (rw same refl))

  pub Writes-save_agent : (agent : NodeAgent) → Writes id Allowed (modify (save_agent agent))
  unfolding save_agent
  Writes-save_agent agent = Writes-other _ (λ store. refl)

  pub Writes-save_audit_entry :
      (entry : AuditEntry) → Writes id Allowed (modify (save_audit_entry entry))
  unfolding save_audit_entry
  Writes-save_audit_entry entry = Writes-other _ (λ store. refl)

  pub Writes-publish : (event : NodeEvent) → Writes id Allowed (modify (publish event))
  unfolding publish
  Writes-publish event = Writes-other _ (λ store. refl)

  pub Writes-set_nodes :
      (f : List Node → List Node)
      → ((nodes : List Node) → Touch id Allowed nodes (f nodes))
      → Writes id Allowed (modify (set_nodes f))
  unfolding set_nodes
  Writes-set_nodes f h = Writes-modify _ (λ store. h store.nodes)

pub ruleset writes = (
  Writes-pure, Writes-call, Writes-query, Writes-if, Writes-perform, Writes-bind, Writes-option,
  Writes-then, Writes-save_agent, Writes-save_audit_entry, Writes-publish,
)
