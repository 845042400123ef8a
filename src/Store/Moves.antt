-- ===== src/Store/Moves.antt =====
-- What an action does to the database, put together from its statements: each of them stands in a
-- relation that is reflexive and transitive, such as leaving a table as it is.
use agentic_dag.Prelude.{
  Bool, true, false, Option, none, some, if◌then◌else◌, ◌≡◌, refl, inl, inr, ◌∙◌,
}
use agentic_dag.Store.{
  M, Store, Result, Result-cases, Failure, raised, ◌>>=◌, ◌>>◌, and_then, on_option, try_except,
  caught, pure, query, call,
}

abbrev pub Moves : (Store → Store → Type 0) → {A : Type 0} → M A → Type 0
Moves R m = (store : Store) → R store (m store).1

-- What a handler does with an exception, if anything.
abbrev pub Answers : (Store → Store → Type 0) → {A : Type 0} → Option (M A) → Type 0
Answers R none = Unit
Answers R (some recovery) = Moves R recovery

-- A reflexive and transitive relation.
pub record Frame (R : Store → Store → Type 0) : Type 0 where
  pub reflexive : (store : Store) → R store store
  pub transitive : (a b c : Store) → R a b → R b c → R a c

-- A table, or any other reading, that stays as it is.
abbrev pub Keeps : {B : Type 0} → (Store → B) → Store → Store → Type 0
Keeps reading store after = reading after ≡ reading store

pub Keeps-Frame : {B : Type 0} (reading : Store → B) → Frame (Keeps reading)
Keeps-Frame reading = record {
  reflexive = λ store. refl;
  transitive = λ a b c first second. second ∙ first;
}

module _ (R : Store → Store → Type 0) ⦃frame : Frame R⦄ where
  pub pure-Moves : {A : Type 0} (a : A) → Moves R (pure a)
  unfolding pure
  pure-Moves a store = frame.reflexive store

  pub query-Moves : {A : Type 0} (f : Store → A) → Moves R (query f)
  unfolding query
  query-Moves f store = frame.reflexive store

  pub call-Moves : {A : Type 0} (answer : Result A) → Moves R (call answer)
  unfolding call
  call-Moves answer store = frame.reflexive store

  pub bind-Moves :
      {A B : Type 0} (m : M A) (f : A → M B)
      → Moves R m
      → ((a : A) → Moves R (f a))
      → Moves R (m >>= f)
  unfolding ◌>>=◌ and_then
  bind-Moves m f first rest store = elim (Result-cases (m store).0) [
    | inl (a, done) ↦
        rw done (frame.transitive store (m store).1 _ (first store) (rest a (m store).1))
    | inr (failure, fails) ↦ rw fails (first store)
  ]

  pub then-Moves :
      {B : Type 0} (m : M (Unit {0})) (n : M B) → Moves R m → Moves R n → Moves R (m >> n)
  unfolding ◌>>◌
  then-Moves m n first rest = bind-Moves m (λ _. n) first (λ _. rest)

  pub option-Moves :
      {A B : Type 0} (found : Option A) (absent : M B) (present : A → M B)
      → Moves R absent
      → ((a : A) → Moves R (present a))
      → Moves R (on_option found absent present)
  unfolding on_option
  option-Moves none absent present missing rest = missing
  option-Moves (some a) absent present missing rest = rest a

  pub if-Moves :
      {B : Type 0} (b : Bool) (first second : M B)
      → Moves R first
      → Moves R second
      → Moves R (if b then first else second)
  if-Moves true first second one two = one
  if-Moves false first second one two = two

  pub try-Moves :
      {A : Type 0} (body : M A) (handler : Failure → Option (M A))
      → Moves R body
      → ((failure : Failure) → Answers R (handler failure))
      → Moves R (try_except body handler)
  unfolding try_except caught
  try-Moves {A} body handler first answers store = elim (Result-cases (body store).0) [
    | inl (a, done) ↦ rw done (first store)
    | inr (failure, fails) ↦ rw fails (
        frame.transitive store (body store).1 _ (first store)
          (go failure (body store).1 (handler failure) (answers failure)))
  ]
    where
      go :
          (failure : Failure) (after : Store) (answer : Option (M A))
          → Answers R answer
          → R after
              (elim answer as (λ _. Result A × Store) [
                | none ↦ (raised failure, after)
                | some recovery ↦ recovery after
              ]).1
      go failure after none passes = frame.reflexive after
      go failure after (some recovery) handled = handled after

-- After a statement where `P` holds, the rest leads to `Q`; so does an exception.
pub bind-Leads :
    (P Q : Store → Type 0) {A B : Type 0} (m : M A) (f : A → M B) (store : Store)
    → P (m store).1
    → ((after : Store) → P after → Q after)
    → ((a : A) (after : Store) → P after → Q (f a after).1)
    → Q ((m >>= f) store).1
unfolding ◌>>=◌ and_then
bind-Leads P Q m f store first falls rest = elim (Result-cases (m store).0) [
  | inl (a, done) ↦ rw done (rest a (m store).1 first)
  | inr (failure, fails) ↦ rw fails (falls (m store).1 first)
]
