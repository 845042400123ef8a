-- ===== src/Recovery/OneSession.antt =====
-- A run has at most one open recovery session.
use agentic_dag.Prelude.{
  ℕ, suc, ◌≤◌, ◌≡◌, refl, Bool, true, false, List, [], ◌∷◌, ◌++◌, Option, none, some, keep, length,
  arith, inl, inr, Bool-cases, Option-cases,
}
use agentic_dag.Domain.{Node, RecoverySession, DagSpec}
use agentic_dag.World.{World}
use agentic_dag.Store.{
  Store, update_where, same_id, save_audit_entry, on_option, and_then, ◌>>◌, ◌>>=◌, pure, query,
  perform, modify,
}
use agentic_dag.Store.Recovery.{
  later_row, is_open, find_open_session, close_recovery_session, add_recovery_session,
}
use agentic_dag.Store.Moves.{Moves, Frame, pure-Moves, then-Moves, bind-Leads}
use agentic_dag.Recovery.Dispatch.Parts.{
  Allows, compose_prompt-Moves, record_notes-Moves, end_open_session-Moves, launch_recovery-Moves,
}
use agentic_dag.Labels
use agentic_dag.Handlers.Response.{response}
use agentic_dag.Recovery.Dispatch.{
  dispatch, start_session, start_batch, compose_prompt, launch_recovery, end_open_session, close,
  record_notes,
}

-- The open recovery sessions of a table.
unfoldable pub open_sessions : List RecoverySession → List RecoverySession
unfolding keep
open_sessions = keep is_open

-- A closed row is open no more.
close-open_sessions :
    (id : Option ℕ) (at : ℕ) (rows : List RecoverySession)
    → length (
        open_sessions
          (update_where (λ row. same_id row.id id) (λ row. record row { ended_at = some at }) rows))
      ≤ length (open_sessions rows)
unfolding open_sessions keep update_where
close-open_sessions id at [] = omega arith
close-open_sessions id at (row ∷ rows) = elim (Bool-cases (same_id row.id id)) [
  | inl same ↦ elim (Option-cases row.ended_at) [
    | inl runs ↦ rw (same, runs) (omega (arith, close-open_sessions id at rows))
    | inr (time, ended) ↦ rw (same, ended) (omega (arith, close-open_sessions id at rows))
  ]
  | inr other ↦ elim (Option-cases row.ended_at) [
    | inl runs ↦ rw (other, runs) (omega (arith, close-open_sessions id at rows))
    | inr (time, ended) ↦ rw (other, ended) (omega (arith, close-open_sessions id at rows))
  ]
]

later_row-none :
    {A : Type 0} (later : Option A) (matches : Bool) (row : A)
    → later_row later matches row ≡ none
    → (later ≡ none) × (matches ≡ false)
later_row-none (some found) matches row nothing = cc
later_row-none none true row nothing = cc
later_row-none none false row nothing = (refl, refl)

find_open_session-none :
    (rows : List RecoverySession) → find_open_session rows ≡ none → length (open_sessions rows) ≡ 0
unfolding find_open_session open_sessions keep
find_open_session-none [] nothing = refl
find_open_session-none (row ∷ rows) nothing =
    let (rest, closed) = later_row-none (find_open_session rows) (is_open row) row nothing in
    rw closed (find_open_session-none rows rest)

open_sessions-add :
    (rows : List RecoverySession) (row : RecoverySession)
    → length (open_sessions (rows ++ row ∷ [])) ≤ suc (length (open_sessions rows))
unfolding open_sessions keep
open_sessions-add [] row = ground arith
open_sessions-add (first ∷ rows) row = ground (arith, open_sessions-add rows row)

unfoldable pub open_count : Store → ℕ
open_count store = length (open_sessions store.recovery_sessions)

-- An action that opens no recovery session.
OpensNone : Store → Store → Type 0
OpensNone store after = open_count after ≤ open_count store

same_sessions :
    (store after : Store)
    → after.recovery_sessions ≡ store.recovery_sessions
    → OpensNone store after
unfolding OpensNone open_count
same_sessions store after same = rw same (omega arith)

instance OpensNone-Frame : Frame OpensNone
unfolding OpensNone
OpensNone-Frame = record {
  reflexive = λ store. omega arith;
  transitive = λ a b c first second. omega (arith, first, second);
}

instance OpensNone-Allows : Allows OpensNone
unfolding perform modify save_audit_entry
OpensNone-Allows = record {
  performs = λ effect store. same_sessions store _ refl;
  saves = λ entry store. same_sessions store _ refl;
}

close-OpensNone : (session : RecoverySession) (now : ℕ) → Moves OpensNone (close session now)
unfolding close modify close_recovery_session OpensNone open_count
close-OpensNone session now store = close-open_sessions session.id now store.recovery_sessions

module _ (world : World) (spec : DagSpec) (now : ℕ) where
  record_session-one :
      (session : RecoverySession) (nodes : List Node) (store : Store)
      → open_count store ≡ 0
      → open_count
          ((modify (add_recovery_session session)
              >> (record_notes nodes Labels.recovery_started now >> pure (response 0 1)))
            store).1
        ≤ 1
  unfolding OpensNone open_count ◌>>◌ ◌>>=◌ and_then modify add_recovery_session
  record_session-one session nodes store nothing =
      let row = record session { id = some store.next_id } in
      let added = add_recovery_session session store in
      let kept =
        then-Moves OpensNone (record_notes nodes Labels.recovery_started now) (pure (response 0 1))
          (record_notes-Moves OpensNone nodes Labels.recovery_started now)
          (pure-Moves OpensNone (response 0 1)) added in
      omega (arith, kept, nothing, open_sessions-add store.recovery_sessions row)

  start_session-one :
      (nodes : List Node) (store : Store)
      → open_count store ≡ 0
      → open_count (start_session world spec nodes now store).1 ≤ 1
  unfolding start_session OpensNone
  start_session-one nodes store nothing =
      bind-Leads (λ after. open_count after ≡ 0) (λ after. open_count after ≤ 1)
        (compose_prompt world nodes) _ store
        (omega (arith, nothing, compose_prompt-Moves OpensNone world nodes store))
        (λ after none_open. omega (arith, none_open))
        λ prompt composed none_open.
          bind-Leads (λ after. open_count after ≡ 0) (λ after. open_count after ≤ 1)
            (launch_recovery world spec prompt nodes now) _ composed
            (omega (
              arith,
              none_open,
              launch_recovery-Moves OpensNone world spec now prompt nodes composed,
            ))
            (λ after none_left. omega (arith, none_left))
            λ session after none_left. record_session-one session nodes after none_left

  start_batch-one :
      (nodes : List Node) (store : Store)
      → length (open_sessions store.recovery_sessions) ≡ 0
      → open_count store ≤ 1
      → open_count (start_batch world spec nodes now store).1 ≤ 1
  unfolding open_count pure
  start_batch-one [] store nothing one = one
  start_batch-one (node ∷ nodes) store nothing one = start_session-one (node ∷ nodes) store nothing

  after_end :
      (session : RecoverySession) (store : Store)
      → open_count ((end_open_session world spec now session >> pure (response 0 0)) store).1
        ≤ open_count store
  unfolding OpensNone
  after_end session =
      then-Moves OpensNone (end_open_session world spec now session) (pure (response 0 0))
        (end_open_session-Moves OpensNone world spec now close-OpensNone session)
        (pure-Moves OpensNone (response 0 0))

  -- Whatever a dispatch does, and also where it raises, it leaves at most one recovery session open,
  -- if there was at most one before.
  pub dispatch-one_session :
      (nodes : List Node) (store : Store)
      → open_count store ≤ 1
      → open_count (dispatch world spec nodes now store).1 ≤ 1
  unfolding dispatch ◌>>=◌ and_then query on_option
  dispatch-one_session nodes store one =
      elim (Option-cases (find_open_session store.recovery_sessions)) [
        | inl nothing ↦ rw nothing (
            start_batch-one nodes store (find_open_session-none store.recovery_sessions nothing)
              one)
        | inr (session, found) ↦ rw found (omega (arith, one, after_end session store))
      ]
