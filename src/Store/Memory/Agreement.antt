-- ===== src/Store/Memory/Agreement.antt =====
-- The two node repositories agree.
use agentic_dag.Prelude.{
  ℕ, ◌≡◌, refl, sym, ap, ◌∙◌, String, Bool, true, false, ◌||◌, List, [], ◌∷◌, Option, none, some,
  ◌==◌, string_eq, if◌then◌else◌, mem, pred_int, pos,
}
use agentic_dag.Domain.{NodeState, GraphNode, Node, or_else}
use agentic_dag.Store.{
  Result, ok, raised, Failure, unhandled, Result-cases, read_node, missing_rows, update_where,
}
use agentic_dag.Store as Sqlite
use agentic_dag.Store.Nodes.{row_ids}
use agentic_dag.Store.Memory.{rewrite, and_extract}
use agentic_dag.Store.Memory as Memory
use agentic_dag.Store.Memory.Contract.{
  View, with_row, changed, changed_all, read-update_where, read-update_ids, read-rewrite,
}
use agentic_dag.Store.Memory.Ensuring.{first_fresh, memory-ensure, sqlite-ensure}

-- The writes of domain/persistence/repos/node_repo.py, in its order.
pub data Write : Type 0 where
  ensure : List GraphNode → ℕ → Write
  move : String → NodeState → ℕ → Option ℕ → Write
  spend : String → Write
  reset : String → ℕ → Write
  settle : String → ℕ → Write
  extract : List String → ℕ → Write

-- What a write means for the rows by their ids.
unfoldable pub promised : Write → View → View
unfolding pred_int mem
promised (ensure graph_nodes now) view id = or_else (view id) (first_fresh graph_nodes now id)
promised (move node_id state at resume_at) view id =
    changed node_id (λ row. record row { state = state; updated_at = at; resume_at = resume_at })
      view id
promised (spend node_id) view id =
    changed node_id
      (λ row. record row { recovery_attempts_allowed = pred_int row.recovery_attempts_allowed })
      view id
promised (reset node_id attempts) view id =
    changed node_id (λ row. record row { recovery_attempts_allowed = pos attempts }) view id
promised (settle node_id at) view id =
    changed node_id (λ row. record row { pull_request_settled_at = some at }) view id
promised (extract ids at) view id =
    changed_all (mem ids) (λ row. record row { learnings_extracted_at = some at }) view id

unfoldable pub memory_write : Write → List Node → Result (List Node)
memory_write (ensure graph_nodes now) rows = ok (Memory.ensure_rows graph_nodes now rows)
memory_write (move node_id state at resume_at) rows =
    Memory.update_state node_id state at resume_at rows
memory_write (spend node_id) rows = Memory.spend_recovery_attempt node_id rows
memory_write (reset node_id attempts) rows = Memory.reset_recovery_attempts node_id attempts rows
memory_write (settle node_id at) rows = Memory.record_pull_request_settled node_id at rows
memory_write (extract ids at) rows = Memory.record_learnings_extracted ids at rows

unfoldable pub repeats : List String → Bool
unfolding mem
repeats [] = false
repeats (id ∷ ids) = mem ids id || repeats ids

-- The insertion of two rows of one id breaks the primary key.
unfoldable pub sqlite_write : Write → List Node → Result (List Node)
unfolding repeats
sqlite_write (ensure graph_nodes now) rows =
    if repeats (row_ids (missing_rows (row_ids rows) graph_nodes now))
    then raised (unhandled "UNIQUE constraint failed: nodes.id")
    else ok (Sqlite.ensure_rows graph_nodes now rows)
sqlite_write (move node_id state at resume_at) rows =
    ok (Sqlite.update_state node_id state at resume_at rows)
sqlite_write (spend node_id) rows = ok (Sqlite.spend_recovery_attempt node_id rows)
sqlite_write (reset node_id attempts) rows =
    ok (Sqlite.reset_recovery_attempts node_id attempts rows)
sqlite_write (settle node_id at) rows = ok (Sqlite.record_pull_request_settled node_id at rows)
sqlite_write (extract ids at) rows = ok (Sqlite.record_learnings_extracted ids at rows)

abbrev view : List Node → View
view rows id = read_node id rows

-- The rows after a write are those that it promises.
abbrev Keeps : (Write → List Node → Result (List Node)) → Write → Type 0
Keeps write step =
    (rows after : List Node) (id : String)
    → write step rows ≡ ok after
    → view after id ≡ promised step (view rows) id

ok-inj : {a b : List Node} → ok a ≡ ok b → a ≡ b
ok-inj same = cc

unless-ok :
    (fails : Bool) (error : Failure) (rows after : List Node)
    → (if fails then raised error else ok rows) ≡ ok after
    → rows ≡ after
unless-ok true error rows after done = cc
unless-ok false error rows after done = ok-inj done

and_extract-ok :
    (result : Result (List Node)) (rest : List Node → Result (List Node)) (after : List Node)
    → and_extract result rest ≡ ok after
    → (middle : List Node) × (result ≡ ok middle) × (rest middle ≡ ok after)
and_extract-ok (ok rows) rest after done = (rows, refl, done)
and_extract-ok (raised error) rest after done = cc

extracted_row : ℕ → Node → Node
extracted_row at row = record row { learnings_extracted_at = some at }

-- Extracting twice is extracting once.
twice :
    (at : ℕ) (first later : Bool) (found : Option Node)
    → changed_all
        (λ id. later)
        (extracted_row at)
        (λ id. if first then with_row (extracted_row at) found else found)
        ""
      ≡ (if first || later then with_row (extracted_row at) found else found)
unfolding extracted_row
twice at true true none = refl
twice at true true (some row) = refl
twice at true false found = refl
twice at false later found = refl

extract-memory : (ids : List String) (at : ℕ) → Keeps memory_write (extract ids at)
unfolding memory_write promised Memory.record_learnings_extracted mem extracted_row
extract-memory [] at rows after id done = ap (read_node id) (sym (ok-inj done))
extract-memory (first ∷ ids) at rows after id done =
    let (middle, started, ends) =
      and_extract-ok (rewrite first (extracted_row at) rows)
        (Memory.record_learnings_extracted ids at) after done in
    extract-memory ids at middle after id ends
    ∙ (ap (λ found. if mem ids id then with_row (extracted_row at) found else found)
          (read-rewrite first (extracted_row at) rows middle id (λ row. refl) started)
        ∙ twice at (first == id) (mem ids id) (read_node id rows))

extract-sqlite : (ids : List String) (at : ℕ) → Keeps sqlite_write (extract ids at)
unfolding sqlite_write promised Sqlite.record_learnings_extracted
extract-sqlite ids at rows after id done =
    ap (read_node id) (sym (ok-inj done)) ∙ read-update_ids (mem ids) _ rows id (λ row. refl)

pub memory-Keeps : (step : Write) → Keeps memory_write step
unfolding memory_write promised Memory.update_state Memory.spend_recovery_attempt
    Memory.reset_recovery_attempts Memory.record_pull_request_settled
memory-Keeps (ensure graph_nodes now) rows after id done =
    ap (read_node id) (sym (ok-inj done)) ∙ memory-ensure graph_nodes now rows id
memory-Keeps (move node_id state at resume_at) rows after id done =
    read-rewrite node_id _ rows after id (λ row. refl) done
memory-Keeps (spend node_id) rows after id done =
    read-rewrite node_id _ rows after id (λ row. refl) done
memory-Keeps (reset node_id attempts) rows after id done =
    read-rewrite node_id _ rows after id (λ row. refl) done
memory-Keeps (settle node_id at) rows after id done =
    read-rewrite node_id _ rows after id (λ row. refl) done
memory-Keeps (extract ids at) rows after id done = extract-memory ids at rows after id done

pub sqlite-Keeps : (step : Write) → Keeps sqlite_write step
unfolding sqlite_write promised Sqlite.update_state Sqlite.spend_recovery_attempt
    Sqlite.reset_recovery_attempts Sqlite.record_pull_request_settled
sqlite-Keeps (ensure graph_nodes now) rows after id done =
    ap (read_node id) (sym (unless-ok _ _ (Sqlite.ensure_rows graph_nodes now rows) after done))
    ∙ sqlite-ensure graph_nodes now rows id
sqlite-Keeps (move node_id state at resume_at) rows after id done =
    ap (read_node id) (sym (ok-inj done)) ∙ read-update_where node_id _ rows id (λ row. refl)
sqlite-Keeps (spend node_id) rows after id done =
    ap (read_node id) (sym (ok-inj done)) ∙ read-update_where node_id _ rows id (λ row. refl)
sqlite-Keeps (reset node_id attempts) rows after id done =
    ap (read_node id) (sym (ok-inj done)) ∙ read-update_where node_id _ rows id (λ row. refl)
sqlite-Keeps (settle node_id at) rows after id done =
    ap (read_node id) (sym (ok-inj done)) ∙ read-update_where node_id _ rows id (λ row. refl)
sqlite-Keeps (extract ids at) rows after id done = extract-sqlite ids at rows after id done

unfoldable pub replay :
    (Write → List Node → Result (List Node)) → List Write → List Node → Result (List Node)
replay write [] rows = ok rows
replay write (step ∷ steps) rows = and_extract (write step rows) (replay write steps)

promised-same :
    (step : Write) (a b : View)
    → ((id : String) → a id ≡ b id)
    → (id : String) → promised step a id ≡ promised step b id
unfolding promised
promised-same (ensure graph_nodes now) a b same id = rw (same id) refl
promised-same (move node_id state at resume_at) a b same id = rw (same id) refl
promised-same (spend node_id) a b same id = rw (same id) refl
promised-same (reset node_id attempts) a b same id = rw (same id) refl
promised-same (settle node_id at) a b same id = rw (same id) refl
promised-same (extract ids at) a b same id = rw (same id) refl

-- From rows that are the same by their ids, a sequence of writes that both repositories take leads
-- both to rows that are the same by their ids.
pub replay-agree :
    (steps : List Write) (memory sqlite memory_after sqlite_after : List Node)
    → ((id : String) → read_node id memory ≡ read_node id sqlite)
    → replay memory_write steps memory ≡ ok memory_after
    → replay sqlite_write steps sqlite ≡ ok sqlite_after
    → (id : String) → read_node id memory_after ≡ read_node id sqlite_after
unfolding replay
replay-agree [] memory sqlite memory_after sqlite_after same one two id =
    ap (read_node id) (sym (ok-inj one)) ∙ (same id ∙ ap (read_node id) (ok-inj two))
replay-agree (step ∷ steps) memory sqlite memory_after sqlite_after same one two id =
    let (memory_next, memory_steps, memory_ends) = and_extract-ok _ _ memory_after one in
    let (sqlite_next, sqlite_steps, sqlite_ends) = and_extract-ok _ _ sqlite_after two in
    replay-agree steps memory_next sqlite_next memory_after sqlite_after
      (λ key.
        memory-Keeps step memory memory_next key memory_steps
        ∙ (promised-same step (view memory) (view sqlite) same key
            ∙ sym (sqlite-Keeps step sqlite sqlite_next key sqlite_steps)))
      memory_ends sqlite_ends id
