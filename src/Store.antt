-- ===== src/Store.antt =====
-- The database of a run, and infra/persistence/sqlite: each repository operation as a function on it.
-- `published` holds the events handed to domain/service/notification_publisher.py, in order, and
-- `effects` what was asked of agents and worktrees. Ids are the tables' primary keys; a row of
-- `agents` holds its sessions and its worktree.
mod Monad
pub mod Nodes
pub mod Touch
pub mod Counting
pub mod Reach
pub mod Ensured
pub mod Recovery
pub mod Moves
pub mod Memory
unfoldable pub use Monad.*
use agentic_dag.Prelude.{
  ℕ, suc, ◌+◌, String, Bool, true, false, not, ◌&&◌, List, [], ◌∷◌, ◌++◌, map, Option, none, some,
  ◌==◌, string_eq, nat_eq, keep, mem, leb, if◌then◌else◌, ℤ, pos, pred_int, length,
}
use agentic_dag.Domain.{
  NodeState, pending, state_eq, GraphNode, Node, AgentSession, WorkTree, NodeAgent, AuditEntry,
  NodeEvent, is_some,
}
use agentic_dag.Domain.NodeMethods.{is_due_for_learning_extraction}

-- Sqlite has the rows of a table that a statement matches: `[f(row) if test(row) else row]`.
unfoldable pub update_where {ℓ} : {A : Type ℓ} → (A → Bool) → (A → A) → List A → List A
update_where test f [] = []
update_where test f (row ∷ rows) = (if test row then f row else row) ∷ update_where test f rows

unfoldable pub find_row {ℓ} : {A : Type ℓ} → (A → Bool) → List A → Option A
find_row test [] = none
find_row test (row ∷ rows) = if test row then some row else find_row test rows

-- A comparison of ids in a statement: a missing id equals nothing.
abbrev pub same_id : Option ℕ → Option ℕ → Bool
same_id (some a) (some b) = a == b
same_id _ _ = false

-- SqliteNodeRepo

unfoldable pub fresh_row : GraphNode → ℕ → Node
fresh_row graph_node now = record {
  id = graph_node.id;
  title = graph_node.title;
  name = graph_node.name;
  state = pending;
  created_at = now;
  updated_at = now;
  resume_at = none;
  recovery_attempts_allowed = pos graph_node.recovery_attempts_allowed;
  pull_request_settled_at = none;
  learnings_extracted_at = none;
}

-- The rows to insert. `existing` is read once: a repeated new id breaks the primary key, and the
-- statement raises; the graph's ids are distinct once it is validated.
unfoldable pub missing_rows : List String → List GraphNode → ℕ → List Node
unfolding mem fresh_row
missing_rows existing [] now = []
missing_rows existing (graph_node ∷ graph_nodes) now =
    if mem existing graph_node.id
    then missing_rows existing graph_nodes now
    else fresh_row graph_node now ∷ missing_rows existing graph_nodes now

unfoldable pub ensure_rows : List GraphNode → ℕ → List Node → List Node
unfolding missing_rows
ensure_rows graph_nodes now nodes =
    nodes ++ missing_rows (map (λ node. node.id) nodes) graph_nodes now

unfoldable pub read_node : String → List Node → Option Node
unfolding find_row
read_node id = find_row (λ node. node.id == id)

unfoldable pub get_nodes_by_state : NodeState → List Node → List Node
unfolding keep
get_nodes_by_state state = keep (λ node. node.state == state)

unfoldable pub get_nodes_by_ids : List String → List Node → List Node
unfolding keep mem
get_nodes_by_ids ids = keep (λ node. mem ids node.id)

unfoldable pub update_state : String → NodeState → ℕ → Option ℕ → List Node → List Node
unfolding update_where
update_state id state at resume_at =
    update_where (λ node. node.id == id)
      (λ node. record node { state = state; updated_at = at; resume_at = resume_at })

unfoldable pub spend_recovery_attempt : String → List Node → List Node
unfolding update_where pred_int
spend_recovery_attempt id =
    update_where (λ node. node.id == id)
      (λ node. record node { recovery_attempts_allowed = pred_int node.recovery_attempts_allowed })

unfoldable pub reset_recovery_attempts : String → ℕ → List Node → List Node
unfolding update_where
reset_recovery_attempts id attempts =
    update_where (λ node. node.id == id)
      (λ node. record node { recovery_attempts_allowed = pos attempts })

unfoldable pub record_pull_request_settled : String → ℕ → List Node → List Node
unfolding update_where
record_pull_request_settled id at =
    update_where (λ node. node.id == id) (λ node. record node { pull_request_settled_at = some at })

unfoldable pub get_nodes_due_for_learning_extraction : List Node → List Node
unfolding keep
get_nodes_due_for_learning_extraction = keep is_due_for_learning_extraction

unfoldable pub record_learnings_extracted : List String → ℕ → List Node → List Node
unfolding update_where mem
record_learnings_extracted ids at =
    update_where (λ node. mem ids node.id)
      (λ node. record node { learnings_extracted_at = some at })

-- SqliteNodeAgentRepo, SqliteAgentSessionRepo and SqliteWorkTreeRepo

-- The relationship's `order_by="AgentSession.started_at"`.
unfoldable pub insert_session : AgentSession → List AgentSession → List AgentSession
insert_session session [] = session ∷ []
insert_session session (first ∷ sessions) =
    if leb session.started_at first.started_at
    then session ∷ first ∷ sessions
    else first ∷ insert_session session sessions

unfoldable pub by_started_at : List AgentSession → List AgentSession
unfolding insert_session
by_started_at [] = []
by_started_at (session ∷ sessions) = insert_session session (by_started_at sessions)

abbrev loaded : Option NodeAgent → Option NodeAgent
loaded none = none
loaded (some agent) = some (record agent { sessions = by_started_at agent.sessions })

unfoldable pub get_by_node_id : String → List NodeAgent → Option NodeAgent
unfolding find_row by_started_at
get_by_node_id node_id agents = loaded (find_row (λ agent. agent.node_id == node_id) agents)

-- The ids that the database gives to the rows of a saved aggregate that have none.
unfoldable pub number_sessions : ℕ → List AgentSession → List AgentSession × ℕ
number_sessions next [] = ([], next)
number_sessions next (session ∷ sessions) =
    let new = number_sessions (suc next) sessions in
    let old = number_sessions next sessions in
    elim session.id [
      | none ↦ (record session { id = some next } ∷ new.0, new.1)
      | some id ↦ (session ∷ old.0, old.1)
    ]

unfoldable pub number_worktree : ℕ → Option WorkTree → Option WorkTree × ℕ
number_worktree next none = (none, next)
number_worktree next (some worktree) = elim worktree.id [
  | none ↦ (some (record worktree { id = some next }), suc next)
  | some id ↦ (some worktree, next)
]

-- `session.merge(agent)`: the row of that id is replaced, or a new one is inserted.
unfoldable pub put_agent : NodeAgent → List NodeAgent → List NodeAgent
put_agent agent [] = agent ∷ []
put_agent agent (row ∷ rows) =
    if row.id == agent.id then agent ∷ rows else row ∷ put_agent agent rows

unfoldable pub save_agent : NodeAgent → Store → Store
unfolding number_sessions number_worktree put_agent
save_agent agent store =
    let (sessions, next) = number_sessions store.next_id agent.sessions in
    let (worktree, next') = number_worktree next agent.worktree in
    record store {
      agents = put_agent (record agent { sessions = sessions; worktree = worktree }) store.agents;
      next_id = next';
    }

unfoldable pub add_session : AgentSession → Store → Store
unfolding update_where
add_session session store = record store {
  agents =
      update_where (λ agent. agent.id == session.agent_id)
        (λ agent. record agent {
          sessions = agent.sessions ++ record session { id = some store.next_id } ∷ [];
        })
        store.agents;
  next_id = suc store.next_id;
}

unfoldable pub close_session_row : AgentSession → Store → Store
unfolding update_where
close_session_row closed store = record store {
  agents =
      map {A = NodeAgent} {B = NodeAgent}
        (λ agent. record agent {
          sessions =
              update_where (λ session. same_id session.id closed.id)
                (λ session. record session {
                  end_state = closed.end_state;
                  ended_at = closed.ended_at;
                  exit_code = closed.exit_code;
                  log_tail = closed.log_tail;
                })
                agent.sessions;
        })
        store.agents;
}

abbrev write_worktree : Option ℕ → (WorkTree → WorkTree) → Option WorkTree → Option WorkTree
write_worktree id f none = none
write_worktree id f (some worktree) = some (if same_id worktree.id id then f worktree else worktree)

unfoldable pub update_worktree : Option ℕ → (WorkTree → WorkTree) → Store → Store
update_worktree id f store = record store {
  agents =
      map {A = NodeAgent} {B = NodeAgent}
        (λ agent. record agent { worktree = write_worktree id f agent.worktree }) store.agents;
}

unfoldable pub record_publication : WorkTree → Store → Store
unfolding update_worktree
record_publication published = update_worktree published.id (λ row. record row {
  branch = published.branch;
  pr_number = published.pr_number;
  pr_url = published.pr_url;
  head_sha = published.head_sha;
})

-- `session.merge(worktree)`; a column that the given row leaves unset, `pr_url` here, stays.
unfoldable pub save_worktree : WorkTree → Store → Store
unfolding update_worktree
save_worktree worktree =
    update_worktree worktree.id (λ row. record worktree { id = row.id; pr_url = row.pr_url })

unfoldable pub advance_marks : WorkTree → Store → Store
unfolding update_worktree
advance_marks marked = update_worktree marked.id (λ row. record row { marks = marked.marks })

unfoldable pub mark_reclaimed : WorkTree → Store → Store
unfolding update_worktree
mark_reclaimed reclaimed =
    update_worktree reclaimed.id (λ row. record row { reclaimed_at = reclaimed.reclaimed_at })

-- SqliteAuditEntryRepo and the publisher

unfoldable pub save_audit_entry : AuditEntry → Store → Store
save_audit_entry entry store = record store { audit_entries = store.audit_entries ++ entry ∷ [] }

unfoldable pub publish : NodeEvent → Store → Store
publish event store = record store { published = store.published ++ event ∷ [] }

unfoldable pub set_nodes : (List Node → List Node) → Store → Store
set_nodes f store = record store { nodes = f store.nodes }

-- NodeStateHandler.record of domain/node/node_state_handler.py
unfoldable pub record_move : NodeEvent → NodeState → String → Store → Store
unfolding set_nodes update_state save_audit_entry publish
record_move event state note store = publish event (
    save_audit_entry
      (record {
        node_id = event.node_id;
        state = state;
        note = note;
        created_at = event.created_at;
      })
      (set_nodes (update_state event.node_id state event.created_at none) store))
