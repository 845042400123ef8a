-- ===== src/Learning/Lock.antt =====
-- services/learning/extraction_lock.py, on the text of the lock file. Creating the file and writing
-- to it are one step.
pub mod Recorded
use Prim.Native.Char.{code}
use agentic_dag.Prelude.{
  ℕ, String, Bool, true, false, List, [], ◌∷◌, ◌++◌, Option, none, some, if◌then◌else◌, nat_beq,
  concat, show_int, join,
}
use agentic_dag.Learning.Lines.{newline, splitlines, universal_newlines, before_newline}
use agentic_dag.World.{World}
use agentic_dag.Store.{M, Store, LockFile, pure, query, modify, ◌>>=◌, ◌>>◌}

pub data LockState : Type 0 where
  free held unreadable : LockState

-- `text.removeprefix(prefix)` where `text.startswith(prefix)`, else `none`.
unfoldable pub after_prefix : String → String → Option String
after_prefix String.[] text = some text
after_prefix (String.◌∷◌ c rest) String.[] = none
after_prefix (String.◌∷◌ c rest) (String.◌∷◌ d text) =
    let found = after_prefix rest text in if nat_beq (code c) (code d) then found else none

abbrev pub started_mark : String
started_mark = "started_at="

abbrev second_line : List String → Option String
second_line (_ ∷ line ∷ _) = some line
second_line _ = none

abbrev marked : Option String → Option String
marked none = none
marked (some line) = after_prefix started_mark line

abbrev recorded : World → Option String → ℕ → Option ℕ
recorded world none written_at = some written_at
recorded world (some text) written_at = world.parse_time text

-- `_get_recorded_started_at`; `none` where a ValueError is raised.
unfoldable pub get_recorded_started_at : World → LockFile → Option ℕ
unfolding after_prefix splitlines
get_recorded_started_at world file =
    recorded world (marked (second_line (splitlines file.content))) file.written_at

abbrev live : World → Option ℕ → Option ℕ → Option (Option ℕ)
live world (some pid) (some started_at) =
    some (if world.is_process_alive pid started_at then some pid else none)
live world _ _ = none

-- `_get_live_pid_from_content`; the outer `none` is a ValueError.
unfoldable pub get_live_pid : World → LockFile → Option (Option ℕ)
unfolding get_recorded_started_at before_newline
get_live_pid world file =
    live world (world.int_of (before_newline file.content)) (get_recorded_started_at world file)

abbrev state_of_pid : Option (Option ℕ) → LockState
state_of_pid none = unreadable
state_of_pid (some none) = free
state_of_pid (some (some pid)) = held

unfoldable pub get_state : World → Option LockFile → LockState
unfolding get_live_pid
get_state world none = free
get_state world (some file) = state_of_pid (get_live_pid world file)

abbrev is_free_state : LockState → Bool
is_free_state free = true
is_free_state _ = false

unfoldable pub is_free : World → Store → Bool
unfolding get_state
is_free world store = is_free_state (get_state world store.extraction_lock)

unfoldable pub set_lock : Option LockFile → Store → Store
set_lock file store = record store { extraction_lock = file }

abbrev pub started_lines : World → Option ℕ → List String
started_lines world none = []
started_lines world (some started_at) = concat (started_mark ∷ world.isoformat started_at ∷ []) ∷ []

unfoldable pub session_lines : World → (pid : ℕ) → List String → List String
session_lines world pid node_ids =
    show_int pid ∷ (started_lines world (world.process_started_at pid) ++ node_ids)

-- `"\n".join(lines)`, written at a moment and read.
unfoldable pub written : List String → ℕ → LockFile
unfolding universal_newlines join
written lines written_at = record {
  content = universal_newlines (join newline lines);
  written_at = written_at;
}

unfoldable pub record_session_pid : World → (pid : ℕ) → List String → M (Unit {0})
unfolding session_lines set_lock written
record_session_pid world pid node_ids =
    modify (set_lock (some (written (session_lines world pid node_ids) (world.now 3))))

abbrev pub create_lock : World → Option LockFile → M Bool
create_lock world (some file) = pure false
create_lock world none = record_session_pid world world.getpid [] >> pure true

unfoldable pub acquire : World → M Bool
unfolding is_free set_lock record_session_pid
acquire world = do
  may_take ← query (is_free world)
  if may_take then modify (set_lock none) else pure tt
  file ← query (λ store. store.extraction_lock)
  create_lock world file

abbrev live_or_none : Option (Option ℕ) → Option ℕ
live_or_none none = none
live_or_none (some pid) = pid

unfoldable pub get_live_session_pid : World → Option LockFile → Option ℕ
unfolding get_live_pid
get_live_session_pid world none = none
get_live_session_pid world (some file) = live_or_none (get_live_pid world file)

abbrev kept_line : Option String → String → List String → List String
kept_line none line lines = line ∷ lines
kept_line (some started_at) line lines = lines

abbrev pub unmarked : List String → List String
unmarked [] = []
unmarked (line ∷ lines) = kept_line (after_prefix started_mark line) line lines

abbrev rest_of : List String → List String
rest_of [] = []
rest_of (line ∷ lines) = lines

unfoldable pub get_session_node_ids : Option LockFile → List String
unfolding after_prefix splitlines
get_session_node_ids none = []
get_session_node_ids (some file) = unmarked (rest_of (splitlines file.content))

unfoldable pub release : M (Unit {0})
unfolding set_lock
release = modify (set_lock none)
