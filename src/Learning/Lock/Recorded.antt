-- ===== src/Learning/Lock/Recorded.antt =====
-- What the lock file holds of a session is what was recorded of it.
use agentic_dag.Prelude.{
  ℕ, ◌≡◌, refl, String, true, List, [], ◌∷◌, ap, ◌∙◌, same_refl, nat_eq, some, concat, show_int,
  has_char, All, false, has_char-show_int, mem, string_eq,
}
use Prim.Native.Char.{code}
use Prim.Native.String.{◌++◌}
use Prim.Native.String.append
use text.Mathlib.TextLemmas.{append-nil}
use agentic_dag.Learning.Lines.{is_line_break, is_line}
use agentic_dag.Learning.Lines.RoundTrip.{
  universal_newlines-headed, before_newline-headed, splitlines-headed, is_line-append,
}
use agentic_dag.World.{World}
use agentic_dag.Learning.Lock.{
  after_prefix, started_mark, session_lines, written, get_live_session_pid, get_session_node_ids,
  get_live_pid, get_recorded_started_at, get_state, held,
}

abbrev append_text : String → String → String
append_text a b = a ++ b

after_prefix-append : (mark text : String) → after_prefix mark (append_text mark text) ≡ some text
unfolding after_prefix
after_prefix-append String.[] text = rw (append.nil text) refl
after_prefix-append (String.◌∷◌ c mark) text =
    rw (append.cons c mark text, same_refl (code c)) (after_prefix-append mark text)

marked_line :
    (text : String) → after_prefix started_mark (concat (started_mark ∷ text ∷ [])) ≡ some text
unfolding concat
marked_line text = after_prefix-append started_mark _ ∙ ap some (append-nil text)

show_int-clear : (n : ℕ) → has_char is_line_break (show_int n) ≡ false
unfolding has_char mem
show_int-clear n =
    has_char-show_int is_line_break n
      (refl, (refl, (refl, (refl, (refl, (refl, (refl, (refl, (refl, (refl, tt))))))))))

mark-starts : has_char (λ _. true) started_mark ≡ true
unfolding has_char
mark-starts = refl

mark-clear : has_char is_line_break started_mark ≡ false
unfolding has_char mem
mark-clear = refl

is_line-started :
    (text : String)
    → has_char is_line_break text ≡ false
    → is_line (concat (started_mark ∷ text ∷ [])) ≡ true
unfolding concat
is_line-started text clear =
    is_line-append started_mark _ mark-starts mark-clear
      (ap (has_char is_line_break) (append-nil text) ∙ clear)

-- A recorded session reads back from the text of the lock file as it was recorded, with the lock
-- held: its process id, and its nodes. The text of the process id is the number that it reads as, the
-- start of the process is known and reads back from its text, which has no line break, and the
-- process is alive. No id of a node is empty or holds a line break.
pub session-recorded :
    (world : World) (pid started_at at : ℕ) (node_ids : List String)
    → world.int_of (show_int pid) ≡ some pid
    → world.process_started_at pid ≡ some started_at
    → world.parse_time (world.isoformat started_at) ≡ some started_at
    → has_char is_line_break (world.isoformat started_at) ≡ false
    → world.is_process_alive pid started_at ≡ true
    → All (λ id. is_line id ≡ true) node_ids
    → let file = some (written (session_lines world pid node_ids) at) in
      (get_live_session_pid world file ≡ some pid)
      × (get_session_node_ids file ≡ node_ids)
      × (get_state world file ≡ held)
unfolding session_lines get_live_session_pid get_session_node_ids get_live_pid
    get_recorded_started_at get_state written
session-recorded world pid started_at at node_ids digits known times clear alive whole =
    let first = show_int pid in
    let started = concat (started_mark ∷ world.isoformat started_at ∷ []) in
    let second = is_line-started (world.isoformat started_at) clear in
    rw
      (
        known,
        universal_newlines-headed first started node_ids (show_int-clear pid) (second, whole),
        before_newline-headed first started node_ids (show_int-clear pid) (second, whole),
        splitlines-headed first started node_ids (show_int-clear pid) (second, whole),
        digits,
        marked_line (world.isoformat started_at),
        times,
        alive,
      )
      (refl, refl, refl)
