-- ===== src/Labels.antt =====
-- labels/en.py with utils/format_label.py: the texts that the handlers record, with the placeholders
-- filled in.
mod Replies
unfoldable pub use Replies.*
use agentic_dag.Prelude.{ℕ, String, [], ◌∷◌, concat, show_int}

unfoldable pub upstream_stopped : String → String
upstream_stopped node_id =
    concat ("upstream node " ∷ node_id ∷ " stopped, so this one can never start" ∷ [])

unfoldable pub unknown_executor : String → String
unknown_executor executor = concat ("no launcher runs executor " ∷ executor ∷ [])

unfoldable pub starts_after_cooldown : String → String
starts_after_cooldown start_time =
    concat ("it starts at " ∷ start_time ∷ " when its cooldown ends" ∷ [])

unfoldable pub started_work : String → String
started_work agent_name = concat (agent_name ∷ " started work" ∷ [])

unfoldable pub conversation_started_without_thread : String → String
conversation_started_without_thread agent_name = concat (
    agent_name ∷ " started a new conversation because the previous session recorded no thread ID"
    ∷ [])

unfoldable pub resumed_work : String → String
resumed_work agent_name = concat (agent_name ∷ " resumed work" ∷ [])

unfoldable pub pull_request_opened : ℕ → String
pull_request_opened pr_number = concat ("opened #" ∷ show_int pr_number ∷ [])

unfoldable pub session_finished_on_pull_request : ℕ → String
session_finished_on_pull_request pr_number =
    concat ("its session finished on #" ∷ show_int pr_number ∷ [])

unfoldable pub merged_by_label : String → String
merged_by_label merged_by = concat ("merged by " ∷ merged_by ∷ [])

unfoldable pub usage_limit_wait : (executor reset_time : String) → String
usage_limit_wait executor reset_time =
    concat (executor ∷ " usage limit resets at " ∷ reset_time ∷ [])

unfoldable pub takeover_started : ℕ → String → String
takeover_started pr_number branch =
    concat
      ("took over #" ∷ show_int pr_number ∷ " on " ∷ branch ∷ " and started a session on it" ∷ [])

unfoldable pub takeover_resuming : ℕ → String → String
takeover_resuming pr_number branch = concat (
    "took over #"
    ∷ show_int pr_number
    ∷ " on "
    ∷ branch
    ∷ " and will resume the session it was given"
    ∷ [])

abbrev pub retry_message : String
retry_message =
    "A human sent this node back to work after its session ended. Continue the task from the current state of the worktree."

abbrev pub resume_message : String
resume_message = "The wait is over. Continue the task from the current state of the worktree."

abbrev pub session_never_started : String
session_never_started = "its session never started"

abbrev pub session_overdue : String
session_overdue = "its session ran past its deadline and was killed"

abbrev pub finished_without_pull_request : String
finished_without_pull_request = "its session finished without opening a pull request"

abbrev pub pull_request_merged : String
pull_request_merged = "its pull request merged"

abbrev pub closed_unmerged : String
closed_unmerged = "its pull request was closed without merging"

abbrev pub out_of_wakes : String
out_of_wakes = "it has been woken as often as this run allows"

abbrev pub upstream_skipped : String
upstream_skipped = "an upstream node was skipped"

abbrev pub skipped_by_human : String
skipped_by_human = "a human skipped it"
