-- ===== src/Signals.antt =====
-- services/signals and domain/signals: the kinds of news on a pull request, how each is detected
-- against its watermark, and the watermarks of a worktree. The classes that implement `PrSignal` are
-- the constructors of a data type, and a dictionary is the list of its items.
pub mod Marks
pub mod Quiet
pub mod Comments
use agentic_dag.Prelude.{
  ℕ, String, Bool, true, false, not, ◌&&◌, ◌||◌, List, [], ◌∷◌, map, Option, none, some, ◌==◌,
  string_eq, keep, length, if◌then◌else◌, concat, join, text_lt, max_text, sorted, show_int,
}
use agentic_dag.Domain.{
  CheckFailure, ReviewArtifact, PrDetails, NotificationType, feedback_received, ci_failed,
  conflicts_found, approved, text_or,
}

pub record SignalChange : Type 0 where
  pub signal : String
  pub mark : String
  pub heading : String
  pub body : String
  pub wakes_node : Bool
  pub notification : Option NotificationType
  pub count : ℕ

unfoldable pub render : SignalChange → String
render change = concat ("### " ∷ change.heading ∷ "\n\n" ∷ change.body ∷ [])

abbrev pub Marks : Type 0
Marks = List (String × String)

-- `SignalMarkIndex.read`
unfoldable pub read : Marks → String → String
read [] signal = ""
read ((name, mark) ∷ values) signal = if name == signal then mark else read values signal

-- `values[name] = mark`
unfoldable pub set_mark : String → String → Marks → Marks
set_mark name mark [] = (name, mark) ∷ []
set_mark name mark ((other, old) ∷ values) =
    if other == name then (name, mark) ∷ values else (other, old) ∷ set_mark name mark values

-- `SignalMarkIndex.advanced`
unfoldable pub advanced : Marks → List SignalChange → Marks
unfolding set_mark
advanced values [] = values
advanced values (change ∷ changes) = advanced (set_mark change.signal change.mark values) changes

-- `SignalMarkIndex.without`
unfoldable pub without : Marks → String → Marks
without [] signal = []
without ((name, mark) ∷ values) signal =
    if name == signal then without values signal else (name, mark) ∷ without values signal

unfoldable pub get_timestamp : ReviewArtifact → String
get_timestamp artifact = max_text artifact.updated_at artifact.created_at

-- `CheckSignature.of`; the empty value stands for no failure.
unfoldable pub check_signature : String → List CheckFailure → String
check_signature head_sha [] = ""
check_signature head_sha (failure ∷ failures) =
    join "|" (head_sha ∷ sorted (map (λ failed. failed.name) (failure ∷ failures)))

pub data PrSignal : Type 0 where
  comment_signal : (agent_account : String) → PrSignal
  check_signal conflict_signal approval_signal : PrSignal

unfoldable pub name : PrSignal → String
name (comment_signal _) = "comments"
name check_signal = "checks"
name conflict_signal = "conflict"
name approval_signal = "approval"

unfoldable pub is_fresh : String → String → ReviewArtifact → Bool
unfolding get_timestamp
is_fresh agent_account mark artifact =
    not (artifact.author == agent_account)
    && (not artifact.is_approval && text_lt mark (get_timestamp artifact))

-- `max(artifact.get_timestamp() for artifact in fresh)`, on the first and the others.
unfoldable pub newest : String → List ReviewArtifact → String
unfolding get_timestamp
newest latest [] = latest
newest latest (artifact ∷ artifacts) = newest (max_text latest (get_timestamp artifact)) artifacts

unfoldable pub render_one : ReviewArtifact → String
render_one artifact =
    let where_ = if artifact.path == "" then "" else concat (" on `" ∷ artifact.path ∷ "`" ∷ []) in
    concat (
      "**"
      ∷ artifact.author
      ∷ "**"
      ∷ where_
      ∷ " (id "
      ∷ show_int artifact.artifact_id
      ∷ "):\n"
      ∷ artifact.body
      ∷ [])

unfoldable pub detect_comments : List ReviewArtifact → Option SignalChange
unfolding newest get_timestamp
detect_comments [] = none
detect_comments (first ∷ others) = some (record {
  signal = name (comment_signal "");
  mark = newest (get_timestamp first) others;
  heading = concat ("New review comments (" ∷ show_int (length (first ∷ others)) ∷ ")" ∷ []);
  body = join "\n\n" (map render_one (first ∷ others));
  wakes_node = true;
  notification = some feedback_received;
  count = length (first ∷ others);
})

unfoldable pub render_instructions : String → String
render_instructions base_branch =
    let base = text_or base_branch "the base branch" in
    concat (
      "This pull request no longer merges cleanly. Merge the base branch into "
      ∷ "yours, resolve the conflicts, and push the result:\n\n" ∷ "    git fetch origin " ∷ base
      ∷ "\n" ∷ "    git merge origin/" ∷ base ∷ "\n\n"
      ∷ "Merge rather than rebase: your commits are already pushed, so rewriting "
      ∷ "them would need the force-push you must never do. A merge commit pushes " ∷ "cleanly."
      ∷ [])

unfoldable pub detect : PrSignal → PrDetails → String → Option SignalChange
unfolding is_fresh detect_comments check_signature name
detect (comment_signal agent_account) reading mark =
    detect_comments (keep (is_fresh agent_account mark) reading.artifacts)
detect check_signal reading mark =
    let signature = check_signature reading.head_sha reading.failures in
    if signature == "" || signature == mark
    then none
    else some (record {
      signal = name check_signal;
      mark = signature;
      heading = "Failing checks";
      body = join "\n" (
          map (λ failure. concat ("- `" ∷ failure.name ∷ "` (" ∷ failure.conclusion ∷ ")" ∷ []))
            reading.failures);
      wakes_node = true;
      notification = some ci_failed;
      count = 0;
    })
detect conflict_signal reading mark =
    if not reading.is_conflicted || reading.head_sha == mark
    then none
    else some (record {
      signal = name conflict_signal;
      mark = reading.head_sha;
      heading = "Conflicts with the base branch";
      body = render_instructions reading.base_branch;
      wakes_node = true;
      notification = some conflicts_found;
      count = 0;
    })
detect approval_signal reading mark =
    if not reading.is_approved || reading.head_sha == mark
    then none
    else some (record {
      signal = name approval_signal;
      mark = reading.head_sha;
      heading = "Approved";
      body = "a reviewer approved this pull request";
      wakes_node = false;
      notification = some approved;
      count = 0;
    })

abbrev cons_some {ℓ} : {A : Type ℓ} → Option A → List A → List A
cons_some none xs = xs
cons_some (some x) xs = x ∷ xs

-- The loop over `self._pr_signals` in `RestingNodeHandler._observe`.
unfoldable pub detect_all : List PrSignal → PrDetails → Marks → List SignalChange
unfolding detect
detect_all [] reading marks = []
detect_all (signal ∷ signals) reading marks =
    cons_some (detect signal reading (read marks (name signal))) (detect_all signals reading marks)

-- The signals of a run, as bootstrap/register_beans.py lists them.
unfoldable pub pr_signals : String → List PrSignal
pr_signals agent_account =
    comment_signal agent_account ∷ check_signal ∷ conflict_signal ∷ approval_signal ∷ []
