-- ===== src/Signals/Comments.antt =====
-- The watermark of the comments: the newest timestamp among those reported.
use agentic_dag.Prelude.{
  ◌≡◌, ◌≢◌, refl, String, false, List, [], ◌∷◌, none, some, string_eq, arith, keep, All, text_lt,
  max_text, text_lt_irrefl, text_lt_asym, text_le_trans, max_text_left, max_text_right, subst,
}
use agentic_dag.Domain.{ReviewArtifact, PrDetails}
use agentic_dag.Signals.{
  SignalChange, get_timestamp, comment_signal, is_fresh, newest, detect_comments, detect,
}

-- No timestamp of the list is after `mark`.
abbrev pub AreSeen : String → List ReviewArtifact → Type 0
AreSeen mark = All (λ artifact. text_lt mark (get_timestamp artifact) ≡ false)

newest-le :
    (latest : String) (artifacts : List ReviewArtifact)
    → text_lt (newest latest artifacts) latest ≡ false
unfolding newest
newest-le latest [] = text_lt_irrefl latest
newest-le latest (artifact ∷ artifacts) =
    text_le_trans latest (max_text latest (get_timestamp artifact))
      (newest (max_text latest (get_timestamp artifact)) artifacts)
      (max_text_left latest (get_timestamp artifact))
      (newest-le (max_text latest (get_timestamp artifact)) artifacts)

newest-AreSeen :
    (latest : String) (artifacts : List ReviewArtifact)
    → AreSeen (newest latest artifacts) artifacts
unfolding newest
newest-AreSeen latest [] = tt
newest-AreSeen latest (artifact ∷ artifacts) =
    let next = max_text latest (get_timestamp artifact) in
    (
      text_le_trans (get_timestamp artifact) next (newest next artifacts)
          (max_text_right latest (get_timestamp artifact)) (newest-le next artifacts),
      newest-AreSeen next artifacts,
    )

-- The watermark of a report is at or after every reported comment.
pub detect_comments-AreSeen :
    (artifacts : List ReviewArtifact) (change : SignalChange)
    → detect_comments artifacts ≡ some change
    → AreSeen change.mark artifacts
unfolding detect_comments
detect_comments-AreSeen [] change h = cc
detect_comments-AreSeen (first ∷ others) change h =
    subst (λ m. AreSeen m (first ∷ others)) (ground arith)
      (newest-le (get_timestamp first) others, newest-AreSeen (get_timestamp first) others)

-- With the old mark below the new one, nothing that was fresh or stale before is fresh now.
keep-is_fresh-nil :
    (account old mark : String) (artifacts : List ReviewArtifact)
    → text_lt mark old ≡ false
    → AreSeen mark (keep (is_fresh account old) artifacts)
    → keep (is_fresh account mark) artifacts ≡ []
unfolding keep is_fresh
keep-is_fresh-nil account old mark [] later seen = refl
keep-is_fresh-nil account old mark (artifact ∷ artifacts) later seen = ground (
  arith,
  keep-is_fresh-nil account old mark artifacts later,
  text_le_trans (get_timestamp artifact) old mark,
)

mark-later :
    (account old mark : String) (artifacts : List ReviewArtifact)
    → keep (is_fresh account old) artifacts ≢ []
    → AreSeen mark (keep (is_fresh account old) artifacts)
    → text_lt mark old ≡ false
unfolding keep is_fresh
mark-later account old mark [] some_fresh seen = absurd (some_fresh refl)
mark-later account old mark (artifact ∷ artifacts) some_fresh seen = ground (
  arith,
  mark-later account old mark artifacts,
  text_le_trans old (get_timestamp artifact) mark,
  text_lt_asym old (get_timestamp artifact),
)

-- Read again at its own watermark, the same pull request holds no new comment.
pub comment_signal-quiet :
    (account old : String) (reading : PrDetails) (change : SignalChange)
    → detect (comment_signal account) reading old ≡ some change
    → detect (comment_signal account) reading change.mark ≡ none
unfolding detect detect_comments
comment_signal-quiet account old reading change h =
    let seen = detect_comments-AreSeen (keep (is_fresh account old) reading.artifacts) change h in
    let reported : keep (is_fresh account old) reading.artifacts ≢ [] = λ nothing. ground arith in
    let later = mark-later account old change.mark reading.artifacts reported seen in
    rw (keep-is_fresh-nil account old change.mark reading.artifacts later seen)
