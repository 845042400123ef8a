-- ===== src/StartTime/Bounds.antt =====
-- What the start time waits for.
use agentic_dag.Prelude.{
  ℕ, ◌+◌, ◌≤◌, ◌≡◌, String, true, List, [], ◌∷◌, ◌++◌, some, ◌==◌, string_eq, nat_eq, keep, mem,
  ltb, if◌then◌else◌, arith, Option-cases, ◌⊎◌, inl, inr, All, Bool-cases, same_cases, ◌↔◌,
}
use text.Mathlib.TextEquality.{eq_iff}
use agentic_dag.Domain.{GraphNode, Graph, Node, state_eq}
use agentic_dag.Domain.NodeMethods.{is_merged_or_skipped}
use agentic_dag.StartTime.{
  latest, resume_times, cooldown_ids, ended_times, get_cooldown_start_time, get_start_time,
}

-- Every time is at or before `now`, `shift` seconds on.
abbrev pub AtMost : ℕ → List ℕ → ℕ → Type 0
AtMost shift times now = All (λ time. time + shift ≤ now) times

-- The latest time has passed exactly if all have.
latest-le :
    (shift : ℕ) (times : List ℕ) (now : ℕ)
    → ((time : ℕ) → latest times ≡ some time → time + shift ≤ now) ↔ AtMost shift times now
unfolding latest
latest-le shift [] now = (λ h. tt, λ h time e. cc)
latest-le shift (time ∷ times) now = elim (Option-cases (latest times)) [
  | inl nothing ↦ (
    λ h. (h time (rw nothing), (latest-le shift times now).0 (λ other e. cc)),
    λ h other e. ground arith,
  )
  | inr (later, e) ↦ (
    λ h.
        let bound = h (if ltb time later then later else time) (rw e) in
        (ground arith, (latest-le shift times now).0 (λ other f. ground arith)),
    λ h other f. ground (arith, (latest-le shift times now).1 h.1 later e),
  )
]

AtMost-append :
    (xs ys : List ℕ) (now : ℕ) → AtMost 0 (xs ++ ys) now ↔ (AtMost 0 xs now × AtMost 0 ys now)
AtMost-append [] ys now = (λ h. (tt, h), λ h. h.1)
AtMost-append (x ∷ xs) ys now = ground (arith, AtMost-append xs ys now)

-- What a pending node waits for, row by row.
pub record IsElapsed (graph : Graph) (graph_node : GraphNode) (nodes : List Node) (now : ℕ)
    : Type 0 where
  pub resumed :
      All
        (λ node. (time : ℕ) → node.id ≡ graph_node.id → node.resume_at ≡ some time → time ≤ now)
        nodes
  pub cooled :
      (graph_node.cooldown_seconds ≡ 0)
      ⊎ All
          (λ node.
            mem (cooldown_ids graph graph_node nodes) node.id ≡ true
            → is_merged_or_skipped node ≡ true
            → node.updated_at + graph_node.cooldown_seconds ≤ now)
          nodes

resume_times-le :
    (id : String) (nodes : List Node) (now : ℕ)
    → AtMost 0 (resume_times id nodes) now
      ↔ All (λ node. (time : ℕ) → node.id ≡ id → node.resume_at ≡ some time → time ≤ now) nodes
unfolding resume_times
resume_times-le id [] now = (λ h. tt, λ h. tt)
resume_times-le id (node ∷ nodes) now = elim (Option-cases node.resume_at) [
  | inl nothing ↦ (
    λ h. (λ time same e. ground arith, (resume_times-le id nodes now).0 (ground arith)),
    λ h. rw nothing ((resume_times-le id nodes now).1 h.1),
  )
  | inr (time, e) ↦ (
    λ h. (
      λ other same f. ground (arith, eq_iff node.id id),
      (resume_times-le id nodes now).0 (ground (arith)),
    ),
    λ h.
        let rest = (resume_times-le id nodes now).1 h.1 in
        elim (same_cases node.id id) [
          | inl (test, same) ↦ rw (e, test) (omega (arith, h.0 time same e), rest)
          | inr (test, other) ↦ rw (e, test) rest
        ],
  )
]

ended_times-le :
    (ids : List String) (nodes : List Node) (seconds now : ℕ)
    → All (λ time. time + seconds ≤ now) (ended_times ids nodes)
      ↔ All
          (λ node.
            mem ids node.id ≡ true
            → is_merged_or_skipped node ≡ true
            → node.updated_at + seconds ≤ now)
          nodes
unfolding ended_times keep
ended_times-le ids [] seconds now = (λ h. tt, λ h. tt)
ended_times-le ids (node ∷ nodes) seconds now = ground (arith, ended_times-le ids nodes seconds now)

cooldown-le :
    (graph : Graph) (graph_node : GraphNode) (nodes : List Node) (now : ℕ)
    → ((time : ℕ) → get_cooldown_start_time graph graph_node nodes ≡ some time → time ≤ now) ↔ (
        (graph_node.cooldown_seconds ≡ 0)
        ⊎ AtMost graph_node.cooldown_seconds
            (ended_times (cooldown_ids graph graph_node nodes) nodes)
            now)
unfolding get_cooldown_start_time
cooldown-le graph graph_node nodes now =
    let times = ended_times (cooldown_ids graph graph_node nodes) nodes in
    elim (Bool-cases (graph_node.cooldown_seconds == 0)) [
      | inl none_asked ↦ (λ h. inl (ground arith), λ h time e. ground arith)
      | inr asked ↦ elim (Option-cases (latest times)) [
        | inl nothing ↦ (
          λ h. inr ((latest-le graph_node.cooldown_seconds times now).0 (λ time e. cc)),
          λ h time e. ground arith,
        )
        | inr (last, e) ↦ (
          λ h.
              let bound = h (last + graph_node.cooldown_seconds) (rw (asked, e)) in
              inr ((latest-le graph_node.cooldown_seconds times now).0 (λ time f. ground arith)),
          λ h time f. elim h [
            | inl zero_asked ↦ ground arith
            | inr passed ↦
                ground (arith, (latest-le graph_node.cooldown_seconds times now).1 passed last e)
          ],
        )
      ]
    ]

start_times-le :
    (graph : Graph) (graph_node : GraphNode) (nodes : List Node) (now : ℕ)
    → ((time : ℕ) → get_start_time graph graph_node nodes ≡ some time → time + 0 ≤ now) ↔ (
        AtMost 0 (resume_times graph_node.id nodes) now
        × ((time : ℕ) → get_cooldown_start_time graph graph_node nodes ≡ some time → time ≤ now))
unfolding get_start_time
start_times-le graph graph_node nodes now =
    let times = resume_times graph_node.id nodes in
    let cooldown = get_cooldown_start_time graph graph_node nodes in
    elim (Option-cases cooldown) [
      | inl nothing ↦ (
        λ h. ((latest-le 0 times now).0 (rw nothing at h), λ time e. cc),
        λ h. rw nothing ((latest-le 0 times now).1 h.0),
      )
      | inr (start, e) ↦ (
        λ h.
            let all =
              (AtMost-append times (start ∷ []) now).0
                ((latest-le 0 (times ++ start ∷ []) now).0 (rw e at h)) in
            (all.0, λ time f. ground (arith)),
        λ h. rw e (
            (latest-le 0 (times ++ start ∷ []) now).1
              ((AtMost-append times (start ∷ []) now).1 (h.0, (omega (arith, h.1 start e), tt)))),
      )
    ]

-- The start time of a node lies in the future exactly if it still waits: for its own resume time, or
-- for the cooldown after a dependency that has merged or was skipped, declared or inherited.
pub get_start_time_iff :
    (graph : Graph) (graph_node : GraphNode) (nodes : List Node) (now : ℕ)
    → ((time : ℕ) → get_start_time graph graph_node nodes ≡ some time → time ≤ now)
      ↔ IsElapsed graph graph_node nodes now
get_start_time_iff graph graph_node nodes now =
    let ids = cooldown_ids graph graph_node nodes in
    let seconds = graph_node.cooldown_seconds in
    (
      λ h.
          let parts =
            (start_times-le graph graph_node nodes now).0 (λ time e. omega (arith, h time e)) in
          record {
            resumed = (resume_times-le graph_node.id nodes now).0 parts.0;
            cooled = elim ((cooldown-le graph graph_node nodes now).0 parts.1) [
              | inl none_asked ↦ inl none_asked
              | inr passed ↦ inr ((ended_times-le ids nodes seconds now).0 passed)
            ];
          },
      λ r time e.
          let bound =
            (start_times-le graph graph_node nodes now).1
              (
                (resume_times-le graph_node.id nodes now).1 r.resumed,
                (cooldown-le graph graph_node nodes now).1 (elim r.cooled [
                  | inl none_asked ↦ inl none_asked
                  | inr passed ↦ inr ((ended_times-le ids nodes seconds now).1 passed)
                ]),
              )
              time e in
          omega arith,
    )
