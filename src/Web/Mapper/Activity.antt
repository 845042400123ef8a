-- ===== src/Web/Mapper/Activity.antt =====
-- The time of the last activity that a listing of api/web/mappers/dag_mapper.py shows.
use agentic_dag.Prelude.{
  ℕ, ◌≡◌, refl, Bool, true, false, List, [], ◌∷◌, Option, none, some, ◌≤◌, ◌==◌, nat_eq, ltb,
  if◌then◌else◌, arith, any, All, sym, subst, ap, inl, inr, Bool-cases,
}
use agentic_dag.Domain.{DagSpec, Node, ScheduledJob}
use agentic_dag.Web.Responses.{NodePreviewResponse}
use agentic_dag.Web.Mapper.{find_last_activity, newest_of, to_response, to_node_responses}

abbrev IsBefore : ℕ → Option ℕ → Type 0
IsBefore newest none = Unit
IsBefore newest (some time) = time ≤ newest

abbrev is_written_at : ℕ → Option ℕ → Bool
is_written_at newest none = false
is_written_at newest (some time) = time == newest

-- The newest of the moments of some previews, which one of them has: `none` where none has any.
abbrev pub IsNewest : Option ℕ → List NodePreviewResponse → Type 0
IsNewest none nodes = All (λ (node : NodePreviewResponse). node.updated_at ≡ none) nodes
IsNewest (some newest) nodes =
    All (λ (node : NodePreviewResponse). IsBefore newest node.updated_at) nodes
    × (any (λ (node : NodePreviewResponse). is_written_at newest node.updated_at) nodes ≡ true)

IsBefore-mono : (a b : ℕ) (time : Option ℕ) → a ≤ b → IsBefore a time → IsBefore b time
IsBefore-mono a b none le before = tt
IsBefore-mono a b (some time) le before = omega arith

All-IsBefore-mono :
    (a b : ℕ) (nodes : List NodePreviewResponse)
    → a ≤ b
    → All (λ (node : NodePreviewResponse). IsBefore a node.updated_at) nodes
    → All (λ (node : NodePreviewResponse). IsBefore b node.updated_at) nodes
All-IsBefore-mono a b [] le before = tt
All-IsBefore-mono a b (node ∷ nodes) le before =
    (IsBefore-mono a b node.updated_at le before.0, All-IsBefore-mono a b nodes le before.1)

All-IsBefore-none :
    (a : ℕ) (nodes : List NodePreviewResponse)
    → All (λ (node : NodePreviewResponse). node.updated_at ≡ none) nodes
    → All (λ (node : NodePreviewResponse). IsBefore a node.updated_at) nodes
All-IsBefore-none a [] silent = tt
All-IsBefore-none a (node ∷ nodes) silent =
    (subst (IsBefore a) (sym silent.0) tt, All-IsBefore-none a nodes silent.1)

-- One more preview, by its moment.
IsNewest-newest_of :
    (time newest : Option ℕ) (node : NodePreviewResponse) (nodes : List NodePreviewResponse)
    → node.updated_at ≡ time
    → IsNewest newest nodes
    → IsNewest (newest_of time newest) (node ∷ nodes)
unfolding newest_of any
IsNewest-newest_of none none node nodes written silent = (written, silent)
IsNewest-newest_of none (some newest) node nodes written (before, reached) =
    ((subst (IsBefore newest) (sym written) tt, before), rw (written, reached) refl)
IsNewest-newest_of (some time) none node nodes written silent = (
  (subst (IsBefore time) (sym written) (omega arith), All-IsBefore-none time nodes silent),
  rw written (ground arith),
)
IsNewest-newest_of (some time) (some later) node nodes written (before, reached) =
    elim (Bool-cases (ltb time later)) [
      | inl lt ↦
          let chosen = ap (λ b. some (if b then later else time)) lt in
          subst (λ newest. IsNewest newest (node ∷ nodes)) (sym chosen)
            (rw written (((ground arith, before), rw reached (ground arith))))
      | inr ge ↦
          let chosen = ap (λ b. some (if b then later else time)) ge in
          subst (λ newest. IsNewest newest (node ∷ nodes)) (sym chosen)
            (rw written (
              (
                (ground arith, All-IsBefore-mono later time nodes (ground arith) before),
                ground arith,
              )))
    ]

IsNewest-find_last_activity :
    (nodes : List NodePreviewResponse) → IsNewest (find_last_activity nodes) nodes
unfolding find_last_activity
IsNewest-find_last_activity [] = tt
IsNewest-find_last_activity (node ∷ nodes) =
    IsNewest-newest_of node.updated_at (find_last_activity nodes) node nodes refl
      (IsNewest-find_last_activity nodes)

-- The last activity of a dag's response is none where no node that it lists has a time, and else the
-- time of one of those nodes, and no time of another is after it.
pub last_activity-IsNewest :
    (dag_spec : DagSpec) (rows : List Node) (scheduled_job : Option ScheduledJob)
    (has_watcher : Bool)
    → let response = to_response dag_spec rows scheduled_job has_watcher in
      IsNewest response.last_activity_at response.nodes
unfolding to_response
last_activity-IsNewest dag_spec rows scheduled_job has_watcher =
    IsNewest-find_last_activity (to_node_responses dag_spec rows)
