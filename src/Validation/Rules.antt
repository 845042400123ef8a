-- ===== src/Validation/Rules.antt =====
-- What a graph that passes every rule is like.
use agentic_dag.Prelude.{
  ◌≡◌, refl, String, Bool, true, false, not, ◌&&◌, ◌||◌, List, [], ◌∷◌, ◌++◌, map, ◌==◌, string_eq,
  keep, mem, mem-cons, arith, ◌⊎◌, ◌↔◌, All,
}
use mathlib.Core.List.{flat_map}
use text.Mathlib.TextEquality.{eq_iff}
use agentic_dag.Domain.{GraphNode, Graph, is_some}
use agentic_dag.GraphService.{node_ids}
use agentic_dag.Validation.{
  ValidationError, validate_cycles, duplicated_ids, validate_duplicates, validate_dependencies,
  validate_executors, has_url_scheme, validate_pull_requests, validate_project_root, validate_graph,
  is_blocking,
}
use agentic_dag.Validation.Cycles.{Ranking, validate_cycles_iff}

abbrev pub AreDistinct : List GraphNode → Type 0
AreDistinct [] = Unit
AreDistinct (node ∷ nodes) = (mem (node_ids nodes) node.id ≡ false) × AreDistinct nodes

-- What the rules ask of a graph, said of the graph alone.
pub record IsRunnable (graph : Graph) : Type 0 where
  pub ranking : Ranking graph
  pub distinct : AreDistinct graph.nodes
  pub known :
      All (λ node. All (λ d. mem (node_ids graph.nodes) d ≡ true) node.depends_on) graph.nodes
  pub executors : All (λ node. is_some node.executor_agent ≡ true) graph.nodes
  pub urls : All (λ node. (node.pr ≡ "") ⊎ (has_url_scheme node.pr ≡ true)) graph.nodes
  pub root : is_some graph.project_root ≡ true

is_blocking-append :
    (xs ys : List ValidationError) → is_blocking (xs ++ ys) ≡ (is_blocking xs || is_blocking ys)
unfolding is_blocking
is_blocking-append [] ys = refl
is_blocking-append (x ∷ xs) ys = ground (arith, is_blocking-append xs ys)

is_blocking-map {ℓ} :
    {A : Type ℓ} (f : A → ValidationError) (xs : List A)
    → ((x : A) → (f x).is_fatal ≡ true)
    → (is_blocking (map f xs) ≡ false) ↔ (xs ≡ [])
unfolding is_blocking
is_blocking-map f [] h = ground arith
is_blocking-map f (x ∷ xs) h = ground (arith, h x)

cycles_pass :
    (graph : Graph) → (is_blocking (validate_cycles graph) ≡ false) ↔ (validate_cycles graph ≡ [])
unfolding validate_cycles is_blocking
cycles_pass graph = ground arith

distinct_of_nil :
    (seen : List String) (nodes : List GraphNode)
    → ((id : String) → mem seen id ≡ true → mem (node_ids nodes) id ≡ false)
    → duplicated_ids seen nodes ≡ []
    → AreDistinct nodes
unfolding duplicated_ids
distinct_of_nil seen [] apart h = tt
distinct_of_nil seen (node ∷ nodes) apart h =
    let unseen : mem (node_ids nodes) node.id ≡ false =
      ground (arith, apart node.id, mem-cons node.id node.id (node_ids nodes)) in
    (
      unseen,
      distinct_of_nil (node.id ∷ seen) nodes
          (λ id m. ground (
            arith,
            apart id,
            unseen,
            mem-cons id node.id seen,
            mem-cons id node.id (node_ids nodes),
          ))
          (ground arith),
    )

nil_of_distinct :
    (seen : List String) (nodes : List GraphNode)
    → AreDistinct nodes
    → duplicated_ids seen nodes ≡ []
unfolding duplicated_ids
nil_of_distinct seen [] h = refl
nil_of_distinct seen (node ∷ nodes) h = rw h.0 (nil_of_distinct (node.id ∷ seen) nodes h.1)

duplicates_pass :
    (graph : Graph) → (is_blocking (validate_duplicates graph) ≡ false) ↔ AreDistinct graph.nodes
unfolding validate_duplicates mem
duplicates_pass graph = (
  λ h.
      distinct_of_nil [] graph.nodes (λ id m. cc)
        ((is_blocking-map _ (duplicated_ids [] graph.nodes) (λ id. refl)).0 h),
  λ d.
      (is_blocking-map _ (duplicated_ids [] graph.nodes) (λ id. refl)).1
        (nil_of_distinct [] graph.nodes d),
)

keep-nil {ℓ} :
    {A : Type ℓ} (bad : A → Bool) (xs : List A) → (keep bad xs ≡ []) ↔ All (λ x. bad x ≡ false) xs
unfolding keep
keep-nil bad [] = ground arith
keep-nil bad (x ∷ xs) = ground (arith, keep-nil bad xs)

All-map {ℓ} :
    {A : Type ℓ} (P Q : A → Type 0) (xs : List A) → ((x : A) → P x → Q x) → All P xs → All Q xs
All-map P Q [] f h = tt
All-map P Q (x ∷ xs) f h = (f x h.0, All-map P Q xs f h.1)

flat_map_pass {ℓ} :
    {A : Type ℓ} (f : A → List ValidationError) (xs : List A)
    → (is_blocking (flat_map f xs) ≡ false) ↔ All (λ x. is_blocking (f x) ≡ false) xs
unfolding is_blocking flat_map
flat_map_pass f [] = ground arith
flat_map_pass f (x ∷ xs) =
    ground (arith, flat_map_pass f xs, is_blocking-append (f x) (flat_map f xs))

not_true→false : (b : Bool) → not b ≡ false → b ≡ true
not_true→false b h = ground arith

dependencies_pass :
    (graph : Graph)
    → (is_blocking (validate_dependencies graph) ≡ false)
      ↔ All (λ node. All (λ d. mem (node_ids graph.nodes) d ≡ true) node.depends_on) graph.nodes
unfolding validate_dependencies
dependencies_pass graph =
    let bad = λ (d : String). not (mem (node_ids graph.nodes) d) in
    (
      λ h.
          All-map _ _ graph.nodes
            (λ node e.
              All-map _ _ node.depends_on (λ d. not_true→false (mem (node_ids graph.nodes) d))
                ((keep-nil bad node.depends_on).0
                  ((is_blocking-map _ (keep bad node.depends_on) (λ d. refl)).0 e)))
            ((flat_map_pass _ graph.nodes).0 h),
      λ h. (flat_map_pass _ graph.nodes).1 (
          All-map _ _ graph.nodes
            (λ node e.
              (is_blocking-map _ (keep bad node.depends_on) (λ d. refl)).1
                ((keep-nil bad node.depends_on).1 (All-map _ _ node.depends_on (λ d m. rw m) e)))
            h),
    )

executors_pass :
    (graph : Graph)
    → (is_blocking (validate_executors graph) ≡ false)
      ↔ All (λ node. is_some node.executor_agent ≡ true) graph.nodes
unfolding validate_executors
executors_pass graph =
    let bad = λ (node : GraphNode). not (is_some node.executor_agent) in
    (
      λ h.
          All-map _ _ graph.nodes (λ node. not_true→false (is_some node.executor_agent))
            ((keep-nil bad graph.nodes).0
              ((is_blocking-map _ (keep bad graph.nodes) (λ node. refl)).0 h)),
      λ h.
          (is_blocking-map _ (keep bad graph.nodes) (λ node. refl)).1
            ((keep-nil bad graph.nodes).1 (All-map _ _ graph.nodes (λ node m. rw m) h)),
    )

url_pass :
    (pr : String)
    → ((not (pr == "") && not (has_url_scheme pr)) ≡ false)
      ↔ ((pr ≡ "") ⊎ (has_url_scheme pr ≡ true))
url_pass pr = ground (arith, eq_iff pr "")

pull_requests_pass :
    (graph : Graph)
    → (is_blocking (validate_pull_requests graph) ≡ false)
      ↔ All (λ node. (node.pr ≡ "") ⊎ (has_url_scheme node.pr ≡ true)) graph.nodes
unfolding validate_pull_requests
pull_requests_pass graph =
    let bad = λ (node : GraphNode). not (node.pr == "") && not (has_url_scheme node.pr) in
    (
      λ h.
          All-map _ _ graph.nodes (λ node. (url_pass node.pr).0)
            ((keep-nil bad graph.nodes).0
              ((is_blocking-map _ (keep bad graph.nodes) (λ node. refl)).0 h)),
      λ h.
          (is_blocking-map _ (keep bad graph.nodes) (λ node. refl)).1 (
            (keep-nil bad graph.nodes).1
              (All-map _ _ graph.nodes (λ node. (url_pass node.pr).1) h)),
    )

root_passes :
    (graph : Graph)
    → (is_blocking (validate_project_root graph) ≡ false) ↔ (is_some graph.project_root ≡ true)
unfolding validate_project_root is_blocking
root_passes graph = ground arith

is_blocking-validate_graph :
    (graph : Graph)
    → is_blocking (validate_graph graph) ≡ (
        is_blocking (validate_cycles graph)
        || (is_blocking (validate_duplicates graph)
            || (is_blocking (validate_dependencies graph)
                || (is_blocking (validate_executors graph)
                    || (is_blocking (validate_pull_requests graph)
                        || is_blocking (validate_project_root graph))))))
unfolding validate_graph
is_blocking-validate_graph graph = simp is_blocking-append

either : (a b : Bool) → ((a || b) ≡ false) ↔ ((a ≡ false) × (b ≡ false))
either a b = ground arith

-- A graph is let through exactly if it is runnable: its ids can be ranked with every one above its
-- dependencies, they are distinct, the
-- dependencies are nodes of the graph, each node has an executor, each pull request that a node takes
-- over is an http url, and the project root is set.
pub validate_graph_iff :
    (graph : Graph) → (is_blocking (validate_graph graph) ≡ false) ↔ IsRunnable graph
validate_graph_iff graph = (
  λ h.
      let parts = rw (is_blocking-validate_graph graph) at h in
      let (cycles, rest) = (either _ _).0 parts in
      let (duplicates, after_duplicates) = (either _ _).0 rest in
      let (dependencies, after_dependencies) = (either _ _).0 after_duplicates in
      let (executors, last) = (either _ _).0 after_dependencies in
      let (urls, root) = (either _ _).0 last in
      record {
        ranking = (validate_cycles_iff graph).0 ((cycles_pass graph).0 cycles);
        distinct = (duplicates_pass graph).0 duplicates;
        known = (dependencies_pass graph).0 dependencies;
        executors = (executors_pass graph).0 executors;
        urls = (pull_requests_pass graph).0 urls;
        root = (root_passes graph).0 root;
      },
  λ r. rw (
    is_blocking-validate_graph graph,
    (cycles_pass graph).1 ((validate_cycles_iff graph).1 r.ranking),
    (duplicates_pass graph).1 r.distinct,
    (dependencies_pass graph).1 r.known,
    (executors_pass graph).1 r.executors,
    (pull_requests_pass graph).1 r.urls,
    (root_passes graph).1 r.root,
  ),
)
