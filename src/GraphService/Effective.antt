-- ===== src/GraphService/Effective.antt =====
-- `get_effective_dependencies` against the relation that it computes: a skipped dependency is
-- replaced by its own dependencies, at any depth.
use agentic_dag.Prelude.{
  ℕ, zero, suc, ◌+◌, ◌≤◌, ◌≡◌, ◌≢◌, refl, String, true, false, List, [], ◌∷◌, map, none, some,
  string_eq, mem, mem-cons, length, if◌then◌else◌, arith, ◌⊎◌, inl, inr, ◌↔◌, Bool-cases, subst,
}
use text.Mathlib.TextEquality.{eq_iff}
use agentic_dag.Domain.{GraphNode, Graph, Node}
use agentic_dag.GraphService.{
  node_ids, dependency_ids, resolve, pushes, resolve_fuel, effective_ids,
  get_effective_dependencies, push_all,
}
use agentic_dag.GraphService.Lookup.{
  dependency_ids-IsKnown, dependency_ids-unknown, mem-push_all, length-push_all,
  mem-graph_nodes_with_ids,
}

-- The dependencies that `id` declares, and those that it inherits through skipped ones.
pub data Inherits (graph : Graph) (skipped_ids : List String) (id : String) : String → Type 0 where
  direct : {d : String} → mem (dependency_ids graph id) d ≡ true → Inherits graph skipped_ids id d
  through :
      {d e : String}
      → Inherits graph skipped_ids id d
      → mem skipped_ids d ≡ true
      → mem (dependency_ids graph d) e ≡ true
      → Inherits graph skipped_ids id e

abbrev pub IsEffective : Graph → List String → String → String → Type 0
IsEffective graph skipped_ids id d = Inherits graph skipped_ids id d × (mem skipped_ids d ≡ false)

-- The ids that a node of `nodes` would push, had it not been resolved yet.
weight : Graph → List String → List GraphNode → ℕ
weight graph resolved [] = 0
weight graph resolved (node ∷ nodes) =
    (if mem resolved node.id then 0 else length (dependency_ids graph node.id))
    + weight graph resolved nodes

weight-nil : (graph : Graph) (nodes : List GraphNode) → weight graph [] nodes ≡ pushes graph nodes
unfolding weight pushes mem
weight-nil graph [] = refl
weight-nil graph (node ∷ nodes) = omega (arith, weight-nil graph nodes)

weight-cons-le :
    (graph : Graph) (id : String) (resolved : List String) (nodes : List GraphNode)
    → weight graph (id ∷ resolved) nodes ≤ weight graph resolved nodes
unfolding weight mem
weight-cons-le graph id resolved [] = omega arith
weight-cons-le graph id resolved (node ∷ nodes) =
    ground (arith, weight-cons-le graph id resolved nodes)

weight-cons :
    (graph : Graph) (id : String) (resolved : List String) (nodes : List GraphNode)
    → mem resolved id ≡ false
    → mem (node_ids nodes) id ≡ true
    → length (dependency_ids graph id) + weight graph (id ∷ resolved) nodes
      ≤ weight graph resolved nodes
unfolding weight mem
weight-cons graph id resolved [] h m = ground arith
weight-cons graph id resolved (node ∷ nodes) h m = ground (
  arith,
  weight-cons graph id resolved nodes h,
  weight-cons-le graph id resolved nodes,
  eq_iff node.id id,
  eq_iff id node.id,
)

module _ (graph : Graph) (skipped_ids : List String) where
  resolved-weight :
      (id : String) (resolved : List String)
      → mem resolved id ≡ false
      → length (dependency_ids graph id) + weight graph (id ∷ resolved) graph.nodes
        ≤ weight graph resolved graph.nodes
  resolved-weight id resolved h = elim (Bool-cases (mem (node_ids graph.nodes) id)) [
    | inl known ↦ weight-cons graph id resolved graph.nodes h known
    | inr unknown ↦
        rw (dependency_ids-unknown graph id unknown)
          (omega (arith, weight-cons-le graph id resolved graph.nodes))
  ]

  resolve_ends :
      (fuel : ℕ) (frontier resolved effective : List String)
      → length frontier + weight graph resolved graph.nodes ≤ fuel
      → (ids : List String) × (resolve graph skipped_ids fuel frontier resolved effective
          ≡ some ids)
  unfolding resolve
  resolve_ends zero [] resolved effective h = (effective, refl)
  resolve_ends zero (_ ∷ _) resolved effective h = absurd (omega arith)
  resolve_ends (suc fuel) [] resolved effective h = (effective, refl)
  resolve_ends (suc fuel) (id ∷ frontier) resolved effective h =
      elim (Bool-cases (mem resolved id)) [
        | inl known ↦ rw known (resolve_ends fuel frontier resolved effective (omega arith))
        | inr new ↦ elim (Bool-cases (mem skipped_ids id)) [
          | inl skipped ↦
              rw (new, skipped)
                (resolve_ends fuel (push_all (dependency_ids graph id) frontier) (id ∷ resolved)
                  effective
                  (omega (
                    arith,
                    resolved-weight id resolved new,
                    length-push_all (dependency_ids graph id) frontier,
                  )))
          | inr kept ↦
              rw (new, kept)
                (resolve_ends fuel frontier (id ∷ resolved) (id ∷ effective)
                  (omega (arith, resolved-weight id resolved new)))
        ]
      ]

  module _ (id : String) where
    record Inv (frontier resolved effective : List String) : Type 0 where
      waiting : (d : String) → mem frontier d ≡ true → Inherits graph skipped_ids id d
      sound : (d : String) → mem effective d ≡ true → IsEffective graph skipped_ids id d
      kept :
          (d : String) → mem resolved d ≡ true → mem skipped_ids d ≡ false → mem effective d ≡ true
      source :
          (d : String)
          → mem (dependency_ids graph id) d ≡ true
          → (mem frontier d ≡ true) ⊎ (mem resolved d ≡ true)
      closed :
          (d e : String)
          → mem resolved d ≡ true
          → mem skipped_ids d ≡ true
          → mem (dependency_ids graph d) e ≡ true
          → (mem frontier e ≡ true) ⊎ (mem resolved e ≡ true)

    Inv-start : Inv (push_all (dependency_ids graph id) []) [] []
    unfolding mem
    Inv-start = record {
      waiting = λ d m. direct (ground (arith, mem-push_all (dependency_ids graph id) [] d));
      sound = λ d m. cc;
      kept = λ d m n. cc;
      source = λ d m. inl ((mem-push_all (dependency_ids graph id) [] d).1 (inl m));
      closed = λ d e m. cc;
    }

    module _ (d : String) (frontier resolved effective : List String)
        (inv : Inv (d ∷ frontier) resolved effective) where
      open inv use {waiting, sound, kept, source, closed}

      Inv-known : mem resolved d ≡ true → Inv frontier resolved effective
      Inv-known known = record {
        waiting = λ e m. waiting e ((mem-cons e d frontier).1 (inr m));
        sound = sound;
        kept = kept;
        source = λ e m. ground (arith, source e m, mem-cons e d frontier);
        closed = λ e f m s n. ground (arith, closed e f m s n, mem-cons f d frontier);
      }

      Inv-kept : mem skipped_ids d ≡ false → Inv frontier (d ∷ resolved) (d ∷ effective)
      Inv-kept unskipped = record {
        waiting = λ e m. waiting e ((mem-cons e d frontier).1 (inr m));
        sound = λ e m. elim ((mem-cons e d effective).0 m) [
          | inl same ↦ rw (← same) (waiting d ((mem-cons d d frontier).1 (inl refl)), unskipped)
          | inr old ↦ sound e old
        ];
        kept = λ e m s. ground (arith, kept e, mem-cons e d effective, mem-cons e d resolved);
        source = λ e m. ground (arith, source e m, mem-cons e d frontier, mem-cons e d resolved);
        closed = λ e f m s n. ground (
          arith,
          closed e f,
          mem-cons f d frontier,
          mem-cons e d resolved,
          mem-cons f d resolved,
        );
      }

      Inv-replaced :
          mem skipped_ids d ≡ true
          → Inv (push_all (dependency_ids graph d) frontier) (d ∷ resolved) effective
      Inv-replaced skipped = record {
        waiting = λ e m. elim ((mem-push_all (dependency_ids graph d) frontier e).0 m) [
          | inl new ↦ through (waiting d ((mem-cons d d frontier).1 (inl refl))) skipped new
          | inr old ↦ waiting e ((mem-cons e d frontier).1 (inr old))
        ];
        sound = sound;
        kept = λ e m s. ground (arith, kept e, mem-cons e d resolved);
        source = λ e m. ground (
          arith,
          source e m,
          mem-cons e d frontier,
          mem-cons e d resolved,
          mem-push_all (dependency_ids graph d) frontier e,
        );
        closed = λ e f m s n. ground (
          arith,
          closed e f,
          mem-cons f d frontier,
          mem-cons e d resolved,
          mem-cons f d resolved,
          mem-push_all (dependency_ids graph d) frontier f,
        );
      }

    resolve-Inv :
        (fuel : ℕ) (frontier resolved effective ids : List String)
        → Inv frontier resolved effective
        → resolve graph skipped_ids fuel frontier resolved effective ≡ some ids
        → (final : List String) × Inv [] final ids
    unfolding resolve
    resolve-Inv zero [] resolved effective ids inv h =
        (resolved, subst (Inv [] resolved) (ground arith) inv)
    resolve-Inv zero (_ ∷ _) resolved effective ids inv h = cc
    resolve-Inv (suc fuel) [] resolved effective ids inv h =
        (resolved, subst (Inv [] resolved) (ground arith) inv)
    resolve-Inv (suc fuel) (d ∷ frontier) resolved effective ids inv h =
        elim (Bool-cases (mem resolved d)) [
          | inl known ↦
              resolve-Inv fuel frontier resolved effective ids
                (Inv-known d frontier resolved effective inv known) (rw known at h)
          | inr new ↦ elim (Bool-cases (mem skipped_ids d)) [
            | inl skipped ↦
                resolve-Inv fuel (push_all (dependency_ids graph d) frontier) (d ∷ resolved)
                  effective ids (Inv-replaced d frontier resolved effective inv skipped)
                  (rw (new, skipped) at h)
            | inr unskipped ↦
                resolve-Inv fuel frontier (d ∷ resolved) (d ∷ effective) ids
                  (Inv-kept d frontier resolved effective inv unskipped) (rw (new, unskipped) at h)
          ]
        ]

    Inherits-resolved :
        (final ids : List String) {d : String}
        → Inv [] final ids
        → Inherits graph skipped_ids id d
        → mem final d ≡ true
    unfolding mem
    Inherits-resolved final ids inv (direct {d} m) = ground (arith, inv.source d m)
    Inherits-resolved final ids inv (through {d} {e} i s m) =
        ground (arith, inv.closed d e (Inherits-resolved final ids inv i) s m)

    pub effective_ids-total :
        (ids : List String) × (effective_ids graph id skipped_ids ≡ some ids)
        × ((d : String) → (mem ids d ≡ true) ↔ IsEffective graph skipped_ids id d)
    unfolding effective_ids
    effective_ids-total =
        let start = push_all (dependency_ids graph id) [] in
        let (ids, ends) = resolve_ends (resolve_fuel graph id) start [] [] (
          omega
            (arith, length-push_all (dependency_ids graph id) [], weight-nil graph graph.nodes)) in
        let (final, inv) = resolve-Inv (resolve_fuel graph id) start [] [] ids Inv-start ends in
        (ids, ends, λ d. (inv.sound d, λ e. inv.kept d (Inherits-resolved final ids inv e.0) e.1))

    Inherits-IsKnown :
        {d : String} → Inherits graph skipped_ids id d → mem (node_ids graph.nodes) d ≡ true
    Inherits-IsKnown (direct {d} m) = dependency_ids-IsKnown graph id d m
    Inherits-IsKnown (through {d} {e} i s m) = dependency_ids-IsKnown graph d e m

-- The search for the effective dependencies of a node ends within its fuel, on every graph.
pub effective_ids_ends :
    (graph : Graph) (id : String) (skipped_ids : List String)
    → effective_ids graph id skipped_ids ≢ none
effective_ids_ends graph id skipped_ids h =
    let (ids, ends, _) = effective_ids-total graph skipped_ids id in cc

-- A node is an effective dependency exactly if it is declared, or inherited through a chain of
-- skipped dependencies, and is not skipped itself.
pub get_effective_dependencies_iff :
    (graph : Graph) (id : String) (skipped_nodes : List Node) (d : String)
    → (mem (node_ids (get_effective_dependencies graph id skipped_nodes)) d ≡ true)
      ↔ IsEffective graph (map (λ node. node.id) skipped_nodes) id d
unfolding get_effective_dependencies
get_effective_dependencies_iff graph id skipped_nodes d =
    let skipped_ids = map (λ (node : Node). node.id) skipped_nodes in
    let (ids, ends, iff) = effective_ids-total graph skipped_ids id in
    rw (ends, mem-graph_nodes_with_ids graph ids d)
      (
        λ m. (iff d).0 (ground arith),
        λ e. ground (arith, (iff d).1 e, Inherits-IsKnown graph skipped_ids id e.0),
      )
