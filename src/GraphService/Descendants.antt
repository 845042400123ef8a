-- ===== src/GraphService/Descendants.antt =====
-- `get_descendants` against the relation that it computes: depending on a node, directly or through
-- another.
use agentic_dag.Prelude.{
  ℕ, zero, suc, ◌+◌, ◌≤◌, ◌≡◌, ◌≢◌, refl, String, Bool, true, false, ◌&&◌, ◌||◌, List, [], ◌∷◌,
  none, some, ◌==◌, string_eq, mem, mem-cons, length, if◌then◌else◌, arith, ◌⊎◌, inl, inr, ◌↔◌,
  Bool-cases, subst,
}
use text.Mathlib.TextEquality.{eq_iff}
use agentic_dag.Domain.{GraphNode, Graph}
use agentic_dag.GraphService.{node_ids, scan, descend, descendant_ids, get_descendants}
use agentic_dag.GraphService.Lookup.{mem-graph_nodes_with_ids}

-- Some node of the list has the id `d` and names `dependency` in its `depends_on`.
unfoldable pub declares : List GraphNode → String → String → Bool
unfolding mem
declares [] d dependency = false
declares (node ∷ nodes) d dependency =
    (node.id == d && mem node.depends_on dependency) || declares nodes d dependency

pub data Descends (graph : Graph) (id : String) : String → Type 0 where
  child : {d : String} → declares graph.nodes d id ≡ true → Descends graph id d
  deeper :
      {d e : String} → Descends graph id d → declares graph.nodes e d ≡ true → Descends graph id e

-- The nodes that `scan` can still add.
unfound : List String → List GraphNode → ℕ
unfound found [] = 0
unfound found (node ∷ nodes) = (if mem found node.id then 0 else 1) + unfound found nodes

unfound-le : (found : List String) (nodes : List GraphNode) → unfound found nodes ≤ length nodes
unfolding unfound
unfound-le found [] = omega arith
unfound-le found (node ∷ nodes) = ground (arith, unfound-le found nodes)

unfound-cons-le :
    (id : String) (found : List String) (nodes : List GraphNode)
    → unfound (id ∷ found) nodes ≤ unfound found nodes
unfolding unfound mem
unfound-cons-le id found [] = omega arith
unfound-cons-le id found (node ∷ nodes) = ground (arith, unfound-cons-le id found nodes)

unfound-cons :
    (id : String) (found : List String) (nodes : List GraphNode)
    → mem found id ≡ false
    → mem (node_ids nodes) id ≡ true
    → suc (unfound (id ∷ found) nodes) ≤ unfound found nodes
unfolding unfound mem
unfound-cons id found [] h m = ground arith
unfound-cons id found (node ∷ nodes) h m = ground (
  arith,
  unfound-cons id found nodes h,
  unfound-cons-le id found nodes,
  eq_iff node.id id,
  eq_iff id node.id,
)

declares-IsKnown :
    (nodes : List GraphNode) (d dependency : String)
    → declares nodes d dependency ≡ true
    → mem (node_ids nodes) d ≡ true
unfolding declares mem
declares-IsKnown [] d dependency h = cc
declares-IsKnown (node ∷ nodes) d dependency h = ground (arith, declares-IsKnown nodes d dependency)

scan-found :
    (current : String) (nodes : List GraphNode) (found frontier : List String) (d : String)
    → (mem (scan current nodes found frontier).0 d ≡ true)
      ↔ ((mem found d ≡ true) ⊎ (declares nodes d current ≡ true))
unfolding scan declares mem
scan-found current [] found frontier d = ground arith
scan-found current (node ∷ nodes) found frontier d = ground (
  arith,
  scan-found current nodes found frontier d,
  scan-found current nodes (node.id ∷ found) (node.id ∷ frontier) d,
  eq_iff node.id d,
)

-- `scan` puts on the stack exactly what it adds to the set.
scan-frontier :
    (current : String) (nodes : List GraphNode) (found frontier : List String) (d : String)
    → (mem (scan current nodes found frontier).1 d ≡ true) ↔ (
        (mem frontier d ≡ true)
        ⊎ (mem (scan current nodes found frontier).0 d ≡ true) × (mem found d ≡ false))
unfolding scan declares mem
scan-frontier current [] found frontier d = ground arith
scan-frontier current (node ∷ nodes) found frontier d = ground (
  arith,
  scan-frontier current nodes found frontier d,
  scan-frontier current nodes (node.id ∷ found) (node.id ∷ frontier) d,
  scan-found current nodes (node.id ∷ found) (node.id ∷ frontier) d,
  eq_iff node.id d,
)

module _ (graph : Graph) where
  scan-work :
      (current : String) (nodes : List GraphNode) (found frontier : List String)
      → ((d : String) → mem (node_ids nodes) d ≡ true → mem (node_ids graph.nodes) d ≡ true)
      → length (scan current nodes found frontier).1
          + unfound (scan current nodes found frontier).0 graph.nodes
        ≤ length frontier + unfound found graph.nodes
  unfolding scan
  scan-work current [] found frontier known = omega arith
  scan-work current (node ∷ nodes) found frontier known =
      let rest = λ (d : String) (m : mem (node_ids nodes) d ≡ true).
        known d ((mem-cons d node.id (node_ids nodes)).1 (inr m)) in
      let here = known node.id ((mem-cons node.id node.id (node_ids nodes)).1 (inl refl)) in
      ground (
        arith,
        scan-work current nodes found frontier rest,
        scan-work current nodes (node.id ∷ found) (node.id ∷ frontier) rest,
        unfound-cons node.id found graph.nodes,
        here,
      )

  descend_ends :
      (fuel : ℕ) (found frontier : List String)
      → length frontier + unfound found graph.nodes ≤ fuel
      → (ids : List String) × (descend graph fuel found frontier ≡ some ids)
  unfolding descend
  descend_ends zero found [] h = (found, refl)
  descend_ends zero found (_ ∷ _) h = absurd (omega arith)
  descend_ends (suc fuel) found [] h = (found, refl)
  descend_ends (suc fuel) found (current ∷ frontier) h =
      descend_ends fuel (scan current graph.nodes found frontier).0
        (scan current graph.nodes found frontier).1
        (omega (arith, scan-work current graph.nodes found frontier (λ d m. m)))

  module _ (id : String) where
    record Inv (found frontier : List String) : Type 0 where
      sound : (d : String) → mem found d ≡ true → Descends graph id d
      waiting : (d : String) → mem frontier d ≡ true → (d ≡ id) ⊎ Descends graph id d
      closed :
          (d e : String)
          → (d ≡ id) ⊎ (mem found d ≡ true)
          → declares graph.nodes e d ≡ true
          → (mem frontier d ≡ true) ⊎ (mem found e ≡ true)

    Inv-start : Inv [] (id ∷ [])
    unfolding mem
    Inv-start = record {
      sound = λ d m. cc;
      waiting = λ d m. inl (ground (arith, eq_iff id d));
      closed = λ d e a h. ground (arith, eq_iff id d);
    }

    Descends-declares :
        (d e : String)
        → (d ≡ id) ⊎ Descends graph id d
        → declares graph.nodes e d ≡ true
        → Descends graph id e
    Descends-declares d e (inl same) h = child (rw (← same) h)
    Descends-declares d e (inr below) h = deeper below h

    Inv-scan :
        (current : String) (found frontier : List String)
        → Inv found (current ∷ frontier)
        → Inv
            (scan current graph.nodes found frontier).0
            (scan current graph.nodes found frontier).1
    Inv-scan current found frontier inv =
        let here = inv.waiting current ((mem-cons current current frontier).1 (inl refl)) in
        record {
          sound = λ d m. elim ((scan-found current graph.nodes found frontier d).0 m) [
            | inl old ↦ inv.sound d old
            | inr new ↦ Descends-declares current d here new
          ];
          waiting = λ d m. elim ((scan-frontier current graph.nodes found frontier d).0 m) [
            | inl old ↦ inv.waiting d ((mem-cons d current frontier).1 (inr old))
            | inr new ↦ elim ((scan-found current graph.nodes found frontier d).0 new.0) [
              | inl old ↦ inr (inv.sound d old)
              | inr declared ↦ inr (Descends-declares current d here declared)
            ]
          ];
          closed = λ d e a h. ground (
            arith,
            inv.closed d e,
            scan-found current graph.nodes found frontier d,
            scan-found current graph.nodes found frontier e,
            scan-frontier current graph.nodes found frontier d,
            mem-cons d current frontier,
            Bool-cases (mem found d),
          );
        }

    descend-Inv :
        (fuel : ℕ) (found frontier ids : List String)
        → Inv found frontier
        → descend graph fuel found frontier ≡ some ids
        → Inv ids []
    unfolding descend
    descend-Inv zero found [] ids inv h = subst (λ l. Inv l []) (ground arith) inv
    descend-Inv zero found (_ ∷ _) ids inv h = cc
    descend-Inv (suc fuel) found [] ids inv h = subst (λ l. Inv l []) (ground arith) inv
    descend-Inv (suc fuel) found (current ∷ frontier) ids inv h =
        descend-Inv fuel (scan current graph.nodes found frontier).0
          (scan current graph.nodes found frontier).1 ids (Inv-scan current found frontier inv) h

    Descends-found :
        (ids : List String) {d : String} → Inv ids [] → Descends graph id d → mem ids d ≡ true
    unfolding mem
    Descends-found ids inv (child {d} h) = ground (arith, inv.closed id d (inl refl) h)
    Descends-found ids inv (deeper {d} {e} below h) =
        ground (arith, inv.closed d e (inr (Descends-found ids inv below)) h)

    pub descendant_ids-total :
        (ids : List String) × (descendant_ids graph id ≡ some ids)
        × ((d : String) → (mem ids d ≡ true) ↔ Descends graph id d)
    unfolding descendant_ids
    descendant_ids-total =
        let (ids, ends) =
          descend_ends (suc (length graph.nodes)) [] (id ∷ [])
            (omega (arith, unfound-le [] graph.nodes)) in
        let inv = descend-Inv (suc (length graph.nodes)) [] (id ∷ []) ids Inv-start ends in
        (ids, ends, λ d. (inv.sound d, Descends-found ids inv))

    Descends-IsKnown : {d : String} → Descends graph id d → mem (node_ids graph.nodes) d ≡ true
    Descends-IsKnown (child {d} h) = declares-IsKnown graph.nodes d id h
    Descends-IsKnown (deeper {d} {e} below h) = declares-IsKnown graph.nodes e d h

-- The search for the descendants of a node ends within its fuel, on every graph.
pub descendant_ids_ends : (graph : Graph) (id : String) → descendant_ids graph id ≢ none
descendant_ids_ends graph id h = let (ids, ends, _) = descendant_ids-total graph id in cc

-- The descendants of a node are exactly the nodes that depend on it, directly or through another.
pub get_descendants_iff :
    (graph : Graph) (id d : String)
    → (mem (node_ids (get_descendants graph id)) d ≡ true) ↔ Descends graph id d
unfolding get_descendants
get_descendants_iff graph id d =
    let (ids, ends, iff) = descendant_ids-total graph id in
    rw (ends, mem-graph_nodes_with_ids graph ids d)
      (λ m. (iff d).0 (ground arith), λ e. ground (arith, (iff d).1 e, Descends-IsKnown graph id e))
