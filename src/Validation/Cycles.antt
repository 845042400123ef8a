-- ===== src/Validation/Cycles.antt =====
-- The cycle rule against the order that it looks for.
use agentic_dag.Prelude.{
  ℕ, zero, suc, ◌<◌, ◌≡◌, refl, String, true, false, not, ◌&&◌, List, [], ◌∷◌, none, some,
  string_eq, keep, mem, length, if◌then◌else◌, arith, ◌⊎◌, inl, inr, ◌↔◌, Option-cases, Bool-cases,
  mem-cons_self, subst, ap,
}
use text.Mathlib.TextEquality.{eq_iff}
use agentic_dag.Domain.{GraphNode, Graph}
use agentic_dag.GraphService.{node_ids, find_node, get_dependencies, dependency_ids}
use agentic_dag.GraphService.Lookup.{mem-known_nodes, find_node-none, dependency_ids-IsKnown}
use agentic_dag.Validation.{
  Remaining, keys, remaining, startable, strip, peel, find_cycle_members, validate_cycles,
}
use agentic_dag.Validation.Peeling.{
  deps_of, AreUnique, deps_of-none, mem-startable-keys, mem-startable, mem-keep-not,
  deps_of-strip-mem, deps_of-strip, mem-keys-strip, strip-AreUnique, length-strip-lt,
  mem-keys-remaining, remaining-AreUnique,
}

List-cases {ℓ} :
    {A : Type ℓ} (xs : List A) → (xs ≡ []) ⊎ ((x : A) × (rest : List A) × (xs ≡ x ∷ rest))
List-cases [] = inl refl
List-cases (x ∷ xs) = inr (x, xs, refl)

peel_ends :
    (fuel : ℕ) (entries : Remaining)
    → length entries < fuel
    → (final : Remaining) × (peel fuel entries ≡ some final)
unfolding peel
peel_ends zero entries h = absurd (omega arith)
peel_ends (suc fuel) entries h = elim (List-cases (startable entries)) [
  | inl nothing ↦ (strip (startable entries) entries, rw (nothing, peel))
  | inr (id, ids, e) ↦
      let started : mem (startable entries) id ≡ true = rw e (mem-cons_self id ids) in
      let (final, ends) = peel_ends fuel (strip (startable entries) entries) (
        omega (
          arith,
          length-strip-lt (startable entries) entries id (mem-startable-keys entries id started)
              started,
        )) in
      (final, ground (arith))
]

-- What a round keeps of the dictionary, against the graph `declared` that it started from.
record Inv (declared : String → List String) (entries : Remaining) : Type 0 where
  unique : AreUnique entries
  sound :
      (id d : String) (deps : List String)
      → deps_of entries id ≡ some deps
      → mem deps d ≡ true
      → (mem (declared id) d ≡ true) × (mem (keys entries) d ≡ true)

-- Each of the ids left depends on another of them.
abbrev pub IsStuck : (String → List String) → List String → Type 0
IsStuck declared ids =
    (id : String)
    → mem ids id ≡ true
    → (d : String) × (mem (declared id) d ≡ true) × (mem ids d ≡ true)

module _ (declared : String → List String) where
  Inv-strip :
      (entries : Remaining)
      → Inv declared entries
      → Inv declared (strip (startable entries) entries)
  Inv-strip entries inv = record {
    unique = strip-AreUnique (startable entries) entries inv.unique;
    sound = λ id d deps h m. elim (Bool-cases (mem (startable entries) id)) [
      | inl gone ↦ ground (arith, deps_of-strip-mem (startable entries) entries id gone)
      | inr stays ↦ elim (Option-cases (deps_of entries id)) [
        | inl nothing ↦ ground (arith, deps_of-strip (startable entries) entries id stays)
        | inr (before, e) ↦ ground (
          arith,
          deps_of-strip (startable entries) entries id stays,
          inv.sound id d before e,
          mem-keep-not (startable entries) before d,
          mem-keys-strip (startable entries) entries d,
        )
      ]
    ];
  }

  strip-IsStuck :
      (entries : Remaining)
      → Inv declared entries
      → startable entries ≡ []
      → IsStuck declared (keys (strip (startable entries) entries))
  unfolding mem
  strip-IsStuck entries inv nothing id h = elim (Option-cases (deps_of entries id)) [
    | inl absent ↦
        ground (arith, deps_of-none entries id, mem-keys-strip (startable entries) entries id)
    | inr (deps, e) ↦ elim (List-cases deps) [
      | inl empty ↦ ground (arith, mem-startable entries id deps inv.unique e)
      | inr (d, others, f) ↦
          let kept = inv.sound id d deps e (rw f (mem-cons_self d others)) in
          (d, kept.0, ground (arith, mem-keys-strip (startable entries) entries d, kept))
    ]
  ]

  peel-IsStuck :
      (fuel : ℕ) (entries final : Remaining)
      → Inv declared entries
      → peel fuel entries ≡ some final
      → IsStuck declared (keys final)
  unfolding peel
  peel-IsStuck zero entries final inv h = cc
  peel-IsStuck (suc fuel) entries final inv h = elim (List-cases (startable entries)) [
    | inl nothing ↦
        subst (λ rest. IsStuck declared (keys rest)) (ground arith)
          (strip-IsStuck entries inv nothing)
    | inr (id, ids, e) ↦
        peel-IsStuck fuel (strip (startable entries) entries) final (Inv-strip entries inv)
          (ground arith)
  ]

  -- No order ranks the ids left.
  unranked :
      (rank : String → ℕ) (ids : List String)
      → ((id d : String) → mem (declared id) d ≡ true → rank d < rank id)
      → IsStuck declared ids
      → (bound : ℕ) (id : String) → rank id < bound
      → mem ids id ≡ false
  unranked rank ids ordered stuck zero id h = absurd (omega arith)
  unranked rank ids ordered stuck (suc bound) id h = elim (Bool-cases (mem ids id)) [
    | inl left ↦
        let (d, depends, also_left) = stuck id left in
        ground (
          arith,
          unranked rank ids ordered stuck bound d (omega (arith, ordered id d depends)),
          also_left,
        )
    | inr gone ↦ gone
  ]

  -- The round in which an id is taken away.
  unfoldable level : ℕ → Remaining → String → ℕ
  level zero entries id = 0
  level (suc fuel) entries id =
      if mem (startable entries) id
      then 0
      else suc (level fuel (strip (startable entries) entries) id)

  level-lt :
      (fuel : ℕ) (entries final : Remaining) (id d : String) (deps : List String)
      → Inv declared entries
      → peel fuel entries ≡ some final
      → keys final ≡ []
      → deps_of entries id ≡ some deps
      → mem deps d ≡ true
      → level fuel entries d < level fuel entries id
  unfolding peel level mem
  level-lt zero entries final id d deps inv h empty e m = cc
  level-lt (suc fuel) entries final id d deps inv h empty e m =
      elim (List-cases (startable entries)) [
        | inl nothing ↦
            let same : final ≡ strip (startable entries) entries = ground arith in
            ground (
              arith,
              ap keys same,
              deps_of-none entries id,
              mem-keys-strip (startable entries) entries id,
              nothing,
            )
        | inr (first, ids, s) ↦ elim (Bool-cases (mem (startable entries) id)) [
          | inl starts ↦ ground (arith, mem-startable entries id deps inv.unique e)
          | inr waits ↦ ground (
            arith,
            level-lt fuel (strip (startable entries) entries) final id d
                (keep (λ dep. not (mem (startable entries) dep)) deps) (Inv-strip entries inv),
            deps_of-strip (startable entries) entries id waits,
            mem-keep-not (startable entries) deps d,
          )
        ]
      ]

mem-keep-mem :
    (known ids : List String) (d : String)
    → mem (keep (mem known) ids) d ≡ (mem ids d && mem known d)
unfolding keep mem
mem-keep-mem known [] d = refl
mem-keep-mem known (id ∷ ids) d = ground (arith, mem-keep-mem known ids d, eq_iff id d)

-- The dictionary holds, for each id, what the last node of that id declares.
deps_of-remaining :
    (known : List String) (nodes : List GraphNode) (id : String)
    → deps_of (remaining known nodes) id ≡ elim (find_node nodes id) [
      | none ↦ none
      | some node ↦ some (keep (mem known) node.depends_on)
    ]
unfolding remaining deps_of find_node
deps_of-remaining known [] id = refl
deps_of-remaining known (node ∷ nodes) id = elim (Option-cases (find_node nodes id)) [
  | inl nothing ↦
      ground (arith, deps_of-remaining known nodes id, find_node-none nodes id, eq_iff node.id id)
  | inr (later, e) ↦
      ground (arith, deps_of-remaining known nodes id, find_node-none nodes id, eq_iff node.id id)
]

module _ (graph : Graph) where
  abbrev start : Remaining
  start = remaining (node_ids graph.nodes) graph.nodes

  start_deps :
      (id d : String)
      → (mem (dependency_ids graph id) d ≡ true)
        ↔ ((deps : List String) × (deps_of start id ≡ some deps) × (mem deps d ≡ true))
  unfolding get_dependencies mem
  start_deps id d = elim (Option-cases (find_node graph.nodes id)) [
    | inl nothing ↦ (
      λ m. ground (arith),
      λ (deps, e, m). ground (arith, deps_of-remaining (node_ids graph.nodes) graph.nodes id),
    )
    | inr (node, found) ↦ (
      λ m. (
        keep (mem (node_ids graph.nodes)) node.depends_on,
        ground (arith, deps_of-remaining (node_ids graph.nodes) graph.nodes id),
        ground (
          arith,
          mem-known_nodes graph.nodes node.depends_on d,
          mem-keep-mem (node_ids graph.nodes) node.depends_on d,
        ),
      ),
      λ (deps, e, m). ground (
        arith,
        deps_of-remaining (node_ids graph.nodes) graph.nodes id,
        mem-known_nodes graph.nodes node.depends_on d,
        mem-keep-mem (node_ids graph.nodes) node.depends_on d,
      ),
    )
  ]

  start-Inv : Inv (dependency_ids graph) start
  start-Inv = record {
    unique = remaining-AreUnique (node_ids graph.nodes) graph.nodes;
    sound = λ id d deps e m.
        let declared = (start_deps id d).1 (deps, e, m) in
        (
          declared,
          ground (
            arith,
            mem-keys-remaining (node_ids graph.nodes) graph.nodes d,
            dependency_ids-IsKnown graph id d declared,
          ),
        );
  }

  find_cycle_members-total :
      (final : Remaining) × (peel (suc (length start)) start ≡ some final)
      × (find_cycle_members graph ≡ keys final)
  unfolding find_cycle_members
  find_cycle_members-total =
      let (final, ends) = peel_ends (suc (length start)) start (omega arith) in
      (final, ends, rw ends)

-- A rank of the ids under which every node stands above its dependencies.
abbrev pub Ranking : Graph → Type 0
Ranking graph =
    (rank : String → ℕ) × ((id d : String)
      → mem (dependency_ids graph id) d ≡ true
      → rank d < rank id)

-- Every id that the cycle rule reports depends on a reported id.
pub find_cycle_members-IsStuck :
    (graph : Graph) → IsStuck (dependency_ids graph) (find_cycle_members graph)
find_cycle_members-IsStuck graph =
    let (final, ends, same) = find_cycle_members-total graph in
    rw same (
      peel-IsStuck (dependency_ids graph) (suc (length (start graph))) (start graph) final
        (start-Inv graph) ends)

nil_of_not-mem : (ids : List String) → ((id : String) → mem ids id ≡ false) → ids ≡ []
unfolding mem
nil_of_not-mem [] h = refl
nil_of_not-mem (id ∷ ids) h = ground (arith, h id, eq_iff id id)

Ranking-of_nil : (graph : Graph) → find_cycle_members graph ≡ [] → Ranking graph
Ranking-of_nil graph h =
    let (final, ends, same) = find_cycle_members-total graph in
    (
      level (dependency_ids graph) (suc (length (start graph))) (start graph),
      λ id d m.
          let (deps, e, n) = (start_deps graph id d).0 m in
          level-lt (dependency_ids graph) (suc (length (start graph))) (start graph) final id d deps
            (start-Inv graph) ends (cc) e n,
    )

nil_of_Ranking : (graph : Graph) → Ranking graph → find_cycle_members graph ≡ []
nil_of_Ranking graph (rank, ordered) = nil_of_not-mem (find_cycle_members graph) (λ id.
    unranked (dependency_ids graph) rank (find_cycle_members graph) ordered
      (find_cycle_members-IsStuck graph) (suc (rank id)) id (omega arith))

-- The cycle rule reports nothing exactly if the ids can be ranked with every one above its
-- dependencies in the graph.
pub validate_cycles_iff : (graph : Graph) → (validate_cycles graph ≡ []) ↔ Ranking graph
unfolding validate_cycles
validate_cycles_iff graph =
    (λ h. Ranking-of_nil graph (ground arith), λ r. rw (nil_of_Ranking graph r))
