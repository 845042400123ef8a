-- ===== src/Validation/Peeling.antt =====
-- The dictionary that the cycle rule peels: what a round leaves of each entry.
use agentic_dag.Prelude.{
  ◌≤◌, ◌<◌, ◌≡◌, refl, String, true, false, not, ◌&&◌, List, [], ◌∷◌, map, Option, none, some, ◌==◌,
  string_eq, keep, mem, length, if◌then◌else◌, arith, ◌↔◌,
}
use text.Mathlib.TextEquality.{eq_iff}
use agentic_dag.Domain.{GraphNode}
use agentic_dag.Validation.{Remaining, keys, remaining, startable, strip}

-- `remaining.get(id)`
unfoldable pub deps_of : Remaining → String → Option (List String)
deps_of [] id = none
deps_of ((key, deps) ∷ entries) id = if key == id then some deps else deps_of entries id

abbrev pub AreUnique : Remaining → Type 0
AreUnique [] = Unit
AreUnique ((id, deps) ∷ entries) = (mem (keys entries) id ≡ false) × AreUnique entries

pub deps_of-none :
    (entries : Remaining) (id : String)
    → (deps_of entries id ≡ none) ↔ (mem (keys entries) id ≡ false)
unfolding deps_of mem
deps_of-none [] id = ground arith
deps_of-none ((key, deps) ∷ entries) id = ground (arith, deps_of-none entries id)

pub mem-startable-keys :
    (entries : Remaining) (id : String)
    → mem (startable entries) id ≡ true
    → mem (keys entries) id ≡ true
unfolding startable mem
mem-startable-keys [] id h = cc
mem-startable-keys ((key, []) ∷ entries) id h = ground (arith, mem-startable-keys entries id)
mem-startable-keys ((key, d ∷ deps) ∷ entries) id h = ground (arith, mem-startable-keys entries id)

-- The ids that can start are those whose set is empty.
pub mem-startable :
    (entries : Remaining) (id : String) (deps : List String)
    → AreUnique entries
    → deps_of entries id ≡ some deps
    → (mem (startable entries) id ≡ true) ↔ (deps ≡ [])
unfolding startable mem deps_of
mem-startable [] id deps unique h = cc
mem-startable ((key, []) ∷ entries) id deps unique h =
    ground (arith, mem-startable entries id deps unique.1, eq_iff key id)
mem-startable ((key, d ∷ ds) ∷ entries) id deps unique h =
    ground
      (arith, mem-startable entries id deps unique.1, mem-startable-keys entries id, eq_iff key id)

pub mem-keep-not :
    (ids deps : List String) (d : String)
    → mem (keep (λ dep. not (mem ids dep)) deps) d ≡ (mem deps d && not (mem ids d))
unfolding keep mem
mem-keep-not ids [] d = refl
mem-keep-not ids (dep ∷ deps) d = ground (arith, mem-keep-not ids deps d, eq_iff dep d)

pub deps_of-strip-mem :
    (ids : List String) (entries : Remaining) (id : String)
    → mem ids id ≡ true
    → deps_of (strip ids entries) id ≡ none
unfolding strip deps_of
deps_of-strip-mem ids [] id h = refl
deps_of-strip-mem ids ((key, deps) ∷ entries) id h =
    ground (arith, deps_of-strip-mem ids entries id h, eq_iff key id)

pub deps_of-strip :
    (ids : List String) (entries : Remaining) (id : String)
    → mem ids id ≡ false
    → deps_of (strip ids entries) id ≡ elim (deps_of entries id) [
      | none ↦ none
      | some deps ↦ some (keep (λ d. not (mem ids d)) deps)
    ]
unfolding strip deps_of
deps_of-strip ids [] id h = refl
deps_of-strip ids ((key, deps) ∷ entries) id h =
    ground (arith, deps_of-strip ids entries id h, eq_iff key id)

pub mem-keys-strip :
    (ids : List String) (entries : Remaining) (id : String)
    → mem (keys (strip ids entries)) id ≡ (mem (keys entries) id && not (mem ids id))
unfolding strip mem
mem-keys-strip ids [] id = refl
mem-keys-strip ids ((key, deps) ∷ entries) id =
    ground (arith, mem-keys-strip ids entries id, eq_iff key id)

pub strip-AreUnique :
    (ids : List String) (entries : Remaining) → AreUnique entries → AreUnique (strip ids entries)
unfolding strip
strip-AreUnique ids [] unique = tt
strip-AreUnique ids ((key, deps) ∷ entries) unique =
    ground (arith, strip-AreUnique ids entries unique.1, mem-keys-strip ids entries key)

length-strip-le :
    (ids : List String) (entries : Remaining) → length (strip ids entries) ≤ length entries
unfolding strip
length-strip-le ids [] = omega arith
length-strip-le ids ((key, deps) ∷ entries) = ground (arith, length-strip-le ids entries)

pub length-strip-lt :
    (ids : List String) (entries : Remaining) (id : String)
    → mem (keys entries) id ≡ true
    → mem ids id ≡ true
    → length (strip ids entries) < length entries
unfolding strip mem
length-strip-lt ids [] id h m = cc
length-strip-lt ids ((key, deps) ∷ entries) id h m =
    ground (arith, length-strip-lt ids entries id, length-strip-le ids entries, eq_iff key id)

-- The dictionary that the loop starts from.
module _ (known : List String) where
  pub mem-keys-remaining :
      (nodes : List GraphNode) (id : String)
      → mem (keys (remaining known nodes)) id ≡ mem (map (λ node. node.id) nodes) id
  unfolding remaining mem
  mem-keys-remaining [] id = refl
  mem-keys-remaining (node ∷ nodes) id =
      ground (arith, mem-keys-remaining nodes id, eq_iff node.id id)

  pub remaining-AreUnique : (nodes : List GraphNode) → AreUnique (remaining known nodes)
  unfolding remaining
  remaining-AreUnique [] = tt
  remaining-AreUnique (node ∷ nodes) =
      ground (arith, remaining-AreUnique nodes, mem-keys-remaining nodes node.id)
