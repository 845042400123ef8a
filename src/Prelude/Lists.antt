-- ===== src/Prelude/Lists.antt =====
-- Lists measured by native numbers, and Python's `in`, comprehensions and `max` over them.
use Prim.Native.Nat.{ℕ, suc, ◌+◌, ◌≤◌}
use mathlib.Core.Path.{◌≡◌, refl}
use mathlib.Core.Logic.{◌↔◌, ◌⊎◌}
use mathlib.Core.Bool.{Bool, true, false, ◌||◌, ◌&&◌}
use mathlib.Core.List.{List, [], ◌∷◌, ◌++◌}
use native.Mathlib.Omega.{arith}
use agentic_dag.Prelude.Tests.{Keyed, ◌==◌, if◌then◌else◌, same_refl}

module _ {ℓ} {A : Type ℓ} where
  abbrev pub length : List A → ℕ
  length [] = 0
  length (x ∷ xs) = suc (length xs)

  pub length-append : (xs ys : List A) → length (xs ++ ys) ≡ length xs + length ys
  length-append [] ys = omega arith
  length-append (x ∷ xs) ys = omega (arith, length-append xs ys)

  -- `[x for x in xs if test(x)]`
  unfoldable pub keep : (A → Bool) → List A → List A
  keep p [] = []
  keep p (x ∷ xs) = if p x then x ∷ keep p xs else keep p xs

  -- `any(test(x) for x in xs)`
  unfoldable pub any : (A → Bool) → List A → Bool
  any p [] = false
  any p (x ∷ xs) = p x || any p xs

  -- `all(test(x) for x in xs)`
  unfoldable pub all : (A → Bool) → List A → Bool
  all p [] = true
  all p (x ∷ xs) = p x && all p xs

  pub length-keep-le : (p : A → Bool) (xs : List A) → length (keep p xs) ≤ length xs
  unfolding keep
  length-keep-le p [] = omega arith
  length-keep-le p (x ∷ xs) = ground (arith, length-keep-le p xs)

  -- A predicate at every element.
  abbrev pub All {κ} : (A → Type κ) → List A → Type κ
  All P [] = Unit
  All P (x ∷ xs) = P x × All P xs

module _ {ℓ} {A : Type ℓ} ⦃k : Keyed A⦄ where
  -- `a in xs`
  unfoldable pub mem : List A → A → Bool
  mem [] a = false
  mem (x ∷ xs) a = x == a || mem xs a

  pub mem-cons_self : (a : A) (xs : List A) → mem (a ∷ xs) a ≡ true
  unfolding mem
  mem-cons_self a xs = rw (same_refl a)

  pub mem-cons_of_mem : (a x : A) (xs : List A) → mem xs a ≡ true → mem (x ∷ xs) a ≡ true
  unfolding mem
  mem-cons_of_mem a x xs h = ground arith

  pub mem-cons : (a x : A) (xs : List A) → (mem (x ∷ xs) a ≡ true) ↔ ((x ≡ a) ⊎ (mem xs a ≡ true))
  unfolding mem
  mem-cons a x xs = ground (arith, k.same_iff x a)

  pub mem-nil : (a : A) → mem [] a ≡ false
  unfolding mem
  mem-nil a = refl

  pub mem-append : (xs ys : List A) (a : A) → mem (xs ++ ys) a ≡ (mem xs a || mem ys a)
  unfolding mem
  mem-append [] ys a = refl
  mem-append (x ∷ xs) ys a = ground (arith, mem-append xs ys a)
