-- ===== src/Common/Sets.antt =====
-- Python sets, as lists without repetition: only membership and size are used.
use Prim.Native.Nat.{◌≤◌}
use mathlib.Core.Bool.{Bool}
use mathlib.Core.List.{List, [], ◌∷◌}
use native.Mathlib.Omega.{arith}
use aegis_nexus.Common.Tests.{if◌then◌else◌}
use aegis_nexus.Common.Equality.{Key, ◌==◌}
use aegis_nexus.Common.Lists.{any, length}

module _ {ℓ} {A : Type ℓ} ⦃e : Key A⦄ where
  abbrev pub elem : A → List A → Bool
  elem x xs = any (λ y. y == x) xs

  -- The elements of a list, each once.
  unfoldable pub distinct : List A → List A
  distinct [] = []
  distinct (x ∷ xs) = let rest = distinct xs in if elem x xs then rest else x ∷ rest

  pub length-distinct : (xs : List A) → length (distinct xs) ≤ length xs
  unfolding distinct
  length-distinct [] = omega arith
  length-distinct (x ∷ xs) = ground (arith, length-distinct xs)
