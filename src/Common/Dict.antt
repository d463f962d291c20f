-- ===== src/Common/Dict.antt =====
-- Python dictionaries as association lists in insertion order: assigning to a key that is there
-- keeps its place, a new key goes to the end.
use aegis_nexus.Common.Tests.{if◌then◌else◌}
use aegis_nexus.Common.Lists.{length}
use aegis_nexus.Common.Equality.{Key, ◌==◌, eq_test}
use Prim.Native.Nat.{suc, ◌≤◌}
use mathlib.Core.Path.{◌≡◌, refl}
use mathlib.Core.Option.{Option, none, some}
use mathlib.Core.List.{List, [], ◌∷◌}
use native.Mathlib.Omega.{arith}

abbrev pub Dict {ℓ κ} : Type ℓ → Type κ → Type (ℓ ⊔ κ)
Dict K V = List (K × V)

module _ {ℓ κ} {K : Type ℓ} {V : Type κ} ⦃e : Key K⦄ where
  unfoldable pub get : Dict K V → K → Option V
  get [] k = none
  get ((j, v) ∷ d) k = let rest = get d k in if j == k then some v else rest

  unfoldable pub put : Dict K V → K → V → Dict K V
  put [] k v = (k, v) ∷ []
  put ((j, w) ∷ d) k v = let rest = put d k v in if j == k then (j, v) ∷ d else (j, w) ∷ rest

  -- `pop(key, None)`
  unfoldable pub pop : Dict K V → K → Dict K V
  pop [] k = []
  pop ((j, w) ∷ d) k = let rest = pop d k in if j == k then rest else (j, w) ∷ rest

  pub get-put :
      (d : Dict K V) (k j : K) (v : V) → get (put d k v) j ≡ (if k == j then some v else get d j)
  unfolding get put
  get-put [] k j v = refl
  get-put ((i, w) ∷ d) k j v =
      ground (arith, get-put d k j v, eq_test i k, eq_test i j, eq_test k j)

  pub get-pop : (d : Dict K V) (k j : K) → get (pop d k) j ≡ (if k == j then none else get d j)
  unfolding get pop
  get-pop [] k j = ground arith
  get-pop ((i, w) ∷ d) k j = ground (arith, get-pop d k j, eq_test i k, eq_test i j, eq_test k j)

  pub length-pop : (d : Dict K V) (k : K) → length (pop d k) ≤ length d
  unfolding pop
  length-pop [] k = omega arith
  length-pop ((j, w) ∷ d) k = ground (arith, length-pop d k)

  -- Assigning to a key that is there adds no entry, and a new key adds one.
  pub length-put :
      (d : Dict K V) (k : K) (v : V)
      → length (put d k v) ≡ elim (get d k) [ none ↦ suc (length d) | some _ ↦ length d ]
  unfolding get put
  length-put [] k v = refl
  length-put ((j, w) ∷ d) k v = ground (arith, length-put d k v)

  -- No key twice.
  abbrev pub Distinct : Dict K V → Type κ
  Distinct [] = Unit
  Distinct ((j, v) ∷ d) = (get d j ≡ none) × Distinct d

  pub Distinct-put : (d : Dict K V) (k : K) (v : V) → Distinct d → Distinct (put d k v)
  unfolding get put
  Distinct-put [] k v h = (refl, tt)
  Distinct-put ((j, w) ∷ d) k v h =
      ground (arith, Distinct-put d k v h.1, get-put d k j v, eq_test j k, eq_test k j)

  pub Distinct-pop : (d : Dict K V) (k : K) → Distinct d → Distinct (pop d k)
  unfolding get pop
  Distinct-pop [] k h = tt
  Distinct-pop ((j, w) ∷ d) k h =
      ground (arith, Distinct-pop d k h.1, get-pop d k j, eq_test j k, eq_test k j)
