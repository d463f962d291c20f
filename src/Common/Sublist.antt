-- ===== src/Common/Sublist.antt =====
-- Lists with some elements left out: what a deletion leaves of a table.
use Prim.Native.Nat.{ℕ, zero, suc, ◌≤◌}
use mathlib.Core.Path.{◌≡◌, refl}
use mathlib.Core.Bool.{Bool}
use mathlib.Core.List.{List, [], ◌∷◌, ◌++◌}
use mathlib.Core.Logic.{inl, inr}
use native.Mathlib.Omega.{arith}
use aegis_nexus.Common.Tests.{Bool-cases}
use aegis_nexus.Common.Lists.{keep, drop, length}

pub data Sublist {ℓ} {A : Type ℓ} : List A → List A → Type ℓ where
  done : Sublist [] []
  skip : {x : A} {xs ys : List A} → Sublist xs ys → Sublist xs (x ∷ ys)
  both : {x : A} {xs ys : List A} → Sublist xs ys → Sublist (x ∷ xs) (x ∷ ys)

module _ {ℓ} {A : Type ℓ} where
  pub Sublist_refl : (xs : List A) → Sublist xs xs
  Sublist_refl [] = done
  Sublist_refl (x ∷ xs) = both (Sublist_refl xs)

  pub Sublist_trans :
      {ys zs : List A} → Sublist ys zs → {xs : List A} → Sublist xs ys → Sublist xs zs
  Sublist_trans done h = h
  Sublist_trans (skip k) h = skip (Sublist_trans k h)
  Sublist_trans (both k) (skip h) = skip (Sublist_trans k h)
  Sublist_trans (both k) (both h) = both (Sublist_trans k h)

  pub Sublist-keep : (p : A → Bool) (xs : List A) → Sublist (keep p xs) xs
  Sublist-keep p [] = done
  Sublist-keep p (x ∷ xs) = elim (Bool-cases (p x)) [
    | inl e ↦ rw e (both (Sublist-keep p xs))
    | inr e ↦ rw e (skip (Sublist-keep p xs))
  ]

  pub Sublist-drop : (n : ℕ) (xs : List A) → Sublist (drop n xs) xs
  Sublist-drop zero xs = Sublist_refl xs
  Sublist-drop (suc n) [] = done
  Sublist-drop (suc n) (x ∷ xs) = skip (Sublist-drop n xs)

  pub length-Sublist : {xs ys : List A} → Sublist xs ys → length xs ≤ length ys
  length-Sublist done = omega arith
  length-Sublist (skip h) = omega (arith, length-Sublist h)
  length-Sublist (both h) = omega (arith, length-Sublist h)

  pub drop-append : (n : ℕ) (xs ys : List A) → n ≤ length xs → drop n (xs ++ ys) ≡ drop n xs ++ ys
  drop-append zero xs ys h = refl
  drop-append (suc n) [] ys h = absurd (omega arith)
  drop-append (suc n) (x ∷ xs) ys h = drop-append n xs ys (omega arith)

  pub Sublist-append :
      {xs ys zs ws : List A} → Sublist xs ys → Sublist zs ws → Sublist (xs ++ zs) (ys ++ ws)
  Sublist-append done k = k
  Sublist-append (skip h) k = skip (Sublist-append h k)
  Sublist-append (both h) k = both (Sublist-append h k)

  pub Sublist_nil : (xs : List A) → Sublist [] xs
  Sublist_nil [] = done
  Sublist_nil (x ∷ xs) = skip (Sublist_nil xs)
