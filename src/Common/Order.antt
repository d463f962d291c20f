-- ===== src/Common/Order.antt =====
-- ORDER BY: a list in the order of a test, rows that the test does not tell apart in their order.
use Prim.Native.Nat.{suc}
use mathlib.Core.Path.{◌≡◌, refl, ap, ◌∙◌}
use mathlib.Core.Bool.{Bool, ◌||◌}
use mathlib.Core.List.{List, [], ◌∷◌}
use native.Mathlib.Omega.{arith}
use aegis_nexus.Common.Tests.{if◌then◌else◌}
use aegis_nexus.Common.Lists.{any, length, keep, All}

module _ {ℓ} {A : Type ℓ} (before : A → A → Bool) where
  unfoldable pub insert_by : A → List A → List A
  insert_by x [] = x ∷ []
  insert_by x (y ∷ ys) = let rest = insert_by x ys in if before x y then x ∷ y ∷ ys else y ∷ rest

  unfoldable pub order_by : List A → List A
  unfolding insert_by
  order_by [] = []
  order_by (x ∷ xs) = insert_by x (order_by xs)

  any-insert_by : (p : A → Bool) (x : A) (xs : List A) → any p (insert_by x xs) ≡ (p x || any p xs)
  unfolding insert_by
  any-insert_by p x [] = refl
  any-insert_by p x (y ∷ ys) = ground (arith, any-insert_by p x ys)

  pub any-order_by : (p : A → Bool) (xs : List A) → any p (order_by xs) ≡ any p xs
  unfolding order_by
  any-order_by p [] = refl
  any-order_by p (x ∷ xs) = any-insert_by p x (order_by xs) ∙ ap (λ b. p x || b) (any-order_by p xs)

  length-insert_by : (x : A) (xs : List A) → length (insert_by x xs) ≡ suc (length xs)
  unfolding insert_by
  length-insert_by x [] = refl
  length-insert_by x (y ∷ ys) = ground (arith, length-insert_by x ys)

  pub length-order_by : (xs : List A) → length (order_by xs) ≡ length xs
  unfolding order_by
  length-order_by [] = refl
  length-order_by (x ∷ xs) = length-insert_by x (order_by xs) ∙ ap suc (length-order_by xs)

  pub All-insert_by {κ} :
      (P : A → Type κ) (x : A) (xs : List A) → P x → All P xs → All P (insert_by x xs)
  unfolding insert_by
  All-insert_by P x [] h a = (h, tt)
  All-insert_by P x (y ∷ ys) h a = ground (arith, All-insert_by P x ys h a.1)

  pub All-order_by {κ} : (P : A → Type κ) (xs : List A) → All P xs → All P (order_by xs)
  unfolding order_by
  All-order_by P [] a = tt
  All-order_by P (x ∷ xs) a = All-insert_by P x (order_by xs) a.0 (All-order_by P xs a.1)

  count-insert_by :
      (p : A → Bool) (x : A) (xs : List A)
      → length (keep p (insert_by x xs)) ≡ length (keep p (x ∷ xs))
  unfolding insert_by
  count-insert_by p x [] = refl
  count-insert_by p x (y ∷ ys) = ground (arith, count-insert_by p x ys)

  -- As many elements pass a test before and after.
  pub count-order_by :
      (p : A → Bool) (xs : List A) → length (keep p (order_by xs)) ≡ length (keep p xs)
  unfolding order_by
  count-order_by p [] = refl
  count-order_by p (x ∷ xs) = ground (arith, count-insert_by p x (order_by xs), count-order_by p xs)
