-- ===== src/Common/Rows.antt =====
-- Tables: the number of rows that pass a test, UPDATE ... WHERE and INSERT OR IGNORE.
use Prim.Native.Nat.{ℕ, ◌+◌, ◌≤◌}
use mathlib.Core.Path.{◌≡◌, refl, sym}
use mathlib.Core.Bool.{Bool, true, false, not, ◌||◌}
use mathlib.Core.Option.{none, some}
use mathlib.Core.List.{List, [], ◌∷◌, ◌++◌}
use mathlib.Core.Logic.{inl, inr}
use native.Mathlib.Omega.{arith}
use aegis_nexus.Common.Tests.{if◌then◌else◌, Bool-cases}
use aegis_nexus.Common.Lists.{keep, any, first, length, All}

pub some_inj {ℓ} : {A : Type ℓ} (a b : A) → some a ≡ some b → a ≡ b
some_inj a b h = cc

module _ {ℓ} {A : Type ℓ} where
  abbrev pub count : (A → Bool) → List A → ℕ
  count p xs = length (keep p xs)

  unfoldable pub update_where : (A → Bool) → (A → A) → List A → List A
  update_where p f [] = []
  update_where p f (x ∷ xs) = (if p x then f x else x) ∷ update_where p f xs

  -- `ignores` tells whether a row is in the way of the new one.
  abbrev pub insert_or_ignore : (A → Bool) → A → List A → List A
  insert_or_ignore ignores x xs = if any ignores xs then xs else xs ++ x ∷ []

  pub count-append :
      (p : A → Bool) (xs : List A) (x : A)
      → count p (xs ++ x ∷ []) ≡ count p xs + (if p x then 1 else 0)
  count-append p [] x = ground arith
  count-append p (y ∷ xs) x = ground (arith, count-append p xs x)

  pub count-update_where :
      (p q : A → Bool) (f : A → A)
      → ((x : A) → q (f x) ≡ q x)
      → (xs : List A) → count q (update_where p f xs) ≡ count q xs
  unfolding update_where
  count-update_where p q f same [] = refl
  count-update_where p q f same (x ∷ xs) = ground (arith, count-update_where p q f same xs, same x)

  pub count-any : (p : A → Bool) (xs : List A) → any p xs ≡ false → count p xs ≡ 0
  count-any p [] h = refl
  count-any p (x ∷ xs) h = ground (arith, count-any p xs)

  pub All-update_where {κ} :
      (P : A → Type κ) (p : A → Bool) (f : A → A)
      → ((x : A) → P x → P (f x))
      → (xs : List A) → All P xs
      → All P (update_where p f xs)
  unfolding update_where
  All-update_where P p f keeps [] all = tt
  All-update_where P p f keeps (x ∷ xs) all = elim (Bool-cases (p x)) [
    | inl e ↦ rw e (keeps x all.0, All-update_where P p f keeps xs all.1)
    | inr e ↦ rw e (all.0, All-update_where P p f keeps xs all.1)
  ]

  pub count-keep : (p q : A → Bool) (xs : List A) → count p (keep q xs) ≤ count p xs
  count-keep p q [] = omega arith
  count-keep p q (x ∷ xs) = ground (arith, count-keep p q xs)

  -- What a deletion of the rows that pass a test leaves of them.
  pub count_deleted : (p : A → Bool) (xs : List A) → count p (keep (λ x. not (p x)) xs) ≡ 0
  count_deleted p [] = refl
  count_deleted p (x ∷ xs) = ground (arith, count_deleted p xs)

  pub any-update_where :
      (p q : A → Bool) (f : A → A)
      → ((x : A) → q (f x) ≡ q x)
      → (xs : List A) → any q (update_where p f xs) ≡ any q xs
  unfolding update_where
  any-update_where p q f same [] = refl
  any-update_where p q f same (x ∷ xs) = ground (arith, any-update_where p q f same xs, same x)

  pub any-append : (p : A → Bool) (xs : List A) (x : A) → any p (xs ++ x ∷ []) ≡ (any p xs || p x)
  any-append p [] x = ground arith
  any-append p (y ∷ xs) x = ground (arith, any-append p xs x)

  pub length-update_where :
      (p : A → Bool) (f : A → A) (xs : List A) → length (update_where p f xs) ≡ length xs
  unfolding update_where
  length-update_where p f [] = refl
  length-update_where p f (x ∷ xs) = omega (arith, length-update_where p f xs)

  pub any-first :
      (p : A → Bool) (xs : List A) (a : A) → first p xs ≡ some a → (any p xs ≡ true) × (p a ≡ true)
  any-first p [] a h = absurd (cc)
  any-first p (x ∷ xs) a h = elim (Bool-cases (p x)) [
    | inl e ↦ let same : x ≡ a = some_inj x a (rw e at h) in (ground arith, rw (sym same) e)
    | inr e ↦ let rest = any-first p xs a (rw e at h) in (ground arith, rest.1)
  ]

  pub any-first_none : (p : A → Bool) (xs : List A) → first p xs ≡ none → any p xs ≡ false
  any-first_none p [] h = refl
  any-first_none p (x ∷ xs) h = ground (arith, any-first_none p xs)

  update_where_none :
      (p : A → Bool) (f : A → A) (xs : List A) → count p xs ≡ 0 → update_where p f xs ≡ xs
  unfolding update_where
  update_where_none p f [] h = refl
  update_where_none p f (x ∷ xs) h = ground (arith, update_where_none p f xs)

  -- Where one row passes the test, the update changes the first such row.
  pub All-update_first {κ} :
      (P : A → Type κ) (p : A → Bool) (f : A → A) (xs : List A) (a : A)
      → All P xs
      → count p xs ≤ 1
      → first p xs ≡ some a
      → P (f a)
      → All P (update_where p f xs)
  unfolding update_where
  All-update_first P p f [] a all few h new = tt
  All-update_first P p f (x ∷ xs) a all few h new = elim (Bool-cases (p x)) [
    | inl e ↦
        let same : x ≡ a = some_inj x a (rw e at h) in
        let rest : update_where p f xs ≡ xs = update_where_none p f xs (ground arith) in
        rw (e, rest, same) (new, all.1)
    | inr e ↦ rw e (all.0, All-update_first P p f xs a all.1 (ground arith) (rw e at h) new)
  ]

  pub All-first {κ} :
      (P : A → Type κ) (p : A → Bool) (xs : List A) (a : A) → All P xs → first p xs ≡ some a → P a
  All-first P p [] a all h = absurd (cc)
  All-first P p (x ∷ xs) a all h = elim (Bool-cases (p x)) [
    | inl e ↦ let same : x ≡ a = some_inj x a (rw e at h) in rw (sym same) all.0
    | inr e ↦ All-first P p xs a all.1 (rw e at h)
  ]

  pub keep_none : (p : A → Bool) (xs : List A) → count p xs ≡ 0 → keep (λ x. not (p x)) xs ≡ xs
  keep_none p [] h = refl
  keep_none p (x ∷ xs) h = ground (arith, keep_none p xs)

  -- An update of other rows keeps the rows of a selection.
  pub keep-update_where :
      (p q : A → Bool) (f : A → A)
      → ((x : A) → p x ≡ true → (q x ≡ false) × (q (f x) ≡ false))
      → (xs : List A) → keep q (update_where p f xs) ≡ keep q xs
  unfolding update_where
  keep-update_where p q f other [] = refl
  keep-update_where p q f other (x ∷ xs) = elim (Bool-cases (p x)) [
    | inl e ↦ let (old, new) = other x e in rw (e, old, new) (keep-update_where p q f other xs)
    | inr e ↦ ground (arith, keep-update_where p q f other xs)
  ]

  -- A selection from the rows that another test keeps, where it keeps all of the selection.
  pub keep-keep :
      (p q : A → Bool)
      → ((x : A) → q x ≡ true → p x ≡ true)
      → (xs : List A) → keep q (keep p xs) ≡ keep q xs
  keep-keep p q all [] = refl
  keep-keep p q all (x ∷ xs) = ground (arith, keep-keep p q all xs, all x)

  pub keep_own :
      (p : A → Bool) (xs : List A) (x : A)
      → p x ≡ true
      → keep p (xs ++ x ∷ []) ≡ keep p xs ++ x ∷ []
  keep_own p [] x h = ground arith
  keep_own p (y ∷ xs) x h = ground (arith, keep_own p xs x h)

  pub keep_other :
      (p : A → Bool) (xs : List A) (x : A) → p x ≡ false → keep p (xs ++ x ∷ []) ≡ keep p xs
  keep_other p [] x h = ground arith
  keep_other p (y ∷ xs) x h = ground (arith, keep_other p xs x h)
