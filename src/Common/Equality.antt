-- ===== src/Common/Equality.antt =====
-- Equality tests as an instance, for the numbers and texts that serve as keys.
use Prim.Native.Nat.{ℕ}
use Prim.Native.String.{String}
use mathlib.Core.Path.{◌≡◌, refl, ap}
use mathlib.Core.Option.{Option, none, some}
use mathlib.Core.Logic.{◌↔◌, ◌⊎◌, inl, inr, ◌≢◌}
use mathlib.Core.Bool.{Bool, true, false, ◌&&◌}
use mathlib.Core.List.{List, [], ◌∷◌}
use native.Mathlib.Omega.{arith}
use text.Mathlib.Text.{◌==◌ as str_eq}
use text.Mathlib.TextEquality.{eq_iff}
use aegis_nexus.Common.Tests.{nat_beq, Bool-cases}

-- A type of keys: `same` decides whether two keys are equal.
pub record Key {ℓ} (K : Type ℓ) : Type ℓ where
  pub same : K → K → Bool
  pub decides : (a b : K) → (same a b ≡ true) ↔ (a ≡ b)

instance abbrev pub string_eq : Key String
string_eq = record { same = str_eq; decides = eq_iff }

pub nat_beq_iff : (a b : ℕ) → (nat_beq a b ≡ true) ↔ (a ≡ b)
nat_beq_iff a b = ground arith

instance abbrev pub nat_eq : Key ℕ
nat_eq = record { same = nat_beq; decides = nat_beq_iff }

infix 50 ◌==◌
abbrev pub ◌==◌ {ℓ} : {K : Type ℓ} ⦃key : Key K⦄ → K → K → Bool
◌==◌ ⦃key⦄ = key.same

module _ {ℓ} {A : Type ℓ} ⦃e : Key A⦄ where
  -- The test and the equation, in the form that `ground` takes at two values.
  pub eq_test : (a b : A) → ((a == b) ≡ true) ↔ (a ≡ b)
  eq_test = e.decides

  pub ==_self : (a : A) → (a == a) ≡ true
  ==_self a = (e.decides a a).1 refl

  pub eq_cases : (a b : A) → (a ≡ b) ⊎ (a ≢ b)
  eq_cases a b = elim (Bool-cases (a == b)) [
    | inl same ↦ inl ((e.decides a b).0 same)
    | inr other ↦ inr (λ p. cc ((e.decides a b).1 p))
  ]

  pub ==_ne : (a b : A) → a ≢ b → (a == b) ≡ false
  ==_ne a b n = elim (Bool-cases (a == b)) [
    | inl same ↦ absurd (n ((e.decides a b).0 same))
    | inr other ↦ other
  ]

module _ {ℓ} {A : Type ℓ} ⦃e : Key A⦄ where
  abbrev pub option_beq : Option A → Option A → Bool
  option_beq none none = true
  option_beq none (some b) = false
  option_beq (some a) none = false
  option_beq (some a) (some b) = a == b

  pub option_beq_iff : (a b : Option A) → (option_beq a b ≡ true) ↔ (a ≡ b)
  option_beq_iff none none = (λ h. refl, λ h. refl)
  option_beq_iff none (some b) = ((λ h. cc), (λ h. cc))
  option_beq_iff (some a) none = ((λ h. cc), (λ h. cc))
  option_beq_iff (some a) (some b) =
      (λ h. ap some ((e.decides a b).0 h), λ h. (e.decides a b).1 (cc))

  instance abbrev pub option_eq : Key (Option A)
  option_eq = record { same = option_beq; decides = option_beq_iff }

module _ {ℓ} {A : Type ℓ} ⦃e : Key A⦄ where
  abbrev pub list_beq : List A → List A → Bool
  list_beq [] [] = true
  list_beq [] (y ∷ ys) = false
  list_beq (x ∷ xs) [] = false
  list_beq (x ∷ xs) (y ∷ ys) = x == y && list_beq xs ys

  pub list_beq_iff : (xs ys : List A) → (list_beq xs ys ≡ true) ↔ (xs ≡ ys)
  list_beq_iff [] [] = (λ h. refl, λ h. refl)
  list_beq_iff [] (y ∷ ys) = ((λ h. cc), (λ h. cc))
  list_beq_iff (x ∷ xs) [] = ((λ h. cc), (λ h. cc))
  list_beq_iff (x ∷ xs) (y ∷ ys) = ground (arith, eq_test x y, list_beq_iff xs ys)

  instance abbrev pub list_eq : Key (List A)
  list_eq = record { same = list_beq; decides = list_beq_iff }
