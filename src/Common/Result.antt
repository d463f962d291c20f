-- ===== src/Common/Result.antt =====
-- Code that raises: a value or the exception, and the chain of such steps.
use mathlib.Core.Path.{◌≡◌, refl}
use mathlib.Core.Bool.{Bool, true, false}
use mathlib.Core.Logic.{◌⊎◌, inl, inr}

pub data Result {ε ℓ} (E : Type ε) (A : Type ℓ) : Type (ε ⊔ ℓ) where
  ok : A → Result E A
  raise : E → Result E A

module _ {ε} {E : Type ε} where
  infixl 5 ◌>>=◌ ◌>>◌
  abbrev pub ◌>>=◌ {ℓ κ} : {A : Type ℓ} {B : Type κ} → Result E A → (A → Result E B) → Result E B
  ok a >>= f = f a
  raise e >>= f = raise e

  abbrev pub ◌>>◌ {ℓ} : {B : Type ℓ} → Result E (Unit {0}) → Result E B → Result E B
  m >> k = m >>= λ _. k

  -- `if not b: raise e`
  abbrev pub need : Bool → E → Result E (Unit {0})
  need true e = ok tt
  need false e = raise e

  pub Result-cases {ℓ} :
      {A : Type ℓ} (r : Result E A) → ((e : E) × (r ≡ raise e)) ⊎ ((a : A) × (r ≡ ok a))
  Result-cases (raise e) = inl (e, refl)
  Result-cases (ok a) = inr (a, refl)

module _ {ε ℓ κ} {E : Type ε} {A : Type ℓ} {B : Type κ} where
  -- A chain that returns has a first step that returns, and a rest that returns.
  pub >>=_ok :
      (r : Result E A) (f : A → Result E B) (b : B)
      → (r >>= f) ≡ ok b
      → (a : A) × (r ≡ ok a) × (f a ≡ ok b)
  >>=_ok (raise e) f b h = absurd (cc)
  >>=_ok (ok a) f b h = (a, refl, h)

module _ {ε κ} {E : Type ε} {B : Type κ} where
  pub need_ok :
      (b : Bool) (e : E) (r : Result E B) (x : B) → (need b e >> r) ≡ ok x → (b ≡ true) × (r ≡ ok x)
  need_ok true e r x h = (refl, h)
  need_ok false e r x h = absurd (cc)
