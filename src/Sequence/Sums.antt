-- ===== src/Sequence/Sums.antt =====
-- Sums over the ranges of a stream: what a deletion and an update of one row do to them.
use aegis_nexus.Common.{
  ℕ, ◌+◌, ◌-◌, ◌≤◌, ◌<◌, Bool, true, false, not, ◌&&◌, some, List, [], ◌∷◌, ◌++◌, ◌≡◌, refl, arith,
  leb, if◌then◌else◌, any, first, keep, length, string_eq, nat_eq, All,
}
use aegis_nexus.Sequence.{StreamKey, same_key, Range, covers, starts_at, update_range}

abbrev pub Measure : Type 0
Measure = ℕ → ℕ → ℕ

abbrev pub share : Measure → StreamKey → Range → ℕ
share μ k r = if same_key r.key k then μ r.start_sequence r.end_sequence else 0

unfoldable pub total : Measure → StreamKey → List Range → ℕ
total μ k [] = 0
total μ k (r ∷ rs) = share μ k r + total μ k rs

-- 1 where `m` lies in the range.
abbrev pub hit : ℕ → Measure
hit m a b = if leb a m && leb m b then 1 else 0

abbrev pub size : Measure
size a b = b + 1 - a

-- Cutting a range in two cuts its measure in two.
abbrev pub IsAdditive : Measure → Type 0
IsAdditive μ = (a c b : ℕ) → a ≤ c → c < b → μ a b ≡ μ a c + μ (c + 1) b

pub hit-IsAdditive : (m : ℕ) → IsAdditive (hit m)
hit-IsAdditive m a c b h k = ground arith

pub size-IsAdditive : IsAdditive size
size-IsAdditive a c b h k = omega arith

-- Ranges are not empty.
abbrev pub AreRanges : List Range → Type 0
AreRanges = All (λ r. r.start_sequence ≤ r.end_sequence)

module _ (p : Range → Bool) where
  keep_none : (rs : List Range) → length (keep p rs) ≡ 0 → keep (λ r. not (p r)) rs ≡ rs
  keep_none [] h = refl
  keep_none (r ∷ rs) h = ground (arith, keep_none rs)

  update_none :
      (f : Range → Range) (rs : List Range) → length (keep p rs) ≡ 0 → update_range p f rs ≡ rs
  unfolding update_range
  update_none f [] h = refl
  update_none f (r ∷ rs) h = ground (arith, update_none f rs)

  pub total-delete :
      (μ : Measure) (k : StreamKey) (rs : List Range) (r : Range)
      → first p rs ≡ some r
      → length (keep p rs) ≤ 1
      → total μ k (keep (λ x. not (p x)) rs) + share μ k r ≡ total μ k rs
  unfolding total
  total-delete μ k [] r e h = cc
  total-delete μ k (x ∷ xs) r e h = ground (arith, keep_none xs, total-delete μ k xs r)

  pub total-update :
      (μ : Measure) (k : StreamKey) (f : Range → Range) (rs : List Range) (r : Range)
      → first p rs ≡ some r
      → length (keep p rs) ≤ 1
      → total μ k (update_range p f rs) + share μ k r ≡ total μ k rs + share μ k (f r)
  unfolding total update_range
  total-update μ k f [] r e h = cc
  total-update μ k f (x ∷ xs) r e h = ground (arith, update_none f xs, total-update μ k f xs r)

  pub first-keep :
      (q : Range → Bool) (rs : List Range) (r : Range)
      → first q rs ≡ some r
      → p r ≡ true
      → first q (keep p rs) ≡ some r
  first-keep q [] r e h = cc
  first-keep q (x ∷ xs) r e h = ground (arith, first-keep q xs r)

  pub length-keep-keep :
      (q : Range → Bool) (rs : List Range) → length (keep q (keep p rs)) ≤ length (keep q rs)
  length-keep-keep q [] = omega arith
  length-keep-keep q (x ∷ xs) = ground (arith, length-keep-keep q xs)

  -- The row found passes a test that only one row passes: it is that row.
  length-keep_first :
      (q : Range → Bool) (rs : List Range) (r : Range)
      → first p rs ≡ some r
      → q r ≡ true
      → 1 ≤ length (keep q rs)
  length-keep_first q [] r e h = cc
  length-keep_first q (x ∷ xs) r e h = ground (arith, length-keep_first q xs r)

  pub first_unique :
      (q : Range → Bool) (rs : List Range) (r : Range)
      → first p rs ≡ some r
      → q r ≡ true
      → length (keep q rs) ≤ 1
      → first q rs ≡ some r
  first_unique q [] r e h one = cc
  first_unique q (x ∷ xs) r e h one = ground (arith, first_unique q xs r, length-keep_first q xs r)

  pub first-passes : (rs : List Range) (r : Range) → first p rs ≡ some r → p r ≡ true
  first-passes [] r e = cc
  first-passes (x ∷ xs) r e = ground (arith, first-passes xs r)

module _ (k : StreamKey) where
  pub starts_at-le-total :
      (a : ℕ) (rs : List Range)
      → AreRanges rs
      → length (keep (starts_at k a) rs) ≤ total (hit a) k rs
  unfolding total
  starts_at-le-total a [] h = omega arith
  starts_at-le-total a (r ∷ rs) h = ground (arith, starts_at-le-total a rs h.1)

  pub not-covers-total :
      (n : ℕ) (rs : List Range) → any (covers k n) rs ≡ false → total (hit n) k rs ≡ 0
  unfolding total
  not-covers-total n [] h = refl
  not-covers-total n (r ∷ rs) h = ground (arith, not-covers-total n rs)

  pub covers-total : (n : ℕ) (rs : List Range) → any (covers k n) rs ≡ true → 1 ≤ total (hit n) k rs
  unfolding total
  covers-total n [] h = cc
  covers-total n (r ∷ rs) h = ground (arith, covers-total n rs)

  pub first-AreRanges :
      (p : Range → Bool) (rs : List Range) (r : Range)
      → AreRanges rs
      → first p rs ≡ some r
      → r.start_sequence ≤ r.end_sequence
  first-AreRanges p [] r h e = cc
  first-AreRanges p (x ∷ xs) r h e = ground (arith, first-AreRanges p xs r h.1)

  pub total-append :
      (μ : Measure) (rs : List Range) (r : Range)
      → total μ k (rs ++ r ∷ []) ≡ total μ k rs + share μ k r
  unfolding total
  total-append μ [] r = omega arith
  total-append μ (x ∷ xs) r = omega (arith, total-append μ xs r)
