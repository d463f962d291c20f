-- ===== src/Detection/Tally.antt =====
-- The counts of the hits of aegis_nexus/detection_backtest.py: what they add up to, and under each name.
use aegis_nexus.Common.{
  if◌then◌else◌, ◌==◌, inl, inr, Bool-cases, eq_cases, ==_self, ==_ne, ℕ, ◌+◌, Bool, List, [], ◌∷◌,
  length, String, string_eq, ◌≡◌, refl, arith,
}
use aegis_nexus.Common.Dict.{Dict, get, put}
use aegis_nexus.Common.Rows.{count}
use aegis_nexus.Common.Order.{order_by, insert_by}
use aegis_nexus.Detection.Backtest.{Hit, one_more, counted_as, count_hits}

abbrev pub sum : Dict String ℕ → ℕ
sum [] = 0
sum ((k, n) ∷ d) = n + sum d

sum-put : (d : Dict String ℕ) (k : String) → sum (put d k (one_more (get d k))) ≡ sum d + 1
unfolding get put
sum-put [] k = refl
sum-put ((j, n) ∷ d) k = ground (arith, sum-put d k)

pub sum-count_hits :
    (hits : List Hit) (counts : Dict String ℕ)
    → sum (count_hits hits counts) ≡ sum counts + length hits
unfolding count_hits
sum-count_hits [] counts = omega arith
sum-count_hits (h ∷ hits) counts = omega (
  arith,
  sum-count_hits hits
      (put counts (counted_as h.found) (one_more (get counts (counted_as h.found)))),
  sum-put counts (counted_as h.found),
)

sum-insert_by :
    (before : String × ℕ → String × ℕ → Bool) (x : String × ℕ) (d : Dict String ℕ)
    → sum (insert_by before x d) ≡ x.1 + sum d
unfolding insert_by
sum-insert_by before x [] = refl
sum-insert_by before x (y ∷ d) = ground (arith, sum-insert_by before x d)

pub sum-order_by :
    (before : String × ℕ → String × ℕ → Bool) (d : Dict String ℕ) → sum (order_by before d) ≡ sum d
unfolding order_by
sum-order_by before [] = refl
sum-order_by before (x ∷ d) =
    omega (arith, sum-insert_by before x (order_by before d), sum-order_by before d)

-- What a report counts under one name.
abbrev pub tally : String → Dict String ℕ → ℕ
tally name [] = 0
tally name ((k, n) ∷ d) = (if k == name then n else 0) + tally name d

tally-put :
    (name : String) (d : Dict String ℕ) (k : String)
    → tally name (put d k (one_more (get d k))) ≡ tally name d + (if k == name then 1 else 0)
unfolding get put
tally-put name [] k = ground arith
tally-put name ((j, n) ∷ d) k = elim (eq_cases j k) [
  | inl same ↦ rw same (ground (arith, ==_self k))
  | inr other ↦ ground (arith, tally-put name d k, ==_ne j k other)
]

pub tally-count_hits :
    (name : String) (hits : List Hit) (counts : Dict String ℕ)
    → tally name (count_hits hits counts)
      ≡ tally name counts + count (λ h. counted_as h.found == name) hits
unfolding count_hits
tally-count_hits name [] counts = omega arith
tally-count_hits name (h ∷ hits) counts = ground (
  arith,
  tally-count_hits name hits
      (put counts (counted_as h.found) (one_more (get counts (counted_as h.found)))),
  tally-put name counts (counted_as h.found),
)

tally-insert_by :
    (name : String) (before : String × ℕ → String × ℕ → Bool) (x : String × ℕ) (d : Dict String ℕ)
    → tally name (insert_by before x d) ≡ (if x.0 == name then x.1 else 0) + tally name d
unfolding insert_by
tally-insert_by name before x [] = refl
tally-insert_by name before x (y ∷ d) = elim (Bool-cases (before x y)) [
  | inl first ↦ rw first refl
  | inr later ↦ rw later (omega (arith, tally-insert_by name before x d))
]

pub tally-order_by :
    (name : String) (before : String × ℕ → String × ℕ → Bool) (d : Dict String ℕ)
    → tally name (order_by before d) ≡ tally name d
unfolding order_by
tally-order_by name before [] = refl
tally-order_by name before (x ∷ d) =
    omega (arith, tally-insert_by name before x (order_by before d), tally-order_by name before d)
