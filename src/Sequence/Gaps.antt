-- ===== src/Sequence/Gaps.antt =====
-- `_gaps` of src/aegis_nexus/sensor_sequence.py: the missing numbers of a stream, as ranges.
use aegis_nexus.Common.{
  ℕ, suc, ◌+◌, ◌-◌, ◌≤◌, ◌<◌, Bool, true, false, ◌&&◌, ◌||◌, List, [], ◌∷◌, ◌++◌, ◌≡◌, ◌⊎◌, refl,
  arith, leb, ltb, max, if◌then◌else◌, any, keep, length, length-append, string_eq, nat_eq, inl,
  inr, All, ◌∙◌, sym,
}
use aegis_nexus.Common.Order.{order_by, insert_by, any-order_by, All-insert_by}
use aegis_nexus.Sequence.{StreamKey, same_key, Range, covers, max_reported_gaps}

pub record Gap : Type 0 where
  pub first : ℕ
  pub last : ℕ

-- The loop over the ranges in order of their starts, and the gap after the last one.
unfoldable pub walk_gaps : ℕ → List Range → ℕ → List Gap → List Gap
walk_gaps highest [] expected gaps =
    if leb expected highest && ltb (length gaps) max_reported_gaps
    then gaps ++ record { first = expected; last = highest } ∷ []
    else gaps
walk_gaps highest (r ∷ rs) expected gaps =
    let opened = gaps ++ record { first = expected; last = r.start_sequence - 1 } ∷ [] in
    let next = max expected (r.end_sequence + 1) in
    let after_gap = walk_gaps highest rs next opened in
    let after = walk_gaps highest rs next gaps in
    if ltb expected r.start_sequence
    then (if leb max_reported_gaps (length opened) then opened else after_gap)
    else after

abbrev pub by_start : Range → Range → Bool
by_start a b = leb a.start_sequence b.start_sequence

unfoldable pub gaps_of : StreamKey → ℕ → List Range → List Gap
unfolding walk_gaps order_by
gaps_of k highest rs = walk_gaps highest (order_by by_start (keep (λ r. same_key r.key k) rs)) 1 []

abbrev pub in_gaps : ℕ → List Gap → Bool
in_gaps m = any (λ g. leb g.first m && leb m g.last)

abbrev pub in_ranges : ℕ → List Range → Bool
in_ranges m = any (λ r. leb r.start_sequence m && leb m r.end_sequence)

abbrev IsAscending : List Range → Type 0
IsAscending [] = Unit
IsAscending (r ∷ rs) = All (λ x. r.start_sequence ≤ x.start_sequence) rs × IsAscending rs

All-lower :
    (a b : ℕ) (rs : List Range)
    → a ≤ b
    → All (λ x. b ≤ x.start_sequence) rs
    → All (λ x. a ≤ x.start_sequence) rs
All-lower a b [] h k = tt
All-lower a b (r ∷ rs) h k = (omega (arith, k.0), All-lower a b rs h k.1)

insert_by-IsAscending :
    (r : Range) (rs : List Range) → IsAscending rs → IsAscending (insert_by by_start r rs)
unfolding insert_by
insert_by-IsAscending r [] h = (tt, tt)
insert_by-IsAscending r (x ∷ xs) h = ground (
  arith,
  insert_by-IsAscending r xs h.1,
  All-insert_by by_start (λ y. x.start_sequence ≤ y.start_sequence) r xs,
  All-lower r.start_sequence x.start_sequence xs,
)

order_by-IsAscending : (rs : List Range) → IsAscending (order_by by_start rs)
unfolding order_by
order_by-IsAscending [] = tt
order_by-IsAscending (r ∷ rs) =
    insert_by-IsAscending r (order_by by_start rs) (order_by-IsAscending rs)

in_gaps-append :
    (m : ℕ) (g : Gap) (gs : List Gap)
    → in_gaps m (gs ++ g ∷ []) ≡ (in_gaps m gs || (leb g.first m && leb m g.last))
in_gaps-append m g [] = ground arith
in_gaps-append m g (x ∷ xs) = ground (arith, in_gaps-append m g xs)

below-All :
    (m : ℕ) (rs : List Range) → All (λ x. suc m ≤ x.start_sequence) rs → in_ranges m rs ≡ false
below-All m [] h = refl
below-All m (r ∷ rs) h = ground (arith, below-All m rs h.1)

below_range :
    (m : ℕ) (r : Range) (rs : List Range)
    → IsAscending (r ∷ rs)
    → m < r.start_sequence
    → in_ranges m (r ∷ rs) ≡ false
below_range m r rs a h =
    let rest = below-All m rs (All-lower (suc m) r.start_sequence rs h a.0) in ground arith

module _ (highest m : ℕ) where
  walk_gaps_sound :
      (rs : List Range) (expected : ℕ) (gaps : List Gap)
      → IsAscending rs
      → in_gaps m (walk_gaps highest rs expected gaps) ≡ true
      → (in_gaps m gaps ≡ true) ⊎ ((expected ≤ m) × (in_ranges m rs ≡ false))
  unfolding walk_gaps
  walk_gaps_sound [] expected gaps a h =
      ground (arith, in_gaps-append m (record { first = expected; last = highest }) gaps)
  walk_gaps_sound (r ∷ rs) expected gaps a h =
      let opened = gaps ++ record { first = expected; last = r.start_sequence - 1 } ∷ [] in
      ground (
        arith,
        in_gaps-append m (record { first = expected; last = r.start_sequence - 1 }) gaps,
        below_range m r rs a,
        walk_gaps_sound rs (max expected (r.end_sequence + 1)) opened a.1,
        walk_gaps_sound rs (max expected (r.end_sequence + 1)) gaps a.1,
      )

  walk_gaps_keeps :
      (rs : List Range) (expected : ℕ) (gaps : List Gap)
      → in_gaps m gaps ≡ true
      → in_gaps m (walk_gaps highest rs expected gaps) ≡ true
  unfolding walk_gaps
  walk_gaps_keeps [] expected gaps h =
      ground (arith, in_gaps-append m (record { first = expected; last = highest }) gaps)
  walk_gaps_keeps (r ∷ rs) expected gaps h =
      let opened = gaps ++ record { first = expected; last = r.start_sequence - 1 } ∷ [] in
      ground (
        arith,
        in_gaps-append m (record { first = expected; last = r.start_sequence - 1 }) gaps,
        walk_gaps_keeps rs (max expected (r.end_sequence + 1)) opened,
        walk_gaps_keeps rs (max expected (r.end_sequence + 1)) gaps,
      )

  walk_gaps_complete :
      (rs : List Range) (expected : ℕ) (gaps : List Gap)
      → expected ≤ m
      → m ≤ highest
      → in_ranges m rs ≡ false
      → length (walk_gaps highest rs expected gaps) < max_reported_gaps
      → in_gaps m (walk_gaps highest rs expected gaps) ≡ true
  unfolding walk_gaps
  walk_gaps_complete [] expected gaps e h free few =
      ground (arith, in_gaps-append m (record { first = expected; last = highest }) gaps)
  walk_gaps_complete (r ∷ rs) expected gaps e h free few =
      let opened = gaps ++ record { first = expected; last = r.start_sequence - 1 } ∷ [] in
      ground (
        arith,
        in_gaps-append m (record { first = expected; last = r.start_sequence - 1 }) gaps,
        walk_gaps_keeps rs (max expected (r.end_sequence + 1)) opened,
        walk_gaps_complete rs (max expected (r.end_sequence + 1)) opened,
        walk_gaps_complete rs (max expected (r.end_sequence + 1)) gaps,
      )

length-walk_gaps :
    (highest : ℕ) (rs : List Range) (expected : ℕ) (gaps : List Gap)
    → length gaps < max_reported_gaps
    → length (walk_gaps highest rs expected gaps) ≤ max_reported_gaps
unfolding walk_gaps
length-walk_gaps highest [] expected gaps h =
    ground (arith, length-append gaps (record { first = expected; last = highest } ∷ []))
length-walk_gaps highest (r ∷ rs) expected gaps h =
    let opened = gaps ++ record { first = expected; last = r.start_sequence - 1 } ∷ [] in
    ground (
      arith,
      length-append gaps (record { first = expected; last = r.start_sequence - 1 } ∷ []),
      length-walk_gaps highest rs (max expected (r.end_sequence + 1)) opened,
      length-walk_gaps highest rs (max expected (r.end_sequence + 1)) gaps,
    )

in_ranges-keep :
    (k : StreamKey) (m : ℕ) (rs : List Range)
    → in_ranges m (keep (λ r. same_key r.key k) rs) ≡ any (covers k m) rs
in_ranges-keep k m [] = refl
in_ranges-keep k m (r ∷ rs) = ground (arith, in_ranges-keep k m rs)

in_ranges-ordered :
    (k : StreamKey) (m : ℕ) (rs : List Range)
    → in_ranges m (order_by by_start (keep (λ r. same_key r.key k) rs)) ≡ any (covers k m) rs
in_ranges-ordered k m rs =
    any-order_by by_start (λ r. leb r.start_sequence m && leb m r.end_sequence)
      (keep (λ r. same_key r.key k) rs)
    ∙ in_ranges-keep k m rs

-- At most ten gaps are reported. A number in a reported gap is at least 1 and in no stored range of the
-- stream; it may have been received all the same, since a number that needs a range beyond the most
-- that are stored is not kept. Where fewer than ten gaps are reported, every number from 1 to
-- `highest` that is in no stored range of the stream lies in a reported gap.
pub gaps_of_exact :
    (k : StreamKey) (highest : ℕ) (rs : List Range)
    → (length (gaps_of k highest rs) ≤ max_reported_gaps)
      × ((m : ℕ)
          → in_gaps m (gaps_of k highest rs) ≡ true
          → (1 ≤ m) × (any (covers k m) rs ≡ false))
      × ((m : ℕ)
          → 1 ≤ m
          → m ≤ highest
          → any (covers k m) rs ≡ false
          → length (gaps_of k highest rs) < max_reported_gaps
          → in_gaps m (gaps_of k highest rs) ≡ true)
unfolding gaps_of
gaps_of_exact k highest rs =
    let rows = order_by by_start (keep (λ r. same_key r.key k) rs) in
    let up = order_by-IsAscending (keep (λ r. same_key r.key k) rs) in
    (
      length-walk_gaps highest rows 1 [] (omega arith),
      (λ m h. elim (walk_gaps_sound highest m rows 1 [] up h) [
        | inl none_ ↦ cc
        | inr (low, free) ↦ (low, sym (in_ranges-ordered k m rs) ∙ free)
      ]),
      λ m low high free few.
          walk_gaps_complete highest m rows 1 [] low high (in_ranges-ordered k m rs ∙ free) few,
    )
