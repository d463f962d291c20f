-- ===== src/Sequence/Record.antt =====
-- `record_event_sequence` against the set of numbers received.
use mathlib.Core.Path.{subst}
use aegis_nexus.Common.{
  ℕ, ◌+◌, ◌≤◌, Bool, true, false, Option, none, some, List, [], ◌∷◌, ◌≡◌, refl, arith, ◌⊎◌,
  if◌then◌else◌, eq_test, ==_self, any, first, keep, string_eq, nat_eq, Bool-cases, inl, inr,
  All-append, All-keep, ◌∙◌, not,
}
use aegis_nexus.Sequence.{
  StreamKey, same_key, Range, Tables, Outcome, received, duplicate, untracked, covers, starts_at,
  ends_before, update_range, join_range, record_number,
}
use aegis_nexus.Sequence.Sums.{
  total, hit, hit-IsAdditive, AreRanges, first-passes, first-AreRanges, not-covers-total,
  covers-total,
}
use aegis_nexus.Sequence.Join.{AreDisjoint, total-join, total-join_other}

pub record IsWellFormed (rs : List Range) : Type 0 where
  pub valid : AreRanges rs
  pub apart : (k : StreamKey) → AreDisjoint k rs

update-AreRanges :
    (p : Range → Bool) (f : Range → Range) (rs : List Range)
    → AreRanges rs
    → ((r : Range)
        → p r ≡ true
        → r.start_sequence ≤ r.end_sequence
        → (f r).start_sequence ≤ (f r).end_sequence)
    → AreRanges (update_range p f rs)
unfolding update_range
update-AreRanges p f [] h keeps = tt
update-AreRanges p f (r ∷ rs) h keeps = elim (Bool-cases (p r)) [
  | inl here ↦ (rw here (keeps r here h.0), update-AreRanges p f rs h.1 keeps)
  | inr not_here ↦ (rw not_here h.0, update-AreRanges p f rs h.1 keeps)
]

module _ (k : StreamKey) (n : ℕ) (rs : List Range) where
  join-AreRanges :
      (left right : Option Range)
      → AreRanges rs
      → first (ends_before k n) rs ≡ left
      → first (starts_at k (n + 1)) rs ≡ right
      → AreRanges (join_range k n left right rs).0
  unfolding join_range
  join-AreRanges (some l) (some r) h e e' =
      let passes = first-passes (ends_before k n) rs l e in
      let range = first-AreRanges k (ends_before k n) rs l h e in
      let passes' = first-passes (starts_at k (n + 1)) rs r e' in
      let range' = first-AreRanges k (starts_at k (n + 1)) rs r h e' in
      update-AreRanges (starts_at k l.start_sequence)
        (λ x. record x { end_sequence = r.end_sequence })
        (keep (λ x. not (starts_at k (n + 1) x)) rs)
        (All-keep (λ x. x.start_sequence ≤ x.end_sequence) (λ x. not (starts_at k (n + 1) x)) rs h)
        (λ x own le. ground arith)
  join-AreRanges (some l) none h e e' =
      let passes = first-passes (ends_before k n) rs l e in
      let range = first-AreRanges k (ends_before k n) rs l h e in
      update-AreRanges (starts_at k l.start_sequence) (λ x. record x { end_sequence = n }) rs h
        (λ x own le. ground arith)
  join-AreRanges none (some r) h e e' =
      update-AreRanges (starts_at k (n + 1)) (λ x. record x { start_sequence = n }) rs h
        (λ x own le. ground arith)
  join-AreRanges none none h e e' =
      let added =
        All-append (λ x. x.start_sequence ≤ x.end_sequence) rs
          (record { key = k; start_sequence = n; end_sequence = n } ∷ []) h (omega arith, tt) in
      ground arith

  joined : List Range × Outcome
  joined = join_range k n (first (ends_before k n) rs) (first (starts_at k (n + 1)) rs) rs

  -- Only a number with no room for another range is not recorded, and then nothing changes.
  join-outcome :
      (left right : Option Range)
      → ((join_range k n left right rs).1 ≡ received)
        ⊎ ((join_range k n left right rs).1 ≡ untracked) × ((join_range k n left right rs).0 ≡ rs)
  unfolding join_range
  join-outcome (some l) (some r) = inl refl
  join-outcome (some l) none = inl refl
  join-outcome none (some r) = inl refl
  join-outcome none none = ground arith

-- The number of ranges of stream `j` that hold `m`.
abbrev pub holds : Tables → StreamKey → ℕ → ℕ
holds t j m = total (hit m) j t.ranges

-- What `outcome` says of the tables before and after number `n` of stream `k`.
abbrev pub Recorded : StreamKey → ℕ → Tables → Tables → Outcome → Type 0
Recorded k n t t' received =
    (holds t k n ≡ 0)
    × ((j : StreamKey) (m : ℕ)
        → holds t' j m ≡ holds t j m + (if same_key k j then hit m n n else 0))
Recorded k n t t' duplicate = (holds t k n ≡ 1) × (t'.ranges ≡ t.ranges)
Recorded k n t t' untracked = (holds t k n ≡ 0) × (t'.ranges ≡ t.ranges)

same_key_eq : (a b : StreamKey) → same_key a b ≡ true → a ≡ b
same_key_eq a b h = ground (arith, eq_test a.sensor_id b.sensor_id, eq_test a.stream_id b.stream_id)

same_key_self : (a : StreamKey) → same_key a a ≡ true
same_key_self a = ground (arith, ==_self a.sensor_id, ==_self a.stream_id)

module _ (k : StreamKey) (n : ℕ) (t t' : Tables) (o : Outcome) where
  record_number-cases :
      record_number k n t ≡ some (t', o)
      → ((any (covers k n) t.ranges ≡ true) × (t'.ranges ≡ t.ranges) × (o ≡ duplicate))
        ⊎ ((any (covers k n) t.ranges ≡ false)
            × (t'.ranges ≡ (joined k n t.ranges).0)
            × (o ≡ (joined k n t.ranges).1))
  unfolding record_number joined
  record_number-cases e = ground arith

  joined-Recorded :
      IsWellFormed t.ranges
      → any (covers k n) t.ranges ≡ false
      → t'.ranges ≡ (joined k n t.ranges).0
      → o ≡ (joined k n t.ranges).1
      → Recorded k n t t' o
  unfolding joined
  joined-Recorded w free e same =
      let outcome =
        join-outcome k n t.ranges (first (ends_before k n) t.ranges)
          (first (starts_at k (n + 1)) t.ranges) in
      elim outcome [
        | inl got ↦ rw (same ∙ got) (
          not-covers-total k n t.ranges free,
          λ j m. elim (Bool-cases (same_key k j)) [
            | inl p ↦
                subst (λ q. holds t' q m ≡ holds t q m + (if same_key k q then hit m n n else 0))
                  (same_key_eq k j p)
                  (rw (e, same_key_self k)
                    (total-join k n t.ranges w.valid (w.apart k) (hit m) (hit-IsAdditive m) got))
            | inr q ↦
                rw (e, q)
                  (total-join_other k n t.ranges w.valid (w.apart k) (hit m) j q
                      (first (ends_before k n) t.ranges) (first (starts_at k (n + 1)) t.ranges)
                    ∙ omega arith)
          ],
        )
        | inr (lost, kept) ↦ rw (same ∙ lost) (not-covers-total k n t.ranges free, e ∙ kept)
      ]

  -- What a number that is taken in does to the tables, from well-formed ranges: it is a duplicate
  -- exactly when one range of its stream holds it, and then no range changes; it is received when
  -- none holds it, and then exactly that number is added to that stream, and no other number to any
  -- stream; it is untracked when none holds it, and then no range changes.
  pub record_number-Recorded :
      IsWellFormed t.ranges → record_number k n t ≡ some (t', o) → Recorded k n t t' o
  record_number-Recorded w e = elim (record_number-cases e) [
    | inl (held, same, out) ↦
        rw out (omega (arith, covers-total k n t.ranges held, w.apart k n), same)
    | inr (free, same, out) ↦ joined-Recorded w free same out
  ]

  Recorded-apart :
      IsWellFormed t.ranges
      → (out : Outcome) → Recorded k n t t' out
      → (j : StreamKey) → AreDisjoint j t'.ranges
  Recorded-apart w received r j m = elim (Bool-cases (same_key k j)) [
    | inl p ↦
        let free : holds t j n ≡ 0 = subst (λ q. holds t q n ≡ 0) (same_key_eq k j p) r.0 in
        ground (arith, r.1 j m, w.apart j m)
    | inr q ↦ ground (arith, r.1 j m, w.apart j m)
  ]
  Recorded-apart w duplicate r j m = rw r.1 (w.apart j m)
  Recorded-apart w untracked r j m = rw r.1 (w.apart j m)

  -- Ranges stay not empty and disjoint.
  pub record_number-IsWellFormed :
      IsWellFormed t.ranges → record_number k n t ≡ some (t', o) → IsWellFormed t'.ranges
  unfolding joined
  record_number-IsWellFormed w e = record {
    valid = elim (record_number-cases e) [
      | inl (held, same, out) ↦ rw same w.valid
      | inr (free, same, out) ↦ rw same (
          join-AreRanges k n t.ranges (first (ends_before k n) t.ranges)
            (first (starts_at k (n + 1)) t.ranges) w.valid refl refl)
    ];
    apart = Recorded-apart w o (record_number-Recorded w e);
  }
