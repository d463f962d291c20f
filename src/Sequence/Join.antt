-- ===== src/Sequence/Join.antt =====
-- What joining one number to the ranges of its stream does to every additive measure of them.
use aegis_nexus.Common.{
  ℕ, ◌+◌, ◌≤◌, true, false, not, Option, none, some, List, [], ◌∷◌, ◌≡◌, refl, arith, eq_test,
  first, keep, ◌∙◌, length, string_eq, nat_eq, Bool-cases, Option-cases, inl, inr, ==_self,
}
use aegis_nexus.Sequence.{
  StreamKey, same_key, Range, received, starts_at, ends_before, update_range, join_range,
}
use aegis_nexus.Sequence.Sums.{
  Measure, share, total, hit, IsAdditive, AreRanges, total-delete, total-update, first-keep,
  length-keep-keep, first_unique, first-passes, starts_at-le-total, first-AreRanges, total-append,
}

-- No number lies in two ranges of the stream.
abbrev pub AreDisjoint : StreamKey → List Range → Type 0
AreDisjoint k rs = (m : ℕ) → total (hit m) k rs ≤ 1

module _ (k : StreamKey) (n : ℕ) (rs : List Range) (valid : AreRanges rs)
    (apart : AreDisjoint k rs) where
  one_start : (a : ℕ) → length (keep (starts_at k a) rs) ≤ 1
  one_start a = omega (arith, starts_at-le-total k a rs valid, apart a)

  -- The row that ends just before `n` is the only one with its start.
  left_row :
      (l : Range)
      → first (ends_before k n) rs ≡ some l
      → (same_key l.key k ≡ true)
        × (l.start_sequence ≤ l.end_sequence)
        × (l.end_sequence + 1 ≡ n)
        × (first (starts_at k l.start_sequence) rs ≡ some l)
  left_row l e =
      let passes = first-passes (ends_before k n) rs l e in
      let own : starts_at k l.start_sequence l ≡ true = ground arith in
      (
        ground arith,
        first-AreRanges k (ends_before k n) rs l valid e,
        ground arith,
        first_unique (ends_before k n) (starts_at k l.start_sequence) rs l e own
            (one_start l.start_sequence),
      )

  module _ (μ : Measure) (additive : IsAdditive μ) where
    total-join_none :
        (join_range k n none none rs).1 ≡ received
        → total μ k (join_range k n none none rs).0 ≡ total μ k rs + μ n n
    unfolding join_range
    total-join_none h = ground (
      arith,
      total-append k μ rs (record { key = k; start_sequence = n; end_sequence = n }),
      ==_self k.sensor_id,
      ==_self k.stream_id,
    )

    total-join_right :
        (r : Range)
        → first (starts_at k (n + 1)) rs ≡ some r
        → total μ k (join_range k n none (some r) rs).0 ≡ total μ k rs + μ n n
    unfolding join_range
    total-join_right r e = ground (
      arith,
      first-passes (starts_at k (n + 1)) rs r e,
      first-AreRanges k (starts_at k (n + 1)) rs r valid e,
      total-update (starts_at k (n + 1)) μ k (λ (x : Range). record x { start_sequence = n }) rs r e
          (one_start (n + 1)),
      additive n n r.end_sequence,
    )

    total-join_left :
        (l : Range)
        → first (ends_before k n) rs ≡ some l
        → total μ k (join_range k n (some l) none rs).0 ≡ total μ k rs + μ n n
    unfolding join_range
    total-join_left l e =
        let (key, range, ends, only) = left_row l e in
        let sum =
          total-update (starts_at k l.start_sequence) μ k
            (λ (x : Range). record x { end_sequence = n }) rs l only (one_start l.start_sequence) in
        let split : μ l.start_sequence n ≡ μ l.start_sequence l.end_sequence + μ n n =
          additive l.start_sequence l.end_sequence n range (omega arith) ∙ (rw ends) in
        ground arith

    total-join_both :
        (l r : Range)
        → first (ends_before k n) rs ≡ some l
        → first (starts_at k (n + 1)) rs ≡ some r
        → total μ k (join_range k n (some l) (some r) rs).0 ≡ total μ k rs + μ n n
    unfolding join_range
    total-join_both l r e e' =
        let (key, range, ends, only) = left_row l e in
        let passes = first-passes (starts_at k (n + 1)) rs r e' in
        let range' = first-AreRanges k (starts_at k (n + 1)) rs r valid e' in
        let others : starts_at k (n + 1) l ≡ false = ground arith in
        let rest = keep (λ x. not (starts_at k (n + 1) x)) rs in
        let removed = total-delete (starts_at k (n + 1)) μ k rs r e' (one_start (n + 1)) in
        let sum =
          total-update (starts_at k l.start_sequence) μ k
            (λ (x : Range). record x { end_sequence = r.end_sequence }) rest l
            (first-keep (λ x. not (starts_at k (n + 1) x)) (starts_at k l.start_sequence) rs l only
              (rw others))
            (omega (
              arith,
              length-keep-keep (λ x. not (starts_at k (n + 1) x)) (starts_at k l.start_sequence) rs,
              one_start l.start_sequence,
            )) in
        let split : μ l.start_sequence r.end_sequence
            ≡ μ l.start_sequence l.end_sequence + μ n r.end_sequence =
          additive l.start_sequence l.end_sequence r.end_sequence range (ground arith)
          ∙ (rw ends) in
        let split' = additive n n r.end_sequence in ground arith

    -- A number that is recorded adds its own measure to its stream.
    pub total-join :
        (join_range k n (first (ends_before k n) rs) (first (starts_at k (n + 1)) rs) rs).1
          ≡ received
        → total μ k
            (join_range k n (first (ends_before k n) rs) (first (starts_at k (n + 1)) rs) rs).0
          ≡ total μ k rs + μ n n
    total-join h = elim (Option-cases (first (ends_before k n) rs)) [
      | inl e ↦ elim (Option-cases (first (starts_at k (n + 1)) rs)) [
        | inl e' ↦ rw (e, e') (total-join_none (rw (e, e') at h))
        | inr (r, e') ↦ rw (e, e') (total-join_right r e')
      ]
      | inr (l, e) ↦ elim (Option-cases (first (starts_at k (n + 1)) rs)) [
        | inl e' ↦ rw (e, e') (total-join_left l e)
        | inr (r, e') ↦ rw (e, e') (total-join_both l r e e')
      ]
    ]

  module _ (μ : Measure) (j : StreamKey) (other : same_key k j ≡ false) where
    share_other : (r : Range) → same_key r.key k ≡ true → share μ j r ≡ 0
    share_other r h = ground (
      arith,
      eq_test r.key.sensor_id k.sensor_id,
      eq_test r.key.stream_id k.stream_id,
      eq_test r.key.sensor_id j.sensor_id,
      eq_test r.key.stream_id j.stream_id,
      eq_test k.sensor_id j.sensor_id,
      eq_test k.stream_id j.stream_id,
    )

    update_other :
        (a : ℕ) (f : Range → Range) (xs : List Range)
        → ((r : Range) → same_key r.key k ≡ true → share μ j (f r) ≡ 0)
        → total μ j (update_range (starts_at k a) f xs) ≡ total μ j xs
    unfolding total update_range
    update_other a f [] keeps = refl
    update_other a f (x ∷ xs) keeps = elim (Bool-cases (starts_at k a x)) [
      | inl here ↦
          let own : same_key x.key k ≡ true = ground arith in
          rw here (omega (arith, update_other a f xs keeps, share_other x own, keeps x own))
      | inr not_here ↦ rw not_here (omega (arith, update_other a f xs keeps))
    ]

    delete_other :
        (a : ℕ) (xs : List Range) → total μ j (keep (λ x. not (starts_at k a x)) xs) ≡ total μ j xs
    unfolding total
    delete_other a [] = refl
    delete_other a (x ∷ xs) = elim (Bool-cases (starts_at k a x)) [
      | inl here ↦
          let own : same_key x.key k ≡ true = ground arith in
          rw here (omega (arith, delete_other a xs, share_other x own))
      | inr not_here ↦ rw not_here (omega (arith, delete_other a xs))
    ]

    -- The measures of the other streams stay.
    pub total-join_other :
        (left right : Option Range) → total μ j (join_range k n left right rs).0 ≡ total μ j rs
    unfolding join_range
    total-join_other (some l) (some r) =
        update_other l.start_sequence (λ x. record x { end_sequence = r.end_sequence })
          (keep (λ x. not (starts_at k (n + 1) x)) rs)
          (λ x own. share_other (record x { end_sequence = r.end_sequence }) own)
        ∙ delete_other (n + 1) rs
    total-join_other (some l) none =
        update_other l.start_sequence (λ x. record x { end_sequence = n }) rs
          (λ x own. share_other (record x { end_sequence = n }) own)
    total-join_other none (some r) =
        update_other (n + 1) (λ x. record x { start_sequence = n }) rs
          (λ x own. share_other (record x { start_sequence = n }) own)
    total-join_other none none =
        let new : Range = record { key = k; start_sequence = n; end_sequence = n } in
        ground (
          arith,
          total-append j μ rs new,
          share_other new (ground (arith, ==_self k.sensor_id, ==_self k.stream_id)),
        )
