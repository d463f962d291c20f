-- ===== src/Chain/Gaps.antt =====
-- What a deletion does to the verdict of `verify_chain`.
use aegis_nexus.Common.{
  ℕ, suc, ◌≤◌, ◌<◌, String, Bool, true, false, some, List, [], ◌∷◌, ◌≡◌, ◌↔◌, ◌⊎◌, refl, arith, All,
  All-keep, not, any, take, length, ◌-◌, ◌==◌, string_eq, lt→leb, Bool-cases, inl, inr,
}
use aegis_nexus.Chain.{Payload, Columns, Link, Head, Db, chained}
use aegis_nexus.Chain.Verdict.{IsSealed, IsLinked, IsChain, verify_chain_iff}
use aegis_nexus.Chain.Verify.{verify_chain}
use aegis_nexus.Chain.Retention.{delete_unless, prune, enforce_capacity, text_ltb, order_rows}
use aegis_nexus.Chain.Order.{All-lower, passing, chained-delete_unless}

-- The rows that pass are a last part of the list, and not empty.
abbrev pub KeepsEnd : (Columns → Bool) → List Link → Type 0
KeepsEnd p [] = ⊥
KeepsEnd p (x ∷ xs) =
    ((p x.values ≡ true) × All (λ y. p y.values ≡ true) xs) ⊎ ((p x.values ≡ false) × KeepsEnd p xs)

module _ (digest : Payload → String) (p : Columns → Bool) where
  All-pass : (xs : List Link) → All (λ y. p y.values ≡ true) xs → passing p xs ≡ xs
  All-pass [] a = refl
  All-pass (x ∷ xs) a = ground (arith, All-pass xs a.1)

  -- An intact list is still intact when a last part of it is kept.
  keeps_end :
      (x : Link) (xs : List Link) (h : Head)
      → IsSealed digest x
      → IsLinked digest x xs h
      → KeepsEnd p (x ∷ xs)
      → IsChain digest (passing p (x ∷ xs)) (some h)
  keeps_end x xs h seal k (inl (px, rest)) = rw (px, All-pass xs rest) (seal, k)
  keeps_end x [] h seal k (inr (px, rest)) = absurd rest
  keeps_end x (y ∷ ys) h seal k (inr (px, rest)) = rw px (keeps_end y ys h k.2 k.3 rest)

  linked_after :
      (x : Link) (xs : List Link) (h : Head)
      → IsLinked digest x xs h
      → (x.seq ≤ h.last_seq) × All (λ y. suc x.seq ≤ y.seq) xs
  linked_after x [] h k = (omega arith, tt)
  linked_after x (y ∷ ys) h k =
      let after = linked_after y ys h k.3 in
      (omega arith, (omega arith, All-lower (suc x.seq) (suc y.seq) ys (omega arith) after.1))

  -- A row cannot be followed by rows whose numbers leave one out, nor by a head further on.
  no_gap :
      (x : Link) (n : ℕ) (rest : List Link) (h : Head)
      → All (λ z. suc (suc x.seq) ≤ z.seq) rest
      → suc x.seq ≤ h.last_seq
      → ¬ IsLinked digest x rest h
  no_gap x n [] h a far k = omega arith
  no_gap x n (z ∷ zs) h a far k = omega (arith, a.0, k.0)

  All-kept :
      (x : Link) (xs : List Link) (h : Head)
      → IsLinked digest x xs h
      → IsLinked digest x (passing p xs) h
      → All (λ y. p y.values ≡ true) xs
  All-kept x [] h k k' = tt
  All-kept x (y ∷ ys) h k k' = elim (Bool-cases (p y.values)) [
    | inl py ↦
        let linked : IsLinked digest x (y ∷ passing p ys) h = rw py at k' in
        (py, All-kept y ys h k.3 linked.3)
    | inr out ↦
        let linked : IsLinked digest x (passing p ys) h = rw out at k' in
        let after = linked_after y ys h k.3 in
        let far = All-lower (suc (suc x.seq)) (suc y.seq) ys (omega (arith, k.0)) after.1 in
        absurd (
          no_gap x 0 (passing p ys) h
            (All-keep (λ z. suc (suc x.seq) ≤ z.seq) (λ l. p l.values) ys far)
            (omega (arith, k.0, after.0)) linked)
  ]

  end_kept :
      (x : Link) (xs : List Link) (h : Head)
      → 0 < h.last_seq
      → IsLinked digest x xs h
      → IsChain digest (passing p (x ∷ xs)) (some h)
      → KeepsEnd p (x ∷ xs)
  end_kept x [] h pos k c = elim (Bool-cases (p x.values)) [
    | inl px ↦ inl (px, tt)
    | inr out ↦ let c' : IsChain digest [] (some h) = rw out at c in absurd (omega arith)
  ]
  end_kept x (y ∷ ys) h pos k c = elim (Bool-cases (p x.values)) [
    | inl px ↦
        let c' : IsChain digest (x ∷ passing p (y ∷ ys)) (some h) = rw px at c in
        inl (px, All-kept x (y ∷ ys) h k c'.1)
    | inr out ↦ inr (out, end_kept y ys h pos k.3 (rw out at c))
  ]

  passing_iff :
      (xs : List Link) (h : Head)
      → 0 < h.last_seq
      → IsChain digest xs (some h)
      → IsChain digest (passing p xs) (some h) ↔ KeepsEnd p xs
  passing_iff [] h pos c = absurd (omega arith)
  passing_iff (x ∷ xs) h pos c = (end_kept x xs h pos c.1, keeps_end x xs h c.0 c.1)

  delete_unless_iff :
      (m : ℕ) (db : Db) (h : Head)
      → 0 < m
      → db.head ≡ some h
      → 0 < h.last_seq
      → (verify_chain digest m db).ok ≡ true
      → ((verify_chain digest m (delete_unless p db)).ok ≡ true) ↔ KeepsEnd p (chained db)
  unfolding chained
  delete_unless_iff m db h room e pos ok =
      let c : IsChain digest (chained db) (some h) =
        rw e at ((verify_chain_iff digest m room db).0 ok) in
      let both = passing_iff (chained db) h pos c in
      let after = verify_chain_iff digest m room (delete_unless p db) in
      let e' = chained-delete_unless p db in
      (λ v. both.0 (rw (e', e) at (after.0 v)), λ k. after.1 (rw (e', e) (both.1 k)))

-- A row stays at `prune` when it was not received before the cutoff.
abbrev pub is_retained : String → Columns → Bool
is_retained cutoff v = not (text_ltb v.collector_received_at cutoff)

-- A row stays at `enforce_capacity` when it is not among the overflow.
abbrev pub is_within_capacity : ℕ → Db → Columns → Bool
is_within_capacity max_events db v =
    not (any (λ o. o.id == v.id) (take (length db.events - max_events) (order_rows db.events)))

module _ (digest : Payload → String) (m : ℕ) (db : Db) (h : Head) (room : 0 < m)
    (e : db.head ≡ some h) (pos : 0 < h.last_seq) (ok : (verify_chain digest m db).ok ≡ true) where
  -- On a chain that verifies and has a record: after a retention pass the report is `ok` exactly
  -- when the rows kept are a last part of the chain that is not empty. So a pass that removes every
  -- row, or a row in the chain after one that it keeps, is reported as tampering.
  pub prune_verdict :
      (days : ℕ) (cutoff : String)
      → 0 < days
      → ((verify_chain digest m (prune days cutoff db)).ok ≡ true)
        ↔ KeepsEnd (is_retained cutoff) (chained db)
  unfolding prune
  prune_verdict days cutoff h' =
      rw (lt→leb days 0 h') (delete_unless_iff digest (is_retained cutoff) m db h room e pos ok)

  -- The same for the capacity bound, where more than `max_events` rows are stored.
  pub enforce_capacity_verdict :
      (max_events : ℕ)
      → max_events < length db.events
      → ((verify_chain digest m (enforce_capacity max_events db)).ok ≡ true)
        ↔ KeepsEnd (is_within_capacity max_events db) (chained db)
  unfolding enforce_capacity
  enforce_capacity_verdict max_events h' =
      rw (lt→leb (length db.events - max_events) 0 (omega arith))
        (delete_unless_iff digest (is_within_capacity max_events db) m db h room e pos ok)
