-- ===== src/Chain/Verdict.antt =====
-- What the verdict of `verify_chain` means: an independent description of an intact chain.
use aegis_nexus.Common.{
  ℕ, suc, ◌+◌, ◌<◌, String, Bool, true, false, Option, none, some, List, [], ◌∷◌, ◌++◌, ◌≡◌, ◌↔◌,
  refl, arith, not, ◌==◌, eq_test, is_empty, string_eq, nat_eq, option_eq, Bool-cases, Option-cases,
  ◌∙◌, sym, ap, inl, inr,
}
use aegis_nexus.Chain.{Payload, Link, Head, Db, text_of, compute_record_hash, chained}
use aegis_nexus.Chain.Verify.{
  Problem, Scan, start, problem, problem_if, or_zero, broken_link, sequence_gap,
  record_hash_mismatch, head_missing, head_mismatch, check_link, check_hash, visit, scan,
  check_head, verify_chain,
}

module _ (digest : Payload → String) where
  -- The record hash is the digest of the row.
  abbrev pub IsSealed : Link → Type 0
  IsSealed x =
      x.stored_hash ≡ some (compute_record_hash digest x.seq (text_of x.stored_prev) x.values)

  -- The rows that follow `x` continue it one by one, and the last one is the head.
  abbrev pub IsLinked : Link → List Link → Head → Type 0
  IsLinked x [] h = (h.last_seq ≡ x.seq) × (x.stored_hash ≡ some h.last_hash)
  IsLinked x (y ∷ ys) h =
      (y.seq ≡ suc x.seq) × (y.stored_prev ≡ x.stored_hash) × IsSealed y × IsLinked y ys h

  abbrev pub IsChain : List Link → Option Head → Type 0
  IsChain [] none = Unit
  IsChain [] (some h) = h.last_seq ≡ 0
  IsChain (x ∷ xs) none = ⊥
  IsChain (x ∷ xs) (some h) = IsSealed x × IsLinked x xs h

is_empty-append_one {ℓ} : {A : Type ℓ} (xs : List A) (x : A) → is_empty (xs ++ x ∷ []) ≡ false
is_empty-append_one [] x = refl
is_empty-append_one (y ∷ ys) x = refl

problem_dirty : (m : ℕ) (p : Problem) (s : Scan) → 0 < m → is_empty (problem m p s).problems ≡ false
unfolding problem
problem_dirty m p s h = ground (arith, is_empty-append_one s.problems p)

problem_keeps :
    (m : ℕ) (p : Problem) (s : Scan)
    → is_empty s.problems ≡ false
    → is_empty (problem m p s).problems ≡ false
unfolding problem
problem_keeps m p s h = ground (arith, is_empty-append_one s.problems p)

problem_if_keeps :
    (b : Bool) (m : ℕ) (p : Problem) (s : Scan)
    → is_empty s.problems ≡ false
    → is_empty (problem_if b m p s).problems ≡ false
problem_if_keeps true m p s h = problem_keeps m p s h
problem_if_keeps false m p s h = h

nil_of_empty {ℓ} : {A : Type ℓ} (xs : List A) → is_empty xs ≡ true → xs ≡ []
nil_of_empty [] h = refl
nil_of_empty (x ∷ xs) h = cc

module _ (digest : Payload → String) (m : ℕ) where
  check_link_keeps :
      (x : Link) (s : Scan)
      → is_empty s.problems ≡ false
      → is_empty (check_link digest m x s).problems ≡ false
  check_link_keeps x s h = elim (Option-cases s.first_seq) [
    | inl e ↦ unfold check_link in rw (e, check_link) h
    | inr (f, e) ↦
        unfold check_link in
        rw (e, check_link)
          (problem_if_keeps (not (x.stored_prev == s.last_hash)) m (broken_link x.seq x.values.id)
            (problem_if (not (x.seq == or_zero s.last_seq + 1)) m (sequence_gap s.last_seq x.seq) s)
            (problem_if_keeps (not (x.seq == or_zero s.last_seq + 1)) m
              (sequence_gap s.last_seq x.seq) s h))
  ]

  check_hash_keeps :
      (x : Link) (s : Scan)
      → is_empty s.problems ≡ false
      → is_empty (check_hash digest m x s).problems ≡ false
  unfolding check_hash
  check_hash_keeps x s h =
      ground (arith, problem_keeps m (record_hash_mismatch x.seq x.values.id) s h)

  visit_keeps :
      (x : Link) (s : Scan)
      → is_empty s.problems ≡ false
      → is_empty (visit digest m x s).problems ≡ false
  unfolding visit
  visit_keeps x s h = check_hash_keeps x (check_link digest m x s) (check_link_keeps x s h)

  scan_keeps :
      (xs : List Link) (s : Scan)
      → is_empty s.problems ≡ false
      → is_empty (scan digest m xs s).problems ≡ false
  unfolding scan
  scan_keeps [] s h = h
  scan_keeps (x ∷ xs) s h = scan_keeps xs (visit digest m x s) (visit_keeps x s h)

  check_head_keeps :
      (o : Option Head) (s : Scan)
      → is_empty s.problems ≡ false
      → is_empty (check_head digest m o s).problems ≡ false
  unfolding check_head
  check_head_keeps none s h = ground (arith, problem_keeps m head_missing s h)
  check_head_keeps (some k) s h =
      ground (arith, problem_keeps m (head_mismatch k.last_seq s.last_seq) s h)

  last_seq-visit : (x : Link) (s : Scan) → (visit digest m x s).last_seq ≡ some x.seq
  unfolding visit
  last_seq-visit x s = refl

  last_hash-visit : (x : Link) (s : Scan) → (visit digest m x s).last_hash ≡ x.stored_hash
  unfolding visit
  last_hash-visit x s = refl

  module _ (some_room : 0 < m) where
    -- A later row adds no problem exactly when it follows the last row and is sealed.
    visit_follows :
        (x : Link) (s : Scan) (f : ℕ)
        → s.first_seq ≡ some f
        → s.problems ≡ []
        → is_empty (visit digest m x s).problems ≡ true
        → (x.seq ≡ suc (or_zero s.last_seq)) × (x.stored_prev ≡ s.last_hash) × IsSealed digest x
    unfolding visit
    visit_follows x s f e clean h = ground (
      arith,
      eq_test x.stored_prev s.last_hash,
      eq_test (some (compute_record_hash digest x.seq (text_of x.stored_prev) x.values))
          x.stored_hash,
    )

    visit_clean :
        (x : Link) (s : Scan) (f : ℕ)
        → s.first_seq ≡ some f
        → s.problems ≡ []
        → x.seq ≡ suc (or_zero s.last_seq)
        → x.stored_prev ≡ s.last_hash
        → IsSealed digest x
        → (visit digest m x s).problems ≡ []
    unfolding visit
    visit_clean x s f e clean seq prev seal = ground (
      arith,
      eq_test x.stored_prev s.last_hash,
      eq_test (some (compute_record_hash digest x.seq (text_of x.stored_prev) x.values))
          x.stored_hash,
    )

    visit_first-IsSealed :
        (x : Link) → is_empty (visit digest m x start).problems ≡ true → IsSealed digest x
    unfolding visit
    visit_first-IsSealed x h = ground (
      arith,
      eq_test (some (compute_record_hash digest x.seq (text_of x.stored_prev) x.values))
          x.stored_hash,
    )

    visit_first_clean : (x : Link) → IsSealed digest x → (visit digest m x start).problems ≡ []
    unfolding visit
    visit_first_clean x h = ground (
      arith,
      eq_test (some (compute_record_hash digest x.seq (text_of x.stored_prev) x.values))
          x.stored_hash,
    )

    first-visit :
        (x : Link) (s : Scan) (f : ℕ)
        → s.first_seq ≡ some f
        → (visit digest m x s).first_seq ≡ some f
    unfolding visit
    first-visit x s f e = ground arith

    first-visit-start : (x : Link) → (visit digest m x start).first_seq ≡ some x.seq
    unfolding visit
    first-visit-start x = ground arith

    abbrev verdict : Option Head → List Link → Scan → Bool
    verdict o xs s = is_empty (check_head digest m o (scan digest m xs s)).problems

    clean_of_verdict :
        (o : Option Head) (xs : List Link) (s : Scan) → verdict o xs s ≡ true → s.problems ≡ []
    clean_of_verdict o xs s h = elim (Bool-cases (is_empty s.problems)) [
      | inl clean ↦ nil_of_empty s.problems clean
      | inr dirty ↦ cc (check_head_keeps o (scan digest m xs s) (scan_keeps xs s dirty))
    ]

    -- The walk, from a scan that has just visited `x` and found nothing.
    IsLinked-of_verdict :
        (h : Head) (xs : List Link) (x : Link) (s : Scan) (f : ℕ)
        → s.first_seq ≡ some f
        → s.last_seq ≡ some x.seq
        → s.last_hash ≡ x.stored_hash
        → verdict (some h) xs s ≡ true
        → IsLinked digest x xs h
    unfolding scan check_head
    IsLinked-of_verdict h [] x s f e n l v =
        let clean = clean_of_verdict (some h) [] s v in
        ground (
          arith,
          eq_test (some h.last_hash) s.last_hash,
          problem_dirty m (head_mismatch h.last_seq s.last_seq) s some_room,
        )
    IsLinked-of_verdict h (y ∷ ys) x s f e n l v =
        let clean = clean_of_verdict (some h) (y ∷ ys) s v in
        let clean' = clean_of_verdict (some h) ys (visit digest m y s) v in
        let follows = visit_follows y s f e clean (rw clean') in
        (
          follows.0 ∙ (rw n),
          follows.1 ∙ l,
          follows.2,
          IsLinked-of_verdict h ys y (visit digest m y s) f (first-visit y s f e)
              (last_seq-visit y s) (last_hash-visit y s) v,
        )

    verdict_of_linked :
        (h : Head) (xs : List Link) (x : Link) (s : Scan) (f : ℕ)
        → s.problems ≡ []
        → s.first_seq ≡ some f
        → s.last_seq ≡ some x.seq
        → s.last_hash ≡ x.stored_hash
        → IsLinked digest x xs h
        → (check_head digest m (some h) (scan digest m xs s)).problems ≡ []
    unfolding scan check_head
    verdict_of_linked h [] x s f clean e n l k =
        ground (arith, eq_test (some h.last_hash) s.last_hash)
    verdict_of_linked h (y ∷ ys) x s f clean e n l (seq, prev, seal, rest) =
        verdict_of_linked h ys y (visit digest m y s) f
          (visit_clean y s f e clean (seq ∙ (rw n)) (prev ∙ sym l) seal) (first-visit y s f e)
          (last_seq-visit y s) (last_hash-visit y s) rest

    no_head_dirty :
        (xs : List Link) (s : Scan) (n : ℕ) → s.last_seq ≡ some n → verdict none xs s ≡ false
    unfolding scan check_head
    no_head_dirty [] s n e = ground (arith, problem_dirty m head_missing s some_room)
    no_head_dirty (x ∷ xs) s n e = no_head_dirty xs (visit digest m x s) x.seq (last_seq-visit x s)

    IsChain-of_verdict :
        (o : Option Head) (xs : List Link) → verdict o xs start ≡ true → IsChain digest xs o
    unfolding scan check_head
    IsChain-of_verdict none [] v = tt
    IsChain-of_verdict (some h) [] v =
        ground (arith, problem_dirty m (head_mismatch h.last_seq none) start some_room)
    IsChain-of_verdict none (x ∷ xs) v =
        cc (no_head_dirty xs (visit digest m x start) x.seq (last_seq-visit x start))
    IsChain-of_verdict (some h) (x ∷ xs) v = (
      visit_first-IsSealed x (rw (clean_of_verdict (some h) xs (visit digest m x start) v)),
      IsLinked-of_verdict h xs x (visit digest m x start) x.seq (first-visit-start x)
          (last_seq-visit x start) (last_hash-visit x start) v,
    )

    verdict_of_chain :
        (o : Option Head) (xs : List Link) → IsChain digest xs o → verdict o xs start ≡ true
    unfolding scan check_head
    verdict_of_chain none [] c = refl
    verdict_of_chain (some h) [] c = ground arith
    verdict_of_chain none (x ∷ xs) c = absurd c
    verdict_of_chain (some h) (x ∷ xs) (seal, linked) = ap is_empty (
        verdict_of_linked h xs x (visit digest m x start) x.seq (visit_first_clean x seal)
          (first-visit-start x) (last_seq-visit x start) (last_hash-visit x start) linked)

    -- With room for a problem, the report is `ok` exactly for an intact chain: every record hash is
    -- the digest of its row, each row after the first continues the one before it, and the head is
    -- the last row. An empty chain is intact without a head, or at a head of sequence number 0.
    pub verify_chain_iff :
        (db : Db) → ((verify_chain digest m db).ok ≡ true) ↔ IsChain digest (chained db) db.head
    unfolding verify_chain
    verify_chain_iff db =
        (IsChain-of_verdict db.head (chained db), verdict_of_chain db.head (chained db))
