-- ===== src/Chain/Order.antt =====
-- Deleting rows commutes with reading the chain in order.
use aegis_nexus.Common.{
  ℕ, ◌≤◌, Bool, List, [], ◌∷◌, ◌≡◌, refl, arith, leb, leb→le, if◌then◌else◌, All, All-keep, keep,
  Bool-cases, inl, inr, ap, ◌∙◌,
}
use aegis_nexus.Chain.{Columns, Event, Link, Db, chained, select_chained, insert_link, order_links}
use aegis_nexus.Chain.Retention.{delete_unless}

select_chained-keep :
    (p : Columns → Bool) (es : List Event)
    → select_chained (keep (λ e. p e.values) es) ≡ keep (λ l. p l.values) (select_chained es)
select_chained-keep p [] = refl
select_chained-keep p (e ∷ es) = ground (arith, select_chained-keep p es)

abbrev IsAscending : List Link → Type 0
IsAscending [] = Unit
IsAscending (x ∷ xs) = All (λ y. x.seq ≤ y.seq) xs × IsAscending xs

All-insert :
    (n : ℕ) (x : Link) (xs : List Link)
    → n ≤ x.seq
    → All (λ y. n ≤ y.seq) xs
    → All (λ y. n ≤ y.seq) (insert_link x xs)
unfolding insert_link
All-insert n x [] h a = (h, tt)
All-insert n x (y ∷ ys) h a = ground (arith, All-insert n x ys h a.1)

pub All-lower :
    (a b : ℕ) (xs : List Link) → a ≤ b → All (λ y. b ≤ y.seq) xs → All (λ y. a ≤ y.seq) xs
All-lower a b [] h k = tt
All-lower a b (x ∷ xs) h k = (omega (arith, k.0), All-lower a b xs h k.1)

insert_link-IsAscending :
    (x : Link) (xs : List Link) → IsAscending xs → IsAscending (insert_link x xs)
unfolding insert_link
insert_link-IsAscending x [] h = (tt, tt)
insert_link-IsAscending x (y ∷ ys) h =
    ground
      (arith, insert_link-IsAscending x ys h.1, All-insert y.seq x ys, All-lower x.seq y.seq ys)

order_links-IsAscending : (xs : List Link) → IsAscending (order_links xs)
unfolding order_links
order_links-IsAscending [] = tt
order_links-IsAscending (x ∷ xs) =
    insert_link-IsAscending x (order_links xs) (order_links-IsAscending xs)

insert_link_least :
    (x : Link) (xs : List Link) → All (λ y. x.seq ≤ y.seq) xs → insert_link x xs ≡ x ∷ xs
unfolding insert_link
insert_link_least x [] h = refl
insert_link_least x (y ∷ ys) h = ground arith

module _ (p : Columns → Bool) where
  abbrev pub passing : List Link → List Link
  passing = keep (λ l. p l.values)

  keep-insert_link :
      (x : Link) (xs : List Link)
      → IsAscending xs
      → passing (insert_link x xs) ≡ (if p x.values then insert_link x (passing xs) else passing xs)
  unfolding insert_link
  keep-insert_link x [] h = ground arith
  keep-insert_link x (y ∷ ys) h = elim (Bool-cases (leb x.seq y.seq)) [
    | inl first ↦
        let least =
          All-keep (λ z. x.seq ≤ z.seq) (λ l. p l.values) (y ∷ ys)
            (leb→le x.seq y.seq first, All-lower x.seq y.seq ys (leb→le x.seq y.seq first) h.0) in
        rw (first, insert_link_least x (passing (y ∷ ys)) least) (ground arith)
    | inr later ↦ rw later (ground (arith, keep-insert_link x ys h.1))
  ]

  -- Filtering the rows filters the ordered rows.
  pub order_links-keep : (xs : List Link) → order_links (passing xs) ≡ passing (order_links xs)
  unfolding order_links
  order_links-keep [] = refl
  order_links-keep (x ∷ xs) =
      ground (
        arith,
        order_links-keep xs,
        keep-insert_link x (order_links xs) (order_links-IsAscending xs),
      )

  pub chained-delete_unless : (db : Db) → chained (delete_unless p db) ≡ passing (chained db)
  unfolding chained
  chained-delete_unless db =
      ap order_links (select_chained-keep p db.events) ∙ order_links-keep (select_chained db.events)
