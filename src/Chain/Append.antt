-- ===== src/Chain/Append.antt =====
-- `append_record` extends an intact chain by one record.
use aegis_nexus.Common.{
  ℕ, suc, ◌+◌, ◌≤◌, ◌<◌, String, false, Option, none, some, List, [], ◌∷◌, ◌++◌, ◌≡◌, ◌⊎◌, refl,
  arith, any, ◌==◌, ==_self, string_eq, All, inl, inr, ap, ◌∙◌, sym,
}
use aegis_nexus.Chain.{
  Payload, Columns, Event, Link, Head, Db, compute_record_hash, chained, select_chained,
  insert_link, order_links, stamp, unchained, head_or_genesis, append_record, insert_event,
}
use aegis_nexus.Chain.Verdict.{IsSealed, IsLinked, IsChain}

-- The link that stands for a row just chained.
abbrev pub link_of : ℕ → String → String → Columns → Link
link_of seq prev hash values = record {
  seq = seq;
  stored_prev = some prev;
  stored_hash = some hash;
  values = values;
}

select_chained-stamp :
    (seq : ℕ) (prev hash : String) (values : Columns) (es : List Event)
    → any (λ e. e.values.id == values.id) es ≡ false
    → select_chained (stamp values.id seq prev hash (es ++ unchained values ∷ []))
      ≡ select_chained es ++ link_of seq prev hash values ∷ []
select_chained-stamp seq prev hash values [] h = ground (arith, ==_self values.id)
select_chained-stamp seq prev hash values (e ∷ es) h =
    ground (arith, select_chained-stamp seq prev hash values es)

insert_link-append :
    (x l : Link) (xs : List Link)
    → x.seq ≤ l.seq
    → insert_link x (xs ++ l ∷ []) ≡ insert_link x xs ++ l ∷ []
unfolding insert_link
insert_link-append x l [] h = ground arith
insert_link-append x l (y ∷ ys) h = ground (arith, insert_link-append x l ys h)

order_links-append :
    (l : Link) (xs : List Link)
    → All (λ x. x.seq ≤ l.seq) xs
    → order_links (xs ++ l ∷ []) ≡ order_links xs ++ l ∷ []
unfolding order_links insert_link
order_links-append l [] h = refl
order_links-append l (x ∷ xs) h =
    ap (insert_link x) (order_links-append l xs h.1) ∙ insert_link-append x l (order_links xs) h.0

All-insert_link :
    (n : ℕ) (x : Link) (xs : List Link)
    → All (λ y. y.seq ≤ n) (insert_link x xs)
    → (x.seq ≤ n) × All (λ y. y.seq ≤ n) xs
unfolding insert_link
All-insert_link n x [] h = (h.0, tt)
All-insert_link n x (y ∷ ys) h = ground (arith, All-insert_link n x ys)

All-order_links :
    (n : ℕ) (xs : List Link) → All (λ y. y.seq ≤ n) (order_links xs) → All (λ y. y.seq ≤ n) xs
unfolding order_links
All-order_links n [] h = tt
All-order_links n (x ∷ xs) h =
    let parts = All-insert_link n x (order_links xs) h in (parts.0, All-order_links n xs parts.1)

module _ (digest : Payload → String) where
  IsLinked-bound :
      (x : Link) (xs : List Link) (h : Head)
      → IsLinked digest x xs h
      → (x.seq ≤ h.last_seq) × All (λ y. y.seq ≤ h.last_seq) xs
  IsLinked-bound x [] h k = (omega arith, tt)
  IsLinked-bound x (y ∷ ys) h (seq, prev, seal, rest) =
      let parts = IsLinked-bound y ys h rest in (omega (arith, parts.0), parts)

  IsLinked-append :
      (x : Link) (xs : List Link) (h : Head) (l : Link) (h' : Head)
      → IsLinked digest x xs h
      → l.seq ≡ suc h.last_seq
      → l.stored_prev ≡ some h.last_hash
      → IsSealed digest l
      → h'.last_seq ≡ l.seq
      → l.stored_hash ≡ some h'.last_hash
      → IsLinked digest x (xs ++ l ∷ []) h'
  IsLinked-append x [] h l h' k seq prev seal n e = (seq ∙ ap suc k.0, prev ∙ sym k.1, seal, (n, e))
  IsLinked-append x (y ∷ ys) h l h' (a, b, c, k) seq prev seal n e =
      (a, b, c, IsLinked-append y ys h l h' k seq prev seal n e)

  -- Ready for a record: the chain is intact, or retention has removed every chained row.
  abbrev pub IsReady : Db → Type 0
  IsReady db = IsChain digest (chained db) db.head ⊎ (chained db ≡ [])

  All-later : (a b : ℕ) (xs : List Link) → a ≤ b → All (λ x. x.seq ≤ a) xs → All (λ x. x.seq ≤ b) xs
  All-later a b [] le h = tt
  All-later a b (x ∷ xs) le h = (omega (arith, h.0), All-later a b xs le h.1)

  IsChain-bound :
      (rows : List Link) (o : Option Head)
      → IsChain digest rows o
      → All (λ x. x.seq ≤ (head_or_genesis o).last_seq + 1) rows
  IsChain-bound [] o c = tt
  IsChain-bound (x ∷ xs) none c = absurd c
  IsChain-bound (x ∷ xs) (some h) c =
      All-later h.last_seq (h.last_seq + 1) (x ∷ xs) (omega arith) (IsLinked-bound x xs h c.1)

  seqs_bound :
      (db : Db)
      → IsReady db
      → All (λ x. x.seq ≤ (head_or_genesis db.head).last_seq + 1) (select_chained db.events)
  unfolding chained
  seqs_bound db (inl c) =
      All-order_links ((head_or_genesis db.head).last_seq + 1) (select_chained db.events)
        (IsChain-bound (chained db) db.head c)
  seqs_bound db (inr e) =
      All-order_links ((head_or_genesis db.head).last_seq + 1) (select_chained db.events) (rw e tt)

  -- The link of the next record.
  abbrev pub next_link : Db → Columns → Link
  next_link db values =
      let prev = head_or_genesis db.head in
      link_of (prev.last_seq + 1) prev.last_hash
        (compute_record_hash digest (prev.last_seq + 1) prev.last_hash values) values

  abbrev pub next_head : Db → Columns → Head
  next_head db values =
      let prev = head_or_genesis db.head in
      record {
        last_seq = prev.last_seq + 1;
        last_hash = compute_record_hash digest (prev.last_seq + 1) prev.last_hash values;
      }

  abbrev appended : Db → Columns → Db
  appended db values =
      append_record digest (record db { events = db.events ++ unchained values ∷ [] }) values

  insert_event-appended :
      (db db' : Db) (values : Columns)
      → insert_event digest db values ≡ some db'
      → (any (λ e. e.values.id == values.id) db.events ≡ false) × (db' ≡ appended db values)
  unfolding insert_event
  insert_event-appended db db' values e = ground arith

  chained-appended :
      (db : Db) (values : Columns)
      → IsReady db
      → any (λ e. e.values.id == values.id) db.events ≡ false
      → chained (appended db values) ≡ chained db ++ next_link db values ∷ []
  unfolding append_record chained
  chained-appended db values r fresh =
      let prev = head_or_genesis db.head in
      let seq = prev.last_seq + 1 in
      ap order_links (
        select_chained-stamp seq prev.last_hash
          (compute_record_hash digest seq prev.last_hash values) values db.events fresh)
      ∙ order_links-append (next_link db values) (select_chained db.events) (seqs_bound db r)

  -- A next record makes an intact chain, on an intact chain or on an empty one.
  IsChain-append :
      (db : Db) (values : Columns)
      → IsReady db
      → IsChain digest (chained db ++ next_link db values ∷ []) (some (next_head db values))
  unfolding compute_record_hash
  IsChain-append db values (inr e) = rw e (refl, (refl, refl))
  IsChain-append db values (inl c) = go (chained db) db.head refl c
    where
      go :
          (rows : List Link) (o : Option Head)
          → db.head ≡ o
          → IsChain digest rows o
          → IsChain digest (rows ++ next_link db values ∷ []) (some (next_head db values))
      go [] o e c = (refl, (refl, refl))
      go (x ∷ xs) none e c = absurd c
      go (x ∷ xs) (some h) e c = (
        c.0,
        IsLinked-append x xs h (next_link db values) (next_head db values) c.1
            (rw (e) (omega arith)) (rw e) refl refl refl,
      )

  -- Whatever the database, an insertion on an intact chain, or on one that retention emptied, leaves
  -- an intact chain.
  pub insert_event-IsChain :
      (db db' : Db) (values : Columns)
      → IsReady db
      → insert_event digest db values ≡ some db'
      → IsChain digest (chained db') db'.head
  unfolding append_record
  insert_event-IsChain db db' values r e =
      let (fresh, same) = insert_event-appended db db' values e in
      rw (same, chained-appended db values r fresh) (IsChain-append db values r)

  pub insert_event-head :
      (db db' : Db) (values : Columns)
      → insert_event digest db values ≡ some db'
      → (h : Head) × (db'.head ≡ some h) × (0 < h.last_seq)
  unfolding append_record
  insert_event-head db db' values e =
      let (fresh, same) = insert_event-appended db db' values e in
      (next_head db values, rw same refl, omega arith)
