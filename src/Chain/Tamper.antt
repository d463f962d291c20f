-- ===== src/Chain/Tamper.antt =====
-- Tamper evidence: a head that was exported fixes every row that is still there.
use aegis_nexus.Common.{
  ℕ, ◌<◌, String, true, Option, none, some, List, [], ◌∷◌, ◌≡◌, refl, All, ap, sym,
}
use aegis_nexus.Chain.{
  Payload, Link, Head, Db, text_of, compute_record_hash, chained, chain_version,
}
use aegis_nexus.Chain.Verdict.{IsSealed, IsLinked, IsChain, verify_chain_iff}
use aegis_nexus.Chain.Verify.{verify_chain}

-- The rows from the newest to the oldest.
abbrev pub newest_first_onto : List Link → List Link → List Link
newest_first_onto [] acc = acc
newest_first_onto (x ∷ xs) acc = newest_first_onto xs (x ∷ acc)

abbrev pub newest_first : List Link → List Link
newest_first xs = newest_first_onto xs []

abbrev pub payload : Link → Payload
payload x = record {
  version = chain_version;
  chain_seq = x.seq;
  prev_hash = text_of x.stored_prev;
  values = x.values;
}

-- As far as both lists go, the rows have the same numbers, previous hashes and columns.
abbrev pub Agree : List Link → List Link → Type 0
Agree [] ys = Unit
Agree (x ∷ xs) [] = Unit
Agree (x ∷ xs) (y ∷ ys) = (payload x ≡ payload y) × Agree xs ys

module _ (digest : Payload → String) where
  -- No two different payloads among the rows have the same digest.
  abbrev pub IsCollisionFree : List Link → List Link → Type 0
  IsCollisionFree xs ys =
      All (λ x. All (λ y. digest (payload x) ≡ digest (payload y) → payload x ≡ payload y) ys) xs

  -- Each row is sealed and its hash stands in the row above it; `h` stands above the first.
  abbrev IsDown : Option String → List Link → Type 0
  IsDown h [] = Unit
  IsDown h (x ∷ xs) = (x.stored_hash ≡ h) × IsSealed digest x × IsDown x.stored_prev xs

  IsDown-IsLinked :
      (x : Link) (xs acc : List Link) (h : Head)
      → IsLinked digest x xs h
      → IsDown x.stored_hash (x ∷ acc)
      → IsDown (some h.last_hash) (newest_first_onto xs (x ∷ acc))
  IsDown-IsLinked x [] acc h (n, e) d = (e, d.1, d.2)
  IsDown-IsLinked x (y ∷ ys) acc h (n, prev, seal, rest) d =
      IsDown-IsLinked y ys (x ∷ acc) h rest (refl, seal, (sym prev, d.1, d.2))

  IsDown-IsChain :
      (xs : List Link) (h : Head)
      → IsChain digest xs (some h)
      → IsDown (some h.last_hash) (newest_first xs)
  IsDown-IsChain [] h c = tt
  IsDown-IsChain (x ∷ xs) h c = IsDown-IsLinked x xs [] h c.1 (refl, c.0, tt)

  -- Of two rows with one hash the payloads agree, and so do the hashes above the next rows.
  same_payload :
      (x y : Link) (h h' : Option String)
      → x.stored_hash ≡ h
      → y.stored_hash ≡ h'
      → h ≡ h'
      → IsSealed digest x
      → IsSealed digest y
      → (digest (payload x) ≡ digest (payload y) → payload x ≡ payload y)
      → payload x ≡ payload y
  unfolding compute_record_hash
  same_payload x y h h' e e' same seal seal' free = free (cc)

  IsCollisionFree-tail :
      (y : Link) (xs ys : List Link) → IsCollisionFree xs (y ∷ ys) → IsCollisionFree xs ys
  IsCollisionFree-tail y [] ys f = tt
  IsCollisionFree-tail y (x ∷ xs) ys f = (f.0.1, IsCollisionFree-tail y xs ys f.1)

  -- The hash above the next row, as text.
  IsDown-text_cons :
      (o : Option String) (x : Link) (xs : List Link)
      → IsDown o (x ∷ xs)
      → IsDown (some (text_of o)) (x ∷ xs)
  IsDown-text_cons none x xs d = cc (d.0, d.1)
  IsDown-text_cons (some h) x xs d = d

  IsDown-text : (o : Option String) (xs : List Link) → IsDown o xs → IsDown (some (text_of o)) xs
  IsDown-text o [] d = tt
  IsDown-text o (x ∷ xs) d = IsDown-text_cons o x xs d

  Agree-IsDown :
      (h : Option String) (xs ys : List Link)
      → IsDown h xs
      → IsDown h ys
      → IsCollisionFree xs ys
      → Agree xs ys
  Agree-IsDown h [] ys d d' f = tt
  Agree-IsDown h (x ∷ xs) [] d d' f = tt
  Agree-IsDown h (x ∷ xs) (y ∷ ys) d d' f =
      let same = same_payload x y h h d.0 d'.0 refl d.1 d'.1 f.0.0 in
      (
        same,
        Agree-IsDown (some (text_of x.stored_prev)) xs ys (IsDown-text x.stored_prev xs d.2)
            (rw (ap (λ (p : Payload). p.prev_hash) same) (IsDown-text y.stored_prev ys d'.2))
            (IsCollisionFree-tail y xs ys f.1),
      )

  -- Two databases that verify and have the same head, as one and its tampered copy against an
  -- exported head: if no two of their rows collide under the digest, then from the newest row down,
  -- as far as both go, they hold the same sequence numbers, previous hashes and columns.
  pub verify_chain_binding :
      (m : ℕ) (db db' : Db)
      → 0 < m
      → (verify_chain digest m db).ok ≡ true
      → (verify_chain digest m db').ok ≡ true
      → db.head ≡ db'.head
      → IsCollisionFree (newest_first (chained db)) (newest_first (chained db'))
      → Agree (newest_first (chained db)) (newest_first (chained db'))
  verify_chain_binding m db db' room ok ok' same free =
      go (chained db) (chained db') db.head ((verify_chain_iff digest m room db).0 ok)
        (rw same ((verify_chain_iff digest m room db').0 ok')) free
    where
      go :
          (xs ys : List Link) (o : Option Head)
          → IsChain digest xs o
          → IsChain digest ys o
          → IsCollisionFree (newest_first xs) (newest_first ys)
          → Agree (newest_first xs) (newest_first ys)
      go xs ys (some h) c c' f =
          Agree-IsDown (some h.last_hash) (newest_first xs) (newest_first ys)
            (IsDown-IsChain xs h c) (IsDown-IsChain ys h c') f
      go [] ys none c c' f = tt
      go (x ∷ xs) ys none c c' f = absurd c
