-- ===== src/Chain/Ingest.antt =====
-- `Store.ingest` of src/aegis_nexus/store.py as far as events and their chain go: the transaction, and
-- the maintenance that every hundredth call runs after it.
use aegis_nexus.Common.{
  ℕ, ◌+◌, ◌-◌, ◌≤◌, ◌<◌, String, true, ltb, leb, if◌then◌else◌, none, some, List, [], ◌∷◌, ◌≡◌, ◌⊎◌,
  refl, ◌∙◌, arith, length, Bool-cases, Option-cases, inl, inr,
}
use aegis_nexus.Chain.{Payload, Columns, Head, Db, chained, insert_event}
use aegis_nexus.Chain.Verdict.{verify_chain_iff}
use aegis_nexus.Chain.Verify.{verify_chain}
use aegis_nexus.Chain.Append.{insert_event-IsChain, insert_event-head}
use aegis_nexus.Chain.Retention.{prune, enforce_capacity}
use aegis_nexus.Chain.Gaps.{
  KeepsEnd, is_retained, is_within_capacity, prune_verdict, enforce_capacity_verdict,
}

-- retention_days and max_events of the store.
pub record Bounds : Type 0 where
  pub retention_days : ℕ
  pub max_events : ℕ

-- The database, and how many events were ingested since the last maintenance.
pub record Store : Type 0 where
  pub db : Db
  pub ingest_since_maintenance : ℕ

-- `maintain`, not forced: `cutoff` is the time that the days of retention give at this moment.
unfoldable pub maintain : Bounds → String → Store → Store
maintain b cutoff s = if ltb s.ingest_since_maintenance 100 then s else record {
  db = enforce_capacity b.max_events (prune b.retention_days cutoff s.db);
  ingest_since_maintenance = 0;
}

-- An event, with the cutoff of a maintenance that runs after it.
pub record Arrival : Type 0 where
  pub values : Columns
  pub cutoff : String

-- A deletion that takes the oldest rows of the chain, or nothing, and leaves some.
abbrev pub PrunesOldest : Bounds → String → Db → Type 0
PrunesOldest b cutoff db = (b.retention_days ≡ 0) ⊎ KeepsEnd (is_retained cutoff) (chained db)

abbrev pub CapsOldest : Bounds → Db → Type 0
CapsOldest b db =
    (length db.events ≤ b.max_events) ⊎ KeepsEnd (is_within_capacity b.max_events db) (chained db)

module _ (digest : Payload → String) (b : Bounds) where
  -- A repeated id raises before the count and the maintenance.
  unfoldable pub ingest : Arrival → Store → Store
  unfolding insert_event maintain
  ingest a s = elim (insert_event digest s.db a.values) [
    | none ↦ s
    | some db ↦
        maintain b a.cutoff
          (record { db = db; ingest_since_maintenance = s.ingest_since_maintenance + 1 })
  ]

  unfoldable pub ingest_all : List Arrival → Store → Store
  unfolding ingest
  ingest_all [] s = s
  ingest_all (a ∷ rest) s = ingest_all rest (ingest a s)

  -- Where a maintenance runs after the event, it takes the oldest rows of the chain only.
  abbrev pub MaintainsOldest : Arrival → Store → Type 0
  MaintainsOldest a s =
      (db : Db)
      → insert_event digest s.db a.values ≡ some db
      → 100 ≤ s.ingest_since_maintenance + 1
      → PrunesOldest b a.cutoff db × CapsOldest b (prune b.retention_days a.cutoff db)

  abbrev pub AllMaintainOldest : List Arrival → Store → Type 0
  AllMaintainOldest [] s = Unit
  AllMaintainOldest (a ∷ rest) s = MaintainsOldest a s × AllMaintainOldest rest (ingest a s)

  module _ (m : ℕ) (room : 0 < m) where
    prune-head : (cutoff : String) (db : Db) → (prune b.retention_days cutoff db).head ≡ db.head
    unfolding prune
    prune-head cutoff db = elim (Bool-cases (leb b.retention_days 0)) [
      | inl never ↦ rw never refl
      | inr some_days ↦ rw some_days refl
    ]

    prune-verify_chain :
        (cutoff : String) (db : Db) (h : Head)
        → db.head ≡ some h
        → 0 < h.last_seq
        → PrunesOldest b cutoff db
        → (verify_chain digest m db).ok ≡ true
        → (verify_chain digest m (prune b.retention_days cutoff db)).ok ≡ true
    unfolding prune
    prune-verify_chain cutoff db h e pos (inl never) ok = rw never ok
    prune-verify_chain cutoff db h e pos (inr oldest) ok =
        elim (Bool-cases (leb b.retention_days 0)) [
          | inl never ↦ rw never ok
          | inr some_days ↦
              (prune_verdict digest m db h room e pos ok b.retention_days cutoff (ground arith)).1
                oldest
        ]

    capacity-verify_chain :
        (db : Db) (h : Head)
        → db.head ≡ some h
        → 0 < h.last_seq
        → CapsOldest b db
        → (verify_chain digest m db).ok ≡ true
        → (verify_chain digest m (enforce_capacity b.max_events db)).ok ≡ true
    unfolding enforce_capacity
    capacity-verify_chain db h e pos caps ok =
        elim (Bool-cases (leb (length db.events) b.max_events)) [
          | inl fits ↦
              let nothing : leb (length db.events - b.max_events) 0 ≡ true = ground arith in
              rw nothing ok
          | inr over ↦ elim caps [
            | inl fits ↦ absurd (ground arith)
            | inr oldest ↦
                (enforce_capacity_verdict digest m db h room e pos ok b.max_events (ground arith)).1
                  oldest
          ]
        ]

    ingest-verify_chain :
        (a : Arrival) (s : Store)
        → MaintainsOldest a s
        → (verify_chain digest m s.db).ok ≡ true
        → (verify_chain digest m (ingest a s).db).ok ≡ true
    unfolding ingest maintain
    ingest-verify_chain a s oldest ok = elim (Option-cases (insert_event digest s.db a.values)) [
      | inl repeated ↦ rw (ingest, repeated) ok
      | inr (db, inserted) ↦
          let intact =
            insert_event-IsChain digest s.db db a.values
              (inl ((verify_chain_iff digest m room s.db).0 ok)) inserted in
          let added = (verify_chain_iff digest m room db).1 intact in
          let (h, e, pos) = insert_event-head digest s.db db a.values inserted in
          elim (Bool-cases (ltb (s.ingest_since_maintenance + 1) 100)) [
            | inl later ↦ rw (ingest, inserted, maintain, later) added
            | inr now ↦
                let (prunes, caps) = oldest db inserted (ground arith) in
                let pruned = prune b.retention_days a.cutoff db in
                rw (ingest, inserted, maintain, now)
                  (capacity-verify_chain pruned h (prune-head a.cutoff db ∙ e) pos caps
                    (prune-verify_chain a.cutoff db h e pos prunes added))
          ]
    ]

    -- From a database whose chain verifies, such as an empty one, the chain verifies after any calls of
    -- ingest one after another, repeated ids included, provided that each maintenance that a call runs
    -- deletes, of the chain, nothing or its oldest rows but not all of them, by age and then by
    -- capacity.
    pub ingest_all-verify_chain :
        (arrivals : List Arrival) (s : Store)
        → AllMaintainOldest arrivals s
        → (verify_chain digest m s.db).ok ≡ true
        → (verify_chain digest m (ingest_all arrivals s).db).ok ≡ true
    unfolding ingest_all
    ingest_all-verify_chain [] s oldest ok = ok
    ingest_all-verify_chain (a ∷ rest) s oldest ok =
        ingest_all-verify_chain rest (ingest a s) oldest.1 (ingest-verify_chain a s oldest.0 ok)
