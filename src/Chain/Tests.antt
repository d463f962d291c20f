-- ===== src/Chain/Tests.antt =====
-- The chain on concrete events, and instances of its theorems.
use mathlib.Core.Path.{subst}
use aegis_nexus.Common.Rows.{some_inj}
use mathlib.Core.Bool.{false≢true}
use text.Mathlib.TextEquality.{eq_iff}
use aegis_nexus.Common.{
  inl, inr, zero, suc, ◌<◌, String, true, false, none, some, [], ◌∷◌, ◌≡◌, ◌↔◌, refl, arith, sym,
  string_eq, nat_eq,
}
use aegis_nexus.Chain.{
  Payload, Columns, Head, Db, chained, count_legacy, compute_record_hash, insert_event,
}
use aegis_nexus.Chain.Verify.{verify_chain, head_mismatch}
use aegis_nexus.Chain.Verdict.{IsChain, verify_chain_iff}
use aegis_nexus.Chain.Ingest.{
  Bounds, Store, Arrival, PrunesOldest, CapsOldest, MaintainsOldest, maintain, ingest, ingest_all,
  ingest_all-verify_chain,
}
use aegis_nexus.Chain.Tamper.{Agree, newest_first, verify_chain_binding}
use aegis_nexus.Chain.Retention.{prune, enforce_capacity}
use aegis_nexus.Chain.Gaps.{
  KeepsEnd, is_retained, is_within_capacity, prune_verdict, enforce_capacity_verdict,
}

program : Unit {0}
unfolding compute_record_hash insert_event maintain ingest_all ingest verify_chain chained
    count_legacy prune enforce_capacity
program = tt

-- A stand-in for the digest: the observed text.
abbrev digest : Payload → String
digest p = elim p.values.observed [ none ↦ "-" | some text ↦ text ]

abbrev event : String → String → String → Columns
event id received observed = record {
  id = id;
  timestamp = none;
  collector_received_at = received;
  honeypot = none;
  event_type = none;
  severity = none;
  source_ip = none;
  session_id = none;
  schema_version = none;
  observed = some observed;
  enrichment = none;
  derived = none;
  hypotheses = none;
  collector = none;
}

abbrev empty : Db
empty = record { events = []; head = none }

abbrev bounds : Bounds
bounds = record { retention_days = 30; max_events = 2 }

abbrev arrival : String → String → String → Arrival
arrival id received observed = record { values = event id received observed; cutoff = "2026-01-01" }

-- The second event was received before the first one, but took the write lock after it.
abbrev stored : Db
stored =
    (ingest_all digest bounds (arrival "b" "2026-01-02" "x" ∷ arrival "a" "2026-01-01" "y" ∷ [])
      (record { db = empty; ingest_since_maintenance = 0 })).db

stored_ok : (verify_chain digest 20 stored).ok ≡ true
unfolding program
stored_ok = refl

stored_head : Head
stored_head = record { last_seq = 2; last_hash = "y" }

head-stored : stored.head ≡ some stored_head
unfolding program stored_head
head-stored = refl

seq-stored_head : 0 < stored_head.last_seq
unfolding stored_head
seq-stored_head = omega arith

repeated_id : insert_event digest stored (event "a" "2026-01-03" "z") ≡ none
unfolding program
repeated_id = refl

verify_chain_iff_example :
    ((verify_chain digest 20 stored).ok ≡ true) ↔ IsChain digest (chained stored) stored.head
verify_chain_iff_example = verify_chain_iff digest 20 (omega arith) stored

-- The hundredth call: the maintenance after it takes the first record of two, by age.
abbrev ninety_nine : Store
ninety_nine = record {
  db =
      (ingest_all digest bounds (arrival "o" "2025-12-01" "x" ∷ [])
        (record { db = empty; ingest_since_maintenance = 0 })).db;
  ingest_since_maintenance = 99;
}

maintained :
    (ingest_all digest bounds (arrival "c" "2026-01-03" "z" ∷ []) ninety_nine).db.head
    ≡ some (record { last_seq = 2; last_hash = "z" })
unfolding program
maintained = refl

oldest : MaintainsOldest digest bounds (arrival "c" "2026-01-03" "z") ninety_nine
unfolding program
oldest db inserted late =
    subst
      (λ x.
        PrunesOldest bounds "2026-01-01" x
        × CapsOldest bounds (prune bounds.retention_days "2026-01-01" x))
      (some_inj _ db inserted) (inr (inr (refl, inl (refl, tt))), inl (omega arith))

ingest_all-verify_chain_example :
    (verify_chain digest 20
      (ingest_all digest bounds (arrival "c" "2026-01-03" "z" ∷ []) ninety_nine).db).ok
    ≡ true
unfolding program
ingest_all-verify_chain_example =
    ingest_all-verify_chain digest bounds 20 (omega arith) (arrival "c" "2026-01-03" "z" ∷ [])
      ninety_nine (oldest, tt) refl

x_not_y : ◌≡◌ {A = String} "x" "y" → ⊥
x_not_y e = false≢true ((eq_iff "x" "y").1 e)

verify_chain_binding_example : Agree (newest_first (chained stored)) (newest_first (chained stored))
unfolding program
verify_chain_binding_example =
    verify_chain_binding digest 20 stored stored (omega arith) stored_ok stored_ok refl (
      ((λ e. refl), ((λ e. absurd (x_not_y (sym e))), tt)),
      (((λ e. absurd (x_not_y e)), ((λ e. refl), tt)), tt),
    )

-- Retention at a cutoff between the two removes the second record of the chain and keeps the first.
prune_verdict_example :
    ((verify_chain digest 20 (prune 30 "2026-01-02" stored)).ok ≡ true)
    ↔ KeepsEnd (is_retained "2026-01-02") (chained stored)
prune_verdict_example =
    prune_verdict digest 20 stored stored_head (omega arith) head-stored seq-stored_head stored_ok
      30 "2026-01-02" (omega arith)

prune_breaks : (verify_chain digest 20 (prune 30 "2026-01-02" stored)).ok ≡ false
unfolding program
prune_breaks = refl

-- A pass that removes every record is reported too.
prune_all_breaks :
    (verify_chain digest 20 (prune 30 "2027-01-01" stored)).problems ≡ head_mismatch 2 none ∷ []
unfolding program
prune_all_breaks = refl

more_than_one : 1 < suc (suc zero)
more_than_one = omega arith

enforce_capacity_verdict_example :
    ((verify_chain digest 20 (enforce_capacity 1 stored)).ok ≡ true)
    ↔ KeepsEnd (is_within_capacity 1 stored) (chained stored)
unfolding program
enforce_capacity_verdict_example =
    enforce_capacity_verdict digest 20 stored stored_head (omega arith) head-stored seq-stored_head
      stored_ok 1 (omega arith)

capacity_breaks : (verify_chain digest 20 (enforce_capacity 1 stored)).ok ≡ false
unfolding program
capacity_breaks = refl
