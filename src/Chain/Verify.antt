-- ===== src/Chain/Verify.antt =====
-- `verify_chain` of src/aegis_nexus/event_chain.py: the walk over the chained rows and the report.
use aegis_nexus.Common.{
  ℕ, ◌+◌, String, Bool, true, false, Option, none, some, List, [], ◌∷◌, ◌++◌, ltb, not,
  if◌then◌else◌, ◌==◌, ◌||◌, length, is_empty, string_eq, nat_eq, option_eq,
}
use aegis_nexus.Chain.{
  Payload, Link, Head, Db, genesis_hash, text_of, compute_record_hash, chained, count_legacy,
}

pub data Problem : Type 0 where
  sequence_gap : Option ℕ → ℕ → Problem
  broken_link : ℕ → String → Problem
  record_hash_mismatch : ℕ → String → Problem
  head_missing : Problem
  head_mismatch : ℕ → Option ℕ → Problem

-- The variables of the walk.
pub record Scan : Type 0 where
  pub problems : List Problem
  pub truncated : Bool
  pub verified : ℕ
  pub first_seq : Option ℕ
  pub last_seq : Option ℕ
  pub last_hash : Option String

pub record Report : Type 0 where
  pub ok : Bool
  pub records_verified : ℕ
  pub unchained_legacy : ℕ
  pub pruned_before : Option ℕ
  pub head_seq : ℕ
  pub head_hash : String
  pub problems : List Problem
  pub problems_truncated : Bool

abbrev pub start : Scan
start = record {
  problems = [];
  truncated = false;
  verified = 0;
  first_seq = none;
  last_seq = none;
  last_hash = none;
}

-- `last_seq or 0`
abbrev pub or_zero : Option ℕ → ℕ
or_zero none = 0
or_zero (some n) = n

-- The helper `problem`.
unfoldable pub problem : ℕ → Problem → Scan → Scan
problem max_problems p s =
    if ltb (length s.problems) max_problems
    then record s { problems = s.problems ++ p ∷ [] }
    else record s { truncated = true }

abbrev pub problem_if : Bool → ℕ → Problem → Scan → Scan
problem_if b max_problems p s = if b then problem max_problems p s else s

module _ (digest : Payload → String) (max_problems : ℕ) where
  -- The first row is the anchor; any later one continues the row before it.
  unfoldable pub check_link : Link → Scan → Scan
  unfolding problem
  check_link row s = elim s.first_seq [
    | none ↦ record s { first_seq = some row.seq }
    | some first ↦
        problem_if (not (row.stored_prev == s.last_hash)) max_problems
          (broken_link row.seq row.values.id)
          (problem_if (not (row.seq == or_zero s.last_seq + 1)) max_problems
            (sequence_gap s.last_seq row.seq) s)
  ]

  unfoldable pub check_hash : Link → Scan → Scan
  unfolding problem
  check_hash row s =
      if some (compute_record_hash digest row.seq (text_of row.stored_prev) row.values)
        == row.stored_hash
      then record s { verified = s.verified + 1 }
      else problem max_problems (record_hash_mismatch row.seq row.values.id) s

  -- The body of the loop.
  unfoldable pub visit : Link → Scan → Scan
  unfolding check_link check_hash
  visit row s = record (check_hash row (check_link row s)) {
    last_seq = some row.seq;
    last_hash = row.stored_hash;
  }

  unfoldable pub scan : List Link → Scan → Scan
  scan [] s = s
  scan (row ∷ rows) s = scan rows (visit row s)

  unfoldable pub check_head : Option Head → Scan → Scan
  unfolding problem
  check_head none s = elim s.last_seq [ none ↦ s | some n ↦ problem max_problems head_missing s ]
  check_head (some h) s =
      problem_if
        (not (h.last_seq == or_zero s.last_seq)
          || (elim s.last_seq [ none ↦ false | some n ↦ not (some h.last_hash == s.last_hash) ]))
        max_problems (head_mismatch h.last_seq s.last_seq) s

  unfoldable pub report_of : Db → Scan → Report
  report_of db s = record {
    ok = is_empty s.problems;
    records_verified = s.verified;
    unchained_legacy = count_legacy db.events;
    pruned_before = elim s.first_seq [ none ↦ none | some n ↦ if ltb 1 n then some n else none ];
    head_seq = elim db.head [ none ↦ 0 | some h ↦ h.last_seq ];
    head_hash = elim db.head [ none ↦ genesis_hash | some h ↦ h.last_hash ];
    problems = s.problems;
    problems_truncated = s.truncated;
  }

  unfoldable pub verify_chain : Db → Report
  unfolding scan visit check_head report_of
  verify_chain db = report_of db (check_head db.head (scan (chained db) start))
