-- ===== src/Audit/Tests.antt =====
-- The audit log on concrete entries, and instances of its theorems.
use aegis_nexus.Common.{
  ◌+◌, ◌*◌, true, ◌≤◌, not, none, some, [], ◌∷◌, length, ◌≡◌, refl, arith, is_empty, inr,
}
use aegis_nexus.Common.Dict.{put}
use aegis_nexus.Common.Order.{order_by, insert_by}
use aegis_nexus.Audit.{
  scalar, bool, system_operator, retention_prune_action, audit_target, success_outcome,
  truncated_key, Library, Log, Row, Entry, sanitize_scalar, sanitize_value, sanitize_entries,
  sanitize_detail, expire, enforce_retention, record_entry, row_of, list_entries,
}
use aegis_nexus.Audit.Retention.{Recorded, record_entry-Recorded, length-record_entry}
use aegis_nexus.Audit.Sanitize.{IsSafe, row_of-IsSafe}

program : Unit {0}
unfolding put order_by insert_by sanitize_scalar sanitize_value sanitize_entries sanitize_detail
    expire enforce_retention record_entry list_entries
program = tt

abbrev ascii : Library
ascii = record {
  strip = λ text. text;
  lower = λ text. text;
  matches_action = λ text. not (is_empty text);
  ip_address = λ text. none;
  dumps = λ detail. [];
  utf8_length = length;
  decimal = λ n. n ∷ [];
}

abbrev entry : Entry
entry = record {
  operator = 97 ∷ 10 ∷ 98 ∷ [];
  action = 99 ∷ [];
  target_type = [];
  target_id = 49 ∷ [];
  detail = [];
  source_ip = [];
  outcome = [];
}

abbrev empty : Log
empty = record { rows = []; last_id = 0 }

abbrev first_row : Row
first_row = row_of ascii entry 100 1

abbrev one_row : Log
one_row = record { rows = first_row ∷ []; last_id = 1 }

newline_removed : first_row.operator ≡ 97 ∷ 98 ∷ []
newline_removed = refl

abbrev next_log : Log
next_log = record {
  rows =
      row_of ascii entry 101 2
      ∷ record {
        id = 3;
        timestamp = 103;
        operator = system_operator;
        action = retention_prune_action;
        target_type = audit_target;
        target_id = [];
        outcome = success_outcome;
        source_ip = none;
        detail = [];
      }
      ∷ [];
  last_id = 3;
}

-- With room for one row, the second entry prunes the first one and the log has two rows.
second_entry : record_entry ascii 0 1 101 102 103 entry one_row ≡ some next_log
unfolding program
second_entry = refl

second_entry_within_days : record_entry ascii 365 1 101 101 103 entry one_row ≡ some next_log
unfolding program
second_entry_within_days = refl

record_entry-Recorded_example : Recorded ascii 101 103 entry one_row next_log
record_entry-Recorded_example =
    record_entry-Recorded ascii 365 1 101 101 103 entry one_row next_log (inr (omega arith))
      second_entry_within_days

length-record_entry_example : length next_log.rows ≤ 1 + 1
length-record_entry_example =
    length-record_entry ascii 365 1 101 101 103 entry one_row next_log (omega arith)
      (inr (omega arith)) second_entry_within_days

-- A stand-in for the JSON of a detail and its bytes: the first key, at 400 bytes each.
abbrev keyed : Library
keyed = record ascii {
  dumps = λ detail. elim detail [ [] ↦ [] | (key, v) ∷ rest ↦ key ];
  utf8_length = λ text. 400 * length text;
}

-- A detail whose key has eleven letters is too large.
abbrev large : Entry
large = record entry {
  detail =
      (some (97 ∷ 97 ∷ 97 ∷ 97 ∷ 97 ∷ 97 ∷ 97 ∷ 97 ∷ 97 ∷ 97 ∷ 97 ∷ []), scalar (bool true)) ∷ [];
}

truncated_detail : (row_of keyed large 100 1).detail ≡ truncated_key
unfolding program
truncated_detail = refl

row_of-IsSafe_example : IsSafe keyed large (row_of keyed large 100 1)
row_of-IsSafe_example = row_of-IsSafe keyed (omega arith) large 100 1
