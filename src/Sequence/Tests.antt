-- ===== src/Sequence/Tests.antt =====
-- Delivery sequences on concrete numbers, and instances of their theorems.
use aegis_nexus.Common.{ℕ, ◌≤◌, ◌<◌, true, false, some, [], ◌∷◌, ◌≡◌, refl, arith, any, length}
use aegis_nexus.Sequence.{
  StreamKey, Range, Tables, received, duplicate, new_stream, covers, join_range, record_number,
  record_event_sequence, record_heartbeat_sequence, max_reported_gaps,
}
use aegis_nexus.Sequence.Sums.{total}
use aegis_nexus.Sequence.Record.{
  IsWellFormed, Recorded, record_number-Recorded, record_number-IsWellFormed,
}
use aegis_nexus.Sequence.Gaps.{in_gaps, gaps_of, gaps_of_exact}

program : Unit {0}
unfolding join_range record_event_sequence record_heartbeat_sequence gaps_of total
program = tt

abbrev ssh : StreamKey
ssh = record { sensor_id = "ssh-decoy-01"; stream_id = "stream-aaaaaaaaaaaa" }

abbrev span : ℕ → ℕ → Range
span a b = record { key = ssh; start_sequence = a; end_sequence = b }

abbrev start : Tables
start = record { streams = new_stream ssh 5 ∷ []; ranges = span 1 3 ∷ span 5 6 ∷ [] }

start-IsWellFormed : IsWellFormed start.ranges
unfolding program
start-IsWellFormed = record { valid = omega arith; apart = λ k m. ground arith }

abbrev joined : Tables
joined = record start {
  streams = record (new_stream ssh 5) { received_count = 1; max_received_sequence = 4 } ∷ [];
  ranges = span 1 6 ∷ [];
}

-- 4 arrives between the two ranges and joins them.
record_four : record_number ssh 4 start ≡ some (joined, received)
unfolding program
record_four = refl

record_five :
    record_event_sequence ssh 5 9 start
    ≡ some (
      record start {
        streams = record (new_stream ssh 5) { last_seen_at = 9; duplicate_count = 1 } ∷ [];
      },
      duplicate,
    )
unfolding program
record_five = refl

record_number-Recorded_example : Recorded ssh 4 start joined received
record_number-Recorded_example =
    record_number-Recorded ssh 4 start joined received start-IsWellFormed record_four

record_number-IsWellFormed_example : IsWellFormed joined.ranges
record_number-IsWellFormed_example =
    record_number-IsWellFormed ssh 4 start joined received start-IsWellFormed record_four

gaps_of_start :
    gaps_of ssh 9 start.ranges
    ≡ record { first = 4; last = 4 } ∷ record { first = 7; last = 9 } ∷ []
unfolding program
gaps_of_start = refl

gaps_of_exact_example :
    (length (gaps_of ssh 9 start.ranges) ≤ max_reported_gaps)
    × ((m : ℕ)
        → in_gaps m (gaps_of ssh 9 start.ranges) ≡ true
        → (1 ≤ m) × (any (covers ssh m) start.ranges ≡ false))
    × ((m : ℕ)
        → 1 ≤ m
        → m ≤ 9
        → any (covers ssh m) start.ranges ≡ false
        → length (gaps_of ssh 9 start.ranges) < max_reported_gaps
        → in_gaps m (gaps_of ssh 9 start.ranges) ≡ true)
gaps_of_exact_example = gaps_of_exact ssh 9 start.ranges
