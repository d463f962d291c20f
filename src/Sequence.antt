-- ===== src/Sequence.antt =====
-- The delivery sequences of src/aegis_nexus/sensor_sequence.py: the tables
-- `sensor_sequence_streams` and `sensor_sequence_ranges`, and the functions that read and write them
-- inside the caller's transaction. Stored times are texts, of which only equality and the SQL order
-- matter: they are numbers here.
pub mod Validate
pub mod Sums
pub mod Join
pub mod Record
pub mod Gaps
mod Tests
use Prim.Native.String.{compare}
use text.Mathlib.Text.{is_le}
use aegis_nexus.Common.{
  ℕ, suc, ◌+◌, ◌-◌, ◌^◌, ◌≤◌, String, Bool, true, false, not, ◌&&◌, ◌||◌, Option, none, some, List,
  [], ◌∷◌, ◌++◌, max, leb, ltb, if◌then◌else◌, ◌==◌, any, first, keep, drop, length, string_eq,
  nat_eq, is_none,
}

abbrev pub max_sequence : ℕ
max_sequence = 2 ^ 53 - 1

abbrev pub max_ranges_per_stream : ℕ
max_ranges_per_stream = 256

abbrev pub max_streams_per_sensor : ℕ
max_streams_per_sensor = 32

abbrev pub max_reported_gaps : ℕ
max_reported_gaps = 10

-- The primary key of a stream.
pub record StreamKey : Type 0 where
  pub sensor_id : String
  pub stream_id : String

abbrev pub same_key : StreamKey → StreamKey → Bool
same_key a b = a.sensor_id == b.sensor_id && a.stream_id == b.stream_id

pub record Stream : Type 0 where
  pub key : StreamKey
  pub first_seen_at : ℕ
  pub last_seen_at : ℕ
  pub received_count : ℕ
  pub duplicate_count : ℕ
  pub max_received_sequence : ℕ
  pub max_reported_sequence : ℕ
  pub detail_truncated : Bool

pub record Range : Type 0 where
  pub key : StreamKey
  pub start_sequence : ℕ
  pub end_sequence : ℕ

pub record Tables : Type 0 where
  pub streams : List Stream
  pub ranges : List Range

pub data Outcome : Type 0 where
  received duplicate untracked : Outcome

-- `_ensure_stream`: INSERT ... ON CONFLICT DO UPDATE SET last_seen_at
abbrev pub new_stream : StreamKey → ℕ → Stream
new_stream k now = record {
  key = k;
  first_seen_at = now;
  last_seen_at = now;
  received_count = 0;
  duplicate_count = 0;
  max_received_sequence = 0;
  max_reported_sequence = 0;
  detail_truncated = false;
}

unfoldable pub update_stream : (Stream → Stream) → StreamKey → List Stream → List Stream
update_stream f k [] = []
update_stream f k (s ∷ ss) = (if same_key s.key k then f s else s) ∷ update_stream f k ss

abbrev pub has_stream : StreamKey → List Stream → Bool
has_stream k = any (λ s. same_key s.key k)

unfoldable pub upsert_stream : StreamKey → ℕ → List Stream → List Stream
unfolding update_stream
upsert_stream k now ss =
    if has_stream k ss
    then update_stream (λ s. record s { last_seen_at = now }) k ss
    else ss ++ new_stream k now ∷ []

-- ORDER BY last_seen_at DESC, stream_id DESC
abbrev pub newer_stream : Stream → Stream → Bool
newer_stream a b =
    ltb b.last_seen_at a.last_seen_at
    || (a.last_seen_at == b.last_seen_at && is_le (compare b.key.stream_id a.key.stream_id))

unfoldable pub insert_stream : Stream → List Stream → List Stream
insert_stream a [] = a ∷ []
insert_stream a (b ∷ bs) =
    let rest = insert_stream a bs in if newer_stream a b then a ∷ b ∷ bs else b ∷ rest

unfoldable pub order_streams : List Stream → List Stream
order_streams [] = []
order_streams (s ∷ ss) = insert_stream s (order_streams ss)

-- The streams of the sensor beyond its newest `max_streams_per_sensor`.
unfoldable pub stale_streams : String → List Stream → List Stream
unfolding order_streams insert_stream
stale_streams sensor_id ss =
    drop max_streams_per_sensor (order_streams (keep (λ s. s.key.sensor_id == sensor_id) ss))

unfoldable pub ensure_stream : StreamKey → ℕ → Tables → Tables
unfolding upsert_stream stale_streams
ensure_stream k now t =
    let streams = upsert_stream k now t.streams in
    let stale = stale_streams k.sensor_id streams in
    record {
      streams = keep (λ s. not (has_stream s.key stale)) streams;
      ranges = keep (λ r. not (has_stream r.key stale)) t.ranges;
    }

-- The rows of the stream that the statements of `record_event_sequence` select.
abbrev pub covers : StreamKey → ℕ → Range → Bool
covers k n r = same_key r.key k && (leb r.start_sequence n && leb n r.end_sequence)

abbrev pub ends_before : StreamKey → ℕ → Range → Bool
ends_before k n r = same_key r.key k && (r.end_sequence + 1 == n)

abbrev pub starts_at : StreamKey → ℕ → Range → Bool
starts_at k n r = same_key r.key k && (r.start_sequence == n)

unfoldable pub update_range : (Range → Bool) → (Range → Range) → List Range → List Range
update_range p f [] = []
update_range p f (r ∷ rs) = (if p r then f r else r) ∷ update_range p f rs

-- `number` joins the ranges beside it, or is a range of its own while there is room for one.
unfoldable pub join_range :
    StreamKey → ℕ → Option Range → Option Range → List Range → List Range × Outcome
unfolding update_range
join_range k n (some left) (some right) rs = (
  update_range (starts_at k left.start_sequence)
      (λ r. record r { end_sequence = right.end_sequence })
      (keep (λ r. not (starts_at k (n + 1) r)) rs),
  received,
)
join_range k n (some left) none rs = (
  update_range (starts_at k left.start_sequence) (λ r. record r { end_sequence = n }) rs,
  received,
)
join_range k n none (some right) rs =
    (update_range (starts_at k (n + 1)) (λ r. record r { start_sequence = n }) rs, received)
join_range k n none none rs =
    if leb max_ranges_per_stream (length (keep (λ r. same_key r.key k) rs))
    then (rs, untracked)
    else (rs ++ record { key = k; start_sequence = n; end_sequence = n } ∷ [], received)

-- Whether the insertion of a range row violates its foreign key.
abbrev pub inserts_orphan : StreamKey → ℕ → Tables → Bool
inserts_orphan k n t =
    not (has_stream k t.streams)
    && (is_none (first (ends_before k n) t.ranges)
        && is_none (first (starts_at k (n + 1)) t.ranges))
    && ltb (length (keep (λ r. same_key r.key k) t.ranges)) max_ranges_per_stream

-- The counters of a number that is not a duplicate.
abbrev pub counted : ℕ → Outcome → Stream → Stream
counted n outcome s = record s {
  received_count = s.received_count + 1;
  max_received_sequence = max s.max_received_sequence n;
  detail_truncated = elim outcome [ untracked ↦ true | _ ↦ s.detail_truncated ];
}

-- The part of `record_event_sequence` after `_ensure_stream`; `none` is the integrity error.
unfoldable pub record_number : StreamKey → ℕ → Tables → Option (Tables × Outcome)
unfolding update_stream
record_number k n t =
    let left = first (ends_before k n) t.ranges in
    let right = first (starts_at k (n + 1)) t.ranges in
    let joined = join_range k n left right t.ranges in
    if any (covers k n) t.ranges
    then some (
      record t {
        streams =
            update_stream (λ s. record s { duplicate_count = s.duplicate_count + 1 }) k t.streams;
      },
      duplicate,
    )
    else if inserts_orphan k n t
    then none
    else some (
      record { streams = update_stream (counted n joined.1) k t.streams; ranges = joined.0 },
      joined.1,
    )

unfoldable pub record_event_sequence : StreamKey → ℕ → ℕ → Tables → Option (Tables × Outcome)
unfolding record_number ensure_stream
record_event_sequence k n now t = record_number k n (ensure_stream k now t)

unfoldable pub record_heartbeat_sequence : StreamKey → ℕ → ℕ → Tables → Tables
unfolding ensure_stream update_stream
record_heartbeat_sequence k last_sequence now t =
    let ensured = ensure_stream k now t in
    record ensured {
      streams =
          update_stream
            (λ s. record s { max_reported_sequence = max s.max_reported_sequence last_sequence }) k
            ensured.streams;
    }
