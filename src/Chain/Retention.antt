-- ===== src/Chain/Retention.antt =====
-- The deletions of `Store.prune` and `Store.maintain` (src/aegis_nexus/store.py) on the table of
-- events, against the hash chain. Both delete rows by the time at which the collector received them
-- and leave the head alone. SQLite compares the stored texts by their bytes, as `compare` does.
use Prim.Native.String.{compare}
use text.Mathlib.Text.{is_lt, is_le}
use aegis_nexus.Common.{
  ℕ, ◌-◌, String, Bool, not, ◌&&◌, ◌||◌, List, [], ◌∷◌, any, leb, if◌then◌else◌, ◌==◌, string_eq,
  keep, take, length,
}
use aegis_nexus.Chain.{Columns, Event, Db}

-- `DELETE FROM events` of the rows that do not pass.
abbrev pub delete_unless : (Columns → Bool) → Db → Db
delete_unless p db = record db { events = keep (λ e. p e.values) db.events }

abbrev pub text_ltb : String → String → Bool
text_ltb s t = is_lt (compare s t)

-- `prune`: nothing happens at a retention of 0 days; `cutoff` is the time that many days ago.
unfoldable pub prune : ℕ → String → Db → Db
prune retention_days cutoff db =
    if leb retention_days 0
    then db
    else delete_unless (λ v. not (text_ltb v.collector_received_at cutoff)) db

-- ORDER BY collector_received_at ASC, id ASC
abbrev pub before_row : Columns → Columns → Bool
before_row a b =
    text_ltb a.collector_received_at b.collector_received_at
    || (a.collector_received_at == b.collector_received_at && is_le (compare a.id b.id))

unfoldable pub insert_row : Columns → List Columns → List Columns
insert_row a [] = a ∷ []
insert_row a (b ∷ bs) =
    let rest = insert_row a bs in if before_row a b then a ∷ b ∷ bs else b ∷ rest

unfoldable pub order_rows : List Event → List Columns
order_rows [] = []
order_rows (e ∷ es) = insert_row e.values (order_rows es)

-- The capacity part of `maintain`: rows beyond `max_events` go, the earliest received first.
unfoldable pub enforce_capacity : ℕ → Db → Db
unfolding order_rows insert_row
enforce_capacity max_events db =
    let overflow = length db.events - max_events in
    let oldest = take overflow (order_rows db.events) in
    if leb overflow 0 then db else delete_unless (λ v. not (any (λ o. o.id == v.id) oldest)) db
