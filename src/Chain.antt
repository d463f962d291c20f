-- ===== src/Chain.antt =====
-- The hash chain over stored events: src/aegis_nexus/event_chain.py, with the insertion of an event
-- row as `Store.ingest` of src/aegis_nexus/store.py makes it. SHA-256 over the JSON payload is not
-- code of the repository: it is the parameter `digest`. Sequence numbers are natural numbers, as
-- the code writes them; a SQL NULL is `none`.
pub mod Verify
pub mod Verdict
pub mod Append
pub mod Tamper
pub mod Retention
pub mod Order
pub mod Gaps
pub mod Ingest
mod Tests
use aegis_nexus.Common.{
  ℕ, suc, zero, ◌+◌, String, Bool, true, false, Option, none, some, List, [], ◌∷◌, ◌++◌, map, leb,
  ltb, if◌then◌else◌, ◌==◌, not, any, first, length, is_empty, string_eq, nat_eq, ◌||◌, ◌&&◌,
}

abbrev pub chain_version : ℕ
chain_version = 1

abbrev pub genesis_hash : String
genesis_hash = "0000000000000000000000000000000000000000000000000000000000000000"

-- `HASHED_COLUMNS`: the stored column texts.
pub record Columns : Type 0 where
  pub id : String
  pub timestamp : Option String
  pub collector_received_at : String
  pub honeypot : Option String
  pub event_type : Option String
  pub severity : Option String
  pub source_ip : Option String
  pub session_id : Option String
  pub schema_version : Option String
  pub observed : Option String
  pub enrichment : Option String
  pub derived : Option String
  pub hypotheses : Option String
  pub collector : Option String

-- What is hashed: the version, the sequence number, the previous hash and the columns.
pub record Payload : Type 0 where
  pub version : ℕ
  pub chain_seq : ℕ
  pub prev_hash : String
  pub values : Columns

-- A row of `events`.
pub record Event : Type 0 where
  pub values : Columns
  pub chain_seq : Option ℕ
  pub prev_hash : Option String
  pub record_hash : Option String

pub record Head : Type 0 where
  pub last_seq : ℕ
  pub last_hash : String

pub record Db : Type 0 where
  pub events : List Event
  pub head : Option Head

-- A chained row as `verify_chain` selects it.
pub record Link : Type 0 where
  pub seq : ℕ
  pub stored_prev : Option String
  pub stored_hash : Option String
  pub values : Columns

-- `str(stored_prev)`
abbrev pub text_of : Option String → String
text_of none = "None"
text_of (some h) = h

abbrev pub select_chained : List Event → List Link
select_chained [] = []
select_chained (e ∷ es) =
    let rest = select_chained es in
    elim e.chain_seq [
      | none ↦ rest
      | some n ↦
          record {
            seq = n;
            stored_prev = e.prev_hash;
            stored_hash = e.record_hash;
            values = e.values;
          }
          ∷ rest
    ]

unfoldable pub insert_link : Link → List Link → List Link
insert_link x [] = x ∷ []
insert_link x (y ∷ ys) =
    let rest = insert_link x ys in if leb x.seq y.seq then x ∷ y ∷ ys else y ∷ rest

-- ORDER BY chain_seq ASC
unfoldable pub order_links : List Link → List Link
order_links [] = []
order_links (x ∷ xs) = insert_link x (order_links xs)

unfoldable pub chained : Db → List Link
unfolding order_links insert_link
chained db = order_links (select_chained db.events)

-- `SELECT COUNT(*) ... WHERE chain_seq IS NULL`
unfoldable pub count_legacy : List Event → ℕ
count_legacy [] = 0
count_legacy (e ∷ es) = elim e.chain_seq [ none ↦ suc (count_legacy es) | some n ↦ count_legacy es ]

-- A row as `insert_event` inserts it, before it is chained.
abbrev pub unchained : Columns → Event
unchained values = record {
  values = values;
  chain_seq = none;
  prev_hash = none;
  record_hash = none;
}

-- The last sequence number and hash, `(0, GENESIS_HASH)` before the first record.
abbrev pub head_or_genesis : Option Head → Head
head_or_genesis none = record { last_seq = 0; last_hash = genesis_hash }
head_or_genesis (some h) = h

-- `UPDATE events SET chain_seq=?, prev_hash=?, record_hash=? WHERE id=?`
abbrev pub stamp : String → ℕ → String → String → List Event → List Event
stamp id seq prev_hash record_hash [] = []
stamp id seq prev_hash record_hash (e ∷ es) =
    (if e.values.id == id
      then record e {
        chain_seq = some seq;
        prev_hash = some prev_hash;
        record_hash = some record_hash;
      }
      else e)
    ∷ stamp id seq prev_hash record_hash es

module _ (digest : Payload → String) where
  unfoldable pub compute_record_hash : ℕ → String → Columns → String
  compute_record_hash chain_seq prev_hash values = digest (record {
    version = chain_version;
    chain_seq = chain_seq;
    prev_hash = prev_hash;
    values = values;
  })

  unfoldable pub append_record : Db → Columns → Db
  append_record db values =
      let prev = head_or_genesis db.head in
      let seq = prev.last_seq + 1 in
      let record_hash = compute_record_hash seq prev.last_hash values in
      record {
        events = stamp values.id seq prev.last_hash record_hash db.events;
        head = some (record { last_seq = seq; last_hash = record_hash });
      }

  -- The transaction of `Store.ingest`, its rows that concern the chain: `none` is the integrity error of
  -- a repeated id.
  unfoldable pub insert_event : Db → Columns → Option Db
  unfolding append_record
  insert_event db values =
      if any (λ e. e.values.id == values.id) db.events
      then none
      else some (append_record (record db { events = db.events ++ unchained values ∷ [] }) values)
