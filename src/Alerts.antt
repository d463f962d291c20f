-- ===== src/Alerts.antt =====
-- The alerts of aegis_nexus/alerts.py, with the tables of aegis_nexus/migrations.py. Event times are
-- texts, the store's own clock is a number.
use text.Mathlib.Text.{is_lt}
use Prim.Native.String.{compare}
use aegis_nexus.Common.{
  ℕ, suc, ◌+◌, min, max, Bool, true, false, not, ◌&&◌, ◌||◌, ltb, leb, nat_beq, if◌then◌else◌,
  Option, none, some, List, [], ◌∷◌, ◌++◌, keep, any, first, take, length, String, ◌==◌, string_eq,
  is_none, map,
}
use aegis_nexus.Common.Order.{order_by, insert_by}
use aegis_nexus.Common.Rows.{count, update_where, insert_or_ignore}
pub mod Invariant
pub mod Occurrences
mod Tests

-- What the code calls of str: `text[:n]`, `strip`, `len` and SQLite's NOCASE order.
pub record Library : Type 0 where
  pub slice : ℕ → String → String
  pub strip : String → String
  pub len : String → ℕ
  pub nocase_before : String → String → Bool

pub record Alert : Type 0 where
  pub id : String
  pub schema_version : String
  pub rule_id : String
  pub rule_version : String
  pub title : String
  pub description : String
  pub severity : String
  pub confidence : ℕ
  pub source_ip : Option String
  pub session_id : Option String
  pub status : String
  pub first_seen : String
  pub last_seen : String
  pub occurrence_count : ℕ
  pub created_at : ℕ
  pub updated_at : ℕ

pub record Evidence : Type 0 where
  pub alert_id : String
  pub evidence_type : String
  pub evidence_id : String
  pub added_at : ℕ

pub record Tag : Type 0 where
  pub alert_id : String
  pub tag : String

pub record Note : Type 0 where
  pub id : ℕ
  pub alert_id : String
  pub body : String
  pub created_at : ℕ

pub record Tables : Type 0 where
  pub alerts : List Alert
  pub evidence : List Evidence
  pub tags : List Tag
  pub notes : List Note
  pub last_note : ℕ

-- A finding of the detection engine; an item of its evidence that is no mapping is `none`.
pub record Finding : Type 0 where
  pub rule_id : String
  pub rule_version : String
  pub schema_version : String
  pub title : String
  pub description : String
  pub severity : String
  pub confidence : ℕ
  pub source_ip : Option String
  pub session_id : Option String
  pub evidence : List (Option (String × String))

abbrev pub is_status : String → Bool
is_status s = s == "new" || (s == "acknowledged" || (s == "investigating" || s == "closed"))

abbrev pub coalesce : Option String → String
coalesce none = ""
coalesce (some s) = s

abbrev pub has_id : String → Alert → Bool
has_id id a = a.id == id

-- The WHERE clause of `record`.
abbrev pub same_alert : Finding → Alert → Bool
same_alert f a =
    a.rule_id == f.rule_id
    && (a.rule_version == f.rule_version
        && (coalesce a.source_ip == coalesce f.source_ip
            && (coalesce a.session_id == coalesce f.session_id && not (a.status == "closed"))))

abbrev pub last_seen_desc : Alert → Alert → Bool
last_seen_desc a b = is_lt (compare b.last_seen a.last_seen)

unfoldable pub existing : Finding → List Alert → Option Alert
unfolding order_by insert_by
existing f alerts = first (λ a. true) (order_by last_seen_desc (keep (same_alert f) alerts))

abbrev pub new_alert : Finding → String → String → ℕ → Alert
new_alert f id event_timestamp now = record {
  id = id;
  schema_version = f.schema_version;
  rule_id = f.rule_id;
  rule_version = f.rule_version;
  title = f.title;
  description = f.description;
  severity = f.severity;
  confidence = f.confidence;
  source_ip = f.source_ip;
  session_id = f.session_id;
  status = "new";
  first_seen = event_timestamp;
  last_seen = event_timestamp;
  occurrence_count = 1;
  created_at = now;
  updated_at = now;
}

abbrev pub seen_again : String → ℕ → Alert → Alert
seen_again event_timestamp now a = record a {
  last_seen = event_timestamp;
  occurrence_count = a.occurrence_count + 1;
  updated_at = now;
}

abbrev pub same_evidence : Evidence → Evidence → Bool
same_evidence e x =
    x.alert_id == e.alert_id
    && (x.evidence_type == e.evidence_type && x.evidence_id == e.evidence_id)

abbrev pub of_alert : String → Note → Bool
of_alert alert_id n = n.alert_id == alert_id

-- What a call returns or raises, with the tables that it leaves.
pub data Result : Type 0 where
  done : Tables → Result
  not_found : Result
  invalid_alert_status : Result
  invalid_alert_note : Result
  alert_note_limit : Result
  foreign_key : Result

module _ (lib : Library) where
  unfoldable pub add_evidence :
      String → ℕ → List (Option (String × String)) → List Evidence → List Evidence
  add_evidence alert_id now [] rows = rows
  add_evidence alert_id now (none ∷ items) rows = add_evidence alert_id now items rows
  add_evidence alert_id now (some (type, id) ∷ items) rows =
      let row : Evidence = record {
        alert_id = alert_id;
        evidence_type = lib.slice 32 type;
        evidence_id = lib.slice 128 id;
        added_at = now;
      } in
      add_evidence alert_id now items (
        if row.evidence_type == "" || row.evidence_id == ""
        then rows
        else insert_or_ignore (same_evidence row) row rows)

  -- `fresh` is the identifier that uuid4 gives. `none` is the error on one that is taken.
  unfoldable pub record_finding : Finding → String → ℕ → String → Tables → Option (Tables × String)
  unfolding existing update_where add_evidence
  record_finding f event_timestamp now fresh t = elim (existing f t.alerts) [
    | some a ↦ some (
      record t {
        alerts = update_where (has_id a.id) (seen_again event_timestamp now) t.alerts;
        evidence = add_evidence a.id now (take 128 f.evidence) t.evidence;
      },
      a.id,
    )
    | none ↦
        if any (has_id fresh) t.alerts
        then none
        else some (
          record t {
            alerts = t.alerts ++ new_alert f fresh event_timestamp now ∷ [];
            evidence = add_evidence fresh now (take 128 f.evidence) t.evidence;
          },
          fresh,
        )
  ]

  abbrev pub same_tag : Tag → Tag → Bool
  same_tag g x = x.alert_id == g.alert_id && x.tag == g.tag

  unfoldable pub add_tags : String → List String → List Tag → List Tag
  add_tags alert_id [] rows = rows
  add_tags alert_id (tag ∷ tags) rows =
      let row : Tag = record { alert_id = alert_id; tag = lib.slice 64 (lib.strip tag) } in
      add_tags alert_id tags
        (if row.tag == "" then rows else insert_or_ignore (same_tag row) row rows)

  -- DELETE FROM alert_tags, then the insertions.
  abbrev pub set_tags : String → List String → List Tag → List Tag
  set_tags alert_id tags rows =
      add_tags alert_id (take 32 tags) (keep (λ x. not (x.alert_id == alert_id)) rows)

  unfoldable pub update : String → Option String → Option (List String) → ℕ → Tables → Result
  unfolding update_where add_tags
  update alert_id status tags now t =
      let key = lib.slice 128 alert_id in
      let valid : Bool = elim status [ none ↦ true | some s ↦ is_status s ] in
      let moved : List Alert = elim status [
        | none ↦ t.alerts
        | some s ↦
            update_where (has_id key) (λ a. record a { status = s; updated_at = now }) t.alerts
      ] in
      if not valid
      then invalid_alert_status
      else if not (any (has_id key) t.alerts)
      then not_found
      else elim tags [
        | none ↦ done (record t { alerts = moved })
        | some names ↦ done (record t {
          alerts = update_where (has_id key) (λ a. record a { updated_at = now }) moved;
          tags = set_tags key names t.tags;
        })
      ]

  -- The reads come before the transaction, each SELECT for itself: read number i is of the tables
  -- `seen i`, and the writes are one transaction on `t`. A note of an alert that is not there is an
  -- error of the foreign key.
  unfoldable pub add_note : String → String → ℕ → (ℕ → Tables) → Tables → Result
  unfolding update_where
  add_note alert_id body now seen t =
      let key = lib.slice 128 alert_id in
      let clean = lib.strip body in
      if clean == "" || ltb 4000 (lib.len clean)
      then invalid_alert_note
      else if not (any (has_id key) (seen 0).alerts)
      then not_found
      else if leb 500 (count (of_alert key) (seen 1).notes)
      then alert_note_limit
      else if not (any (has_id key) t.alerts)
      then foreign_key
      else done (record t {
        alerts = update_where (has_id key) (λ a. record a { updated_at = now }) t.alerts;
        notes =
            t.notes
            ++ record { id = suc t.last_note; alert_id = key; body = clean; created_at = now } ∷ [];
        last_note = suc t.last_note;
      })

-- What `get` and `list` return of the tables of alerts.
pub record View : Type 0 where
  pub alert : Alert
  pub evidence : List Evidence
  pub tags : List Tag
  pub notes : List Note

abbrev pub evidence_before : Evidence → Evidence → Bool
evidence_before a b =
    ltb a.added_at b.added_at
    || (nat_beq a.added_at b.added_at && is_lt (compare a.evidence_id b.evidence_id))

abbrev pub queue_before : Alert → Alert → Bool
queue_before a b =
    is_lt (compare b.last_seen a.last_seen)
    || (a.last_seen == b.last_seen && is_lt (compare b.id a.id))

module _ (lib : Library) where
  unfoldable pub hydrate : Tables → Alert → View
  unfolding order_by insert_by
  hydrate t a = record {
    alert = a;
    evidence = order_by evidence_before (keep (λ e. e.alert_id == a.id) t.evidence);
    tags = order_by (λ x y. lib.nocase_before x.tag y.tag) (keep (λ g. g.alert_id == a.id) t.tags);
    notes = order_by (λ x y. ltb x.id y.id) (keep (λ n. n.alert_id == a.id) t.notes);
  }

  unfoldable pub get : String → Tables → Option View
  unfolding hydrate
  get alert_id t = elim (first (has_id (lib.slice 128 alert_id)) t.alerts) [
    | none ↦ none
    | some a ↦ some (hydrate t a)
  ]

  abbrev pub matches : Option String → Option String → Alert → Bool
  matches status severity a =
      (coalesce status == "" || a.status == lib.slice 32 (coalesce status))
      && (coalesce severity == "" || a.severity == lib.slice 32 (coalesce severity))

  unfoldable pub list_alerts : ℕ → Option String → Option String → Tables → List View
  unfolding hydrate order_by insert_by
  list_alerts limit status severity t = map (hydrate t) (
      take (max 1 (min limit 300))
        (order_by queue_before (keep (matches status severity) t.alerts)))
