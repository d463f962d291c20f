-- ===== src/Cases/Views.antt =====
-- What is shown of the cases: get_case, list_cases and case_report of aegis_nexus/store.py. Keys with
-- a constant value, the provenance and limitation texts of the case, are left out.
use Prim.Native.String
use aegis_nexus.Common.{
  ℕ, ◌-◌, min, max, Bool, true, false, ◌&&◌, ◌||◌, ltb, nat_beq, if◌then◌else◌, Option, none, some,
  List, keep, any, first, take, length, map, String, ◌==◌, string_eq,
}
use aegis_nexus.Common.Dict.{get}
use aegis_nexus.Common.Json.{ℤ, pos, negsuc, Json, str, object, Fields, set_key}
use aegis_nexus.Common.Order.{order_by}
use aegis_nexus.Common.Text.{slice}
use aegis_nexus.Cases.Data.{Case, Tag, Evidence, Note, Entry, Tables, Telemetry, has_id}
use aegis_nexus.Cases.{of_case_evidence, of_case_note}

-- LIKE of a pattern and a text, and the order of NOCASE.
pub record Collation : Type 0 where
  pub like : String → String → Bool
  pub nocase : String → String → Bool

abbrev pub of_case_tag : String → Tag → Bool
of_case_tag id r = r.case_id == id

abbrev pub of_case_entry : String → Entry → Bool
of_case_entry id r = r.case_id == id

abbrev pub added_before : Evidence → Evidence → Bool
added_before a b = ltb a.added_at b.added_at || (nat_beq a.added_at b.added_at && ltb a.id b.id)

abbrev pub note_before : Note → Note → Bool
note_before a b = ltb a.id b.id

abbrev pub entry_before : Entry → Entry → Bool
entry_before a b = ltb a.id b.id

unfoldable pub case_tags : Collation → Tables → String → List String
case_tags collation t id =
    map (λ r. r.tag) (order_by (λ a b. collation.nocase a.tag b.tag) (keep (of_case_tag id) t.tags))

unfoldable pub case_history : Tables → String → List Entry
case_history t id = take 500 (order_by entry_before (keep (of_case_entry id) t.history))

-- A reference with the row it refers to, where that is still there.
pub record Resolved : Type 0 where
  pub evidence : Evidence
  pub available : Bool
  pub summary : Option Json

abbrev pub unresolved : Evidence → Resolved
unresolved r = record { evidence = r; available = false; summary = none }

abbrev pub resolved : Evidence → Option Fields → Resolved
resolved r none = unresolved r
resolved r (some fs) = record { evidence = r; available = true; summary = some (object fs) }

unfoldable pub alert_summary : Option Fields → Option Fields
alert_summary none = none
alert_summary (some fs) = some (set_key "classification_provenance" (str "detection_rule") fs)

unfoldable pub resolve_case_evidence : Telemetry → Evidence → Resolved
resolve_case_evidence telemetry r =
    if r.evidence_type == "event"
    then resolved r (get telemetry.events r.evidence_id)
    else if r.evidence_type == "session"
    then resolved r (get telemetry.sessions r.evidence_id)
    else if r.evidence_type == "alert"
    then resolved r (alert_summary (get telemetry.alerts r.evidence_id))
    else unresolved r

pub record View : Type 0 where
  pub row : Case
  pub tags : List String
  pub evidence : List Resolved
  pub notes : List Note
  pub history : List Entry

abbrev pub view_of : Collation → Telemetry → String → Tables → Case → View
view_of collation telemetry case_id t c = record {
  row = c;
  tags = case_tags collation t case_id;
  evidence =
      map (resolve_case_evidence telemetry)
        (order_by added_before (keep (of_case_evidence case_id) t.evidence));
  notes = take 500 (order_by note_before (keep (of_case_note case_id) t.notes));
  history = case_history t case_id;
}

unfoldable pub get_case : Collation → Telemetry → String → Tables → Option View
get_case collation telemetry case_id t = elim (first (has_id case_id) t.cases) [
  | none ↦ none
  | some c ↦ some (view_of collation telemetry case_id t c)
]

-- The report, with its statistics.
pub record Report : Type 0 where
  pub generated_at : ℕ
  pub view : View
  pub evidence_references : ℕ
  pub available_references : ℕ
  pub unavailable_references : ℕ
  pub note_total : ℕ

abbrev pub report_of : ℕ → View → Report
report_of now v =
    let available = length (keep (λ r. r.available) v.evidence) in
    record {
      generated_at = now;
      view = v;
      evidence_references = length v.evidence;
      available_references = available;
      unavailable_references = length v.evidence - available;
      note_total = length v.notes;
    }

unfoldable pub case_report : Collation → Telemetry → String → ℕ → Tables → Option Report
case_report collation telemetry case_id now t = elim (get_case collation telemetry case_id t) [
  | none ↦ none
  | some v ↦ some (report_of now v)
]

-- A row of the list.
pub record Item : Type 0 where
  pub row : Case
  pub evidence_count : ℕ
  pub note_count : ℕ
  pub tags : List String

-- `max(1, min(limit, 300))`
abbrev pub clamp : ℤ → ℕ
clamp (pos n) = max 1 (min n 300)
clamp (negsuc n) = 1

abbrev pub has_status : Option String → Case → Bool
has_status none c = true
has_status (some s) c = s == "" || c.status == slice 32 s

abbrev pub mentions : Collation → Tables → Option String → Case → Bool
mentions collation t none c = true
mentions collation t (some q) c =
    let needle = String.◌++◌ "%" (String.◌++◌ (slice 128 q) "%") in
    q == ""
    || collation.like needle c.id
    || collation.like needle c.title
    || collation.like needle c.summary
    || any (λ r. r.case_id == c.id && collation.like needle r.tag) t.tags

abbrev pub updated_desc : Case → Case → Bool
updated_desc a b = ltb b.updated_at a.updated_at

abbrev pub item : Collation → Tables → Case → Item
item collation t c = record {
  row = c;
  evidence_count = length (keep (of_case_evidence c.id) t.evidence);
  note_count = length (keep (of_case_note c.id) t.notes);
  tags = case_tags collation t c.id;
}

unfoldable pub list_cases : Collation → ℤ → Option String → Option String → Tables → List Item
list_cases collation limit q status t = map (item collation t) (
    take (clamp limit)
      (order_by updated_desc (keep (λ c. has_status status c && mentions collation t q c) t.cases)))
