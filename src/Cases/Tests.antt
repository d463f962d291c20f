-- ===== src/Cases/Tests.antt =====
-- Cases on concrete tables, and instances of the theorems.
use aegis_nexus.Common.{
  ℕ, true, false, none, some, [], ◌∷◌, map, string_eq, nat_eq, ◌≡◌, refl, length,
}
use aegis_nexus.Common.Dict.{get}
use aegis_nexus.Common.Json.{Json, str, pos, object, end, field, lookup, has_key}
use aegis_nexus.Common.Order.{order_by, insert_by}
use aegis_nexus.Common.Rows.{update_where}
use aegis_nexus.Common.Text.{any_char, split, slice}
use aegis_nexus.Common.Python.{Python}
use aegis_nexus.Common.Result.{ok, raise}
use aegis_nexus.Casework.{
  CaseData, CaseUpdate, clean_text, text, choice_of, choice, collect_tags, normalize_tags,
  normalize_case_create, normalize_case_update, normalize_evidence, normalize_note,
}
use aegis_nexus.Cases.Data.{Case, Tables, Telemetry, delete_where, add_tags}
use aegis_nexus.Cases.{
  Bounds, case_capacity, case_not_closed, prune_cases, insert_case, create_case, delete_case,
  update_case, is_available, add_case_evidence, remove_case_evidence, add_case_note,
}
use aegis_nexus.Cases.Views.{
  Collation, View, Report, case_tags, case_history, resolve_case_evidence, get_case, case_report,
  report_of, view_of, list_cases,
}
use aegis_nexus.Cases.Invariant.{IsConsistent}
use aegis_nexus.Cases.Step.{
  IsReachable, created_case, added_evidence, noted, start, next, empty, IsReachable-IsConsistent,
}
use aegis_nexus.Cases.Changes.{Outcome}
use aegis_nexus.Cases.Trail.{step-Outcome}
use aegis_nexus.Cases.Lifecycle.{IsCreated, create_case-get_case}
use aegis_nexus.Cases.Reports.{IsComplete, case_report-IsComplete}

program : Unit {0}
unfolding get lookup has_key order_by insert_by update_where any_char split slice clean_text text
    choice_of choice collect_tags normalize_tags normalize_case_create normalize_case_update
    normalize_evidence normalize_note delete_where add_tags prune_cases create_case delete_case
    update_case is_available add_case_evidence remove_case_evidence add_case_note case_tags
    case_history resolve_case_evidence get_case case_report list_cases insert_case
program = tt

abbrev plain : Python
plain = record {
  repr_of = λ v. "";
  int_of = λ v. none;
  strip = λ s. s;
  lower = λ s. s;
  casefold = λ s. s;
  timestamp = λ s. none;
  decimal = λ n. "";
}

abbrev bounds : Bounds
bounds = record { max_cases = 1; retention_days = 1 }

abbrev collation : Collation
collation = record { like = λ pattern s. true; nocase = λ a b. false }

abbrev telemetry : Telemetry
telemetry = record { events = ("e1", field "id" (str "e1") end) ∷ []; sessions = []; alerts = [] }

abbrev payload : Json
payload = object (field "title" (str "Scan") (field "tags" (str "ssh,web") end))

abbrev scan : CaseData
scan = record {
  title = "Scan";
  summary = "";
  status = "open";
  severity = "info";
  tags = "ssh" ∷ "web" ∷ [];
}

abbrev created : Tables
created = (create_case bounds "case_1" scan 10 11 12 empty).0

-- What a call reads where no other call comes in between.
abbrev only : Tables → ℕ → Tables
only t i = t

created_answer : (create_case bounds "case_1" scan 10 11 12 empty).1 ≡ ok (some "case_1")
unfolding program
created_answer = refl

full_test : (create_case bounds "case_2" scan 20 21 22 created).1 ≡ raise case_capacity
unfolding program
full_test = refl

open_test : (delete_case "case_1" (only created) created).1 ≡ case_not_closed
unfolding program
open_test = refl

abbrev closing : CaseUpdate
closing = record {
  title = none;
  summary = none;
  status = some "closed";
  severity = none;
  tags = none;
}

abbrev closed : Tables
closed = (update_case "case_1" closing 30 31 (only created) created).0

closed_test : map (λ c. c.closed_at) closed.cases ≡ some 30 ∷ []
unfolding program
closed_test = refl

deleted_test : (delete_case "case_1" (only closed) closed).0.history ≡ []
unfolding program
deleted_test = refl

expired_test : (create_case bounds "case_2" scan 86400000031 41 42 closed).1 ≡ ok (some "case_2")
unfolding program
expired_test = refl

listed_test : length (list_cases collation (pos 0) none (some "open") created) ≡ 1
unfolding program
listed_test = refl

abbrev referring : Tables
referring = (add_case_evidence telemetry "case_1" "event" "e1" 13 14 (only created) created).0

reached : IsReachable plain true bounds referring
unfolding program
reached =
    next (only created) (λ s i. refl)
      (next (only empty) (λ s i. refl) start (created_case payload scan "case_1" 11 12 refl))
      (added_evidence telemetry (object (field "type" (str "event") (field "id" (str "e1") end)))
        "event" "e1" "case_1" 13 14 refl)

IsReachable-IsConsistent_example : IsConsistent true bounds referring
IsReachable-IsConsistent_example = IsReachable-IsConsistent plain true bounds referring reached

abbrev noting : Tables
noting = (add_case_note "case_1" "seen" 15 16 (only created) referring).0

step-Outcome_example : Outcome "case_1" created referring noting
unfolding program
step-Outcome_example =
    step-Outcome plain bounds (only created) referring noting
      (noted (object (field "body" (str "seen") end)) "seen" "case_1" 15 16 refl) "case_1"

-- Two updates that both read the open case: it is reopened in one, and closed all the same.
abbrev opening : CaseUpdate
opening = record {
  title = none;
  summary = none;
  status = some "open";
  severity = none;
  tags = none;
}

abbrev reopened : Tables
reopened = (update_case "case_1" opening 32 33 (only created) closed).0

reopened_status : map (λ c. c.status) reopened.cases ≡ "open" ∷ []
unfolding program
reopened_status = refl

open_but_closed_at : map (λ c. c.closed_at) reopened.cases ≡ some 30 ∷ []
unfolding program
open_but_closed_at = refl

-- A deletion that read the case while it was closed.
reopened_deleted :
    (delete_case "case_1"
      (only closed)
      (update_case "case_1" opening 32 33 (only closed) closed).0).0.cases
    ≡ []
unfolding program
reopened_deleted = refl

abbrev row : Case
row = record {
  id = "case_1";
  title = "Scan";
  status = "open";
  severity = "info";
  summary = "";
  created_at = 11;
  updated_at = 13;
  closed_at = none;
}

create_case-get_case_example :
    (v : View) × (get_case collation telemetry "case_1" created ≡ some v)
    × IsCreated "case_1" scan 11 v
create_case-get_case_example =
    create_case-get_case true bounds collation telemetry empty "case_1" "case_1" scan 10 11 12
      (IsReachable-IsConsistent plain true bounds empty start) created_answer

abbrev reported : Report
reported = report_of 50 (view_of collation telemetry "case_1" referring row)

reported_test : reported.available_references ≡ 1
unfolding program
reported_test = refl

case_report-IsComplete_example : IsComplete telemetry referring "case_1" reported
unfolding program
case_report-IsComplete_example =
    case_report-IsComplete bounds collation telemetry "case_1" 50 referring reported
      IsReachable-IsConsistent_example refl
