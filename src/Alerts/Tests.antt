-- ===== src/Alerts/Tests.antt =====
-- Alerts on a concrete run, and instances of the theorems.
use aegis_nexus.Common.{none, some, [], ◌∷◌, ◌≡◌, refl, not, ◌==◌, string_eq}
use aegis_nexus.Common.Order.{order_by, insert_by}
use aegis_nexus.Common.Rows.{update_where}
use aegis_nexus.Alerts.{
  Library, Finding, Tables, Alert, Evidence, new_alert, existing, add_evidence, record_finding,
  add_tags, update, add_note, hydrate, get, list_alerts, invalid_alert_status, not_found,
}
use aegis_nexus.Alerts.Invariant.{
  empty, IsReachable, IsConsistent, start, next, recorded, reachable-IsConsistent,
}
use aegis_nexus.Alerts.Occurrences.{total, findings, total-findings}

program : Unit {0}
unfolding order_by insert_by update_where existing add_evidence record_finding add_tags update
    add_note hydrate get list_alerts
program = tt

abbrev plain : Library
plain = record {
  slice = λ n text. text;
  strip = λ text. text;
  len = λ text. 1;
  nocase_before = λ a b. not (a == b);
}

abbrev finding : Finding
finding = record {
  rule_id = "web_scanning";
  rule_version = "1";
  schema_version = "1";
  title = "Web scanning";
  description = "";
  severity = "medium";
  confidence = 70;
  source_ip = some "10.0.0.9";
  session_id = none;
  evidence = some ("event", "evt_1") ∷ none ∷ some ("event", "evt_1") ∷ [];
}

abbrev evidence_row : Evidence
evidence_row = record {
  alert_id = "alert_1";
  evidence_type = "event";
  evidence_id = "evt_1";
  added_at = 5;
}

abbrev one_alert : Tables
one_alert = record empty {
  alerts = new_alert finding "alert_1" "10:00" 5 ∷ [];
  evidence = evidence_row ∷ [];
}

abbrev counted_twice : Alert
counted_twice = record (new_alert finding "alert_1" "10:00" 5) {
  last_seen = "10:01";
  occurrence_count = 2;
  updated_at = 6;
}

abbrev two_findings : Tables
two_findings = record empty { alerts = counted_twice ∷ []; evidence = evidence_row ∷ [] }

first_finding : record_finding plain finding "10:00" 5 "alert_1" empty ≡ some (one_alert, "alert_1")
unfolding program
first_finding = refl

second_finding :
    record_finding plain finding "10:01" 6 "alert_2" one_alert ≡ some (two_findings, "alert_1")
unfolding program
second_finding = refl

unknown_status : update plain "alert_1" (some "open") none 7 two_findings ≡ invalid_alert_status
unfolding program
unknown_status = refl

unknown_alert : add_note plain "alert_2" "seen" 7 (λ i. two_findings) two_findings ≡ not_found
unfolding program
unknown_alert = refl

reached : IsReachable plain two_findings
reached =
    next (next start (recorded finding "10:00" "alert_1" "alert_1" 5 first_finding))
      (recorded finding "10:01" "alert_2" "alert_1" 6 second_finding)

reachable-IsConsistent_example : IsConsistent plain two_findings
reachable-IsConsistent_example = reachable-IsConsistent plain two_findings reached

total-findings_example : total two_findings.alerts ≡ findings plain two_findings reached
total-findings_example = total-findings plain two_findings reached
