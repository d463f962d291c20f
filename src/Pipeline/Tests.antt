-- ===== src/Pipeline/Tests.antt =====
-- An event that raises an alert, and an instance of the theorem.
use aegis_nexus.Common.{
  ℕ, length, Bool, map, true, false, none, List, [], ◌∷◌, ◌≤◌, string_eq, ◌≡◌, refl,
}
use aegis_nexus.Common.Json.{Json, str, object, end, field, lookup}
use aegis_nexus.Common.Dict.{get}
use aegis_nexus.Common.Order.{order_by, insert_by}
use aegis_nexus.Common.Rows.{update_where}
use aegis_nexus.Common.Text.{slice, contains}
use aegis_nexus.Common.Sets.{distinct}
use aegis_nexus.Common.Python.{Python}
use aegis_nexus.Common.Result.{ok}
use aegis_nexus.Alerts
use aegis_nexus.Alerts.Invariant.{start, empty}
use aegis_nexus.Suppression
use aegis_nexus.Detection.Config.{rule_defaults, enabled, threshold}
use aegis_nexus.Detection.Limits.{rule_defaults-IsValid}
use aegis_nexus.Detection.Events
use aegis_nexus.Detection.Rules
use aegis_nexus.Detection.Engine.{contextual_findings, evaluate}
use aegis_nexus.Pipeline.{Stamp, record_findings, record_detection_findings}
use aegis_nexus.Pipeline.Counts.{unsuppressed, Counted, record_detection_findings-Counted}

program : Unit {0}
unfolding lookup get order_by insert_by update_where slice contains distinct enabled threshold
    Events.observed Events.credential Events.command_text Events.source_ip Events.event_id
    Rules.refs Rules.finding Rules.is_download_attempt Rules.is_command_staging
    Rules.is_high_suricata Rules.rule_findings Rules.honeytoken_findings Suppression.match_finding
    Suppression.is_rule Alerts.existing Alerts.add_evidence Alerts.record_finding
    contextual_findings evaluate record_findings record_detection_findings
program = tt

abbrev plain : Python
plain = record {
  repr_of = λ v. "";
  int_of = λ v. none;
  strip = λ s. s;
  lower = λ s. s;
  casefold = λ s. s;
  timestamp = λ s. none;
  decimal = λ n. "n";
}

abbrev lib : Alerts.Library
lib = record { slice = slice; strip = λ s. s; len = λ s. 0; nocase_before = λ a b. false }

abbrev no_suppressions : Suppression.Tables
no_suppressions = record { suppressions = []; audit = []; last_audit = 0 }

abbrev stamps : ℕ → Stamp
stamps i = record { matched_at = 1; recorded_at = 2; fresh = "alert_1" }

-- A download from a shell.
abbrev download : Json
download =
    object
      (field "id" (str "e1") (field "observed" (object (field "command" (str "wget x") end)) end))

abbrev recorded : Alerts.Tables × Bool
recorded =
    record_detection_findings lib no_suppressions stamps plain rule_defaults none download [] "t"
      empty

recorded_test :
    (recorded.1 ≡ true) × (map (λ a. a.rule_id) recorded.0.alerts ≡ "download_attempt" ∷ [])
unfolding program
recorded_test = (refl, refl)

record_detection_findings-Counted_example :
    (fs : List Alerts.Finding) × (evaluate plain rule_defaults none download [] ≡ ok fs)
    × (length fs ≤ 11)
    × (unsuppressed lib no_suppressions stamps 0 fs ≤ length fs)
    × Counted lib no_suppressions stamps fs 0 empty (
        record_detection_findings lib no_suppressions stamps plain rule_defaults none download []
          "t" empty)
record_detection_findings-Counted_example =
    record_detection_findings-Counted lib no_suppressions stamps plain rule_defaults
      rule_defaults-IsValid none download [] "t" empty start
