-- ===== src/Pipeline.antt =====
-- From an event to its alerts: record_detection_findings of aegis_nexus/app.py, which joins the
-- detection engine, the suppressions and the alerts.
use aegis_nexus.Common.{
  ℕ, suc, Bool, true, false, is_none, Option, none, some, List, [], ◌∷◌, String,
}
use aegis_nexus.Common.Json.{Json}
use aegis_nexus.Common.Python.{Python}
use aegis_nexus.Common.Result.{Result, ok, raise}
use aegis_nexus.Alerts
use aegis_nexus.Suppression
use aegis_nexus.Detection.Config.{Config}
use aegis_nexus.Detection.Rules.{Honeytoken}
use aegis_nexus.Detection.Engine.{evaluate}
pub mod Counts
mod Tests

-- What the environment gives for one finding: the clock at the match and at the record, and a fresh
-- identifier.
pub record Stamp : Type 0 where
  pub matched_at : ℕ
  pub recorded_at : ℕ
  pub fresh : String

abbrev pub source_of : Option String → String
source_of none = ""
source_of (some ip) = ip

-- Some suppression in force covers the finding.
abbrev pub is_suppressed : Suppression.Tables → Stamp → Alerts.Finding → Bool
is_suppressed suppressions stamp f =
    elim (Suppression.match_finding f.rule_id (source_of f.source_ip) stamp.matched_at
      suppressions) [ none ↦ false | some s ↦ true ]

-- The loop over the findings, from number `i` on. Each record is a transaction of its own, so the
-- tables come with the mark whether the loop ended without an exception.
module _ (lib : Alerts.Library) (suppressions : Suppression.Tables) (stamps : ℕ → Stamp) where
  unfoldable pub record_findings :
      ℕ → String → List Alerts.Finding → Alerts.Tables → Alerts.Tables × Bool
  record_findings i timestamp [] t = (t, true)
  record_findings i timestamp (f ∷ fs) t = elim (is_suppressed suppressions (stamps i) f) [
    | true ↦ record_findings (suc i) timestamp fs t
    | false ↦
        elim (Alerts.record_finding lib f timestamp (stamps i).recorded_at (stamps i).fresh t) [
          | none ↦ (t, false)
          | some r ↦ record_findings (suc i) timestamp fs r.0
        ]
  ]

  -- `timestamp` is that of the stored event.
  unfoldable pub record_detection_findings :
      Python
      → Config
      → Option Honeytoken
      → Json
      → List Json
      → String
      → Alerts.Tables
      → Alerts.Tables × Bool
  record_detection_findings py config token stored context timestamp t =
      elim (evaluate py config token stored context) [
        | raise e ↦ (t, false)
        | ok fs ↦ record_findings 0 timestamp fs t
      ]
