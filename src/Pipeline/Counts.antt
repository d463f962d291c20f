-- ===== src/Pipeline/Counts.antt =====
-- What an event adds to the alerts.
use aegis_nexus.Common.{
  length-map, ℕ, suc, ◌+◌, ◌≤◌, Bool, true, false, Option, List, [], ◌∷◌, length, String, ◌≡◌, inl,
  inr, arith, Bool-cases, Option-cases,
}
use aegis_nexus.Common.Json.{Json}
use aegis_nexus.Common.Python.{Python}
use aegis_nexus.Common.Result.{ok}
use aegis_nexus.Common.Sublist.{length-Sublist}
use aegis_nexus.Alerts
use aegis_nexus.Alerts.Invariant.{IsReachable, next, recorded, reachable-IsConsistent}
use aegis_nexus.Alerts.Occurrences.{total, total-record_finding}
use aegis_nexus.Suppression
use aegis_nexus.Detection.Config.{Config}
use aegis_nexus.Detection.Limits.{IsValid}
use aegis_nexus.Detection.Rules.{Honeytoken}
use aegis_nexus.Detection.Engine.{evaluate}
use aegis_nexus.Detection.Answers.{evaluate-IsAnswer}
use aegis_nexus.Pipeline.{Stamp, is_suppressed, record_findings, record_detection_findings}

module _ (lib : Alerts.Library) (suppressions : Suppression.Tables) (stamps : ℕ → Stamp) where
  -- The findings, from number `i` on, that no suppression covers.
  abbrev pub unsuppressed : ℕ → List Alerts.Finding → ℕ
  unsuppressed i [] = 0
  unsuppressed i (f ∷ fs) = elim (is_suppressed suppressions (stamps i) f) [
    | true ↦ unsuppressed (suc i) fs
    | false ↦ suc (unsuppressed (suc i) fs)
  ]

  -- The tables after a loop that ended, or that an exception cut off.
  pub record Counted (fs : List Alerts.Finding) (i : ℕ) (t : Alerts.Tables)
      (after : Alerts.Tables × Bool) : Type 0 where
    pub reachable : IsReachable lib after.0
    pub at_most : total after.0.alerts ≤ total t.alerts + unsuppressed i fs
    pub exactly : after.1 ≡ true → total after.0.alerts ≡ total t.alerts + unsuppressed i fs

  record_findings-Counted :
      (i : ℕ) (timestamp : String) (fs : List Alerts.Finding) (t : Alerts.Tables)
      → IsReachable lib t
      → Counted fs i t (record_findings lib suppressions stamps i timestamp fs t)
  unfolding record_findings
  record_findings-Counted i timestamp [] t r = record {
    reachable = r;
    at_most = omega arith;
    exactly = λ e. omega arith;
  }
  record_findings-Counted i timestamp (f ∷ fs) t r =
      elim (Bool-cases (is_suppressed suppressions (stamps i) f)) [
        | inl covered ↦
            let rest = record_findings-Counted (suc i) timestamp fs t r in
            rw (record_findings, covered)
              (record {
                reachable = rest.reachable;
                at_most = rw (unsuppressed, covered) rest.at_most;
                exactly = λ e. rw (unsuppressed, covered) (rest.exactly e);
              })
        | inr uncovered ↦
            let stamp = stamps i in
            elim (Option-cases
              (Alerts.record_finding lib f timestamp stamp.recorded_at stamp.fresh t)) [
                | inl failed ↦
                    rw (record_findings, uncovered, failed)
                      (record { reachable = r; at_most = omega arith; exactly = λ e. absurd (cc) })
                | inr ((t1, id), done) ↦
                    let r1 : IsReachable lib t1 =
                      next r (recorded f timestamp stamp.fresh id stamp.recorded_at done) in
                    let one =
                      total-record_finding lib f timestamp stamp.fresh id stamp.recorded_at t t1
                        (reachable-IsConsistent lib t r) done in
                    let rest = record_findings-Counted (suc i) timestamp fs t1 r1 in
                    rw (record_findings, uncovered, done)
                      (record {
                        reachable = rest.reachable;
                        at_most = rw (unsuppressed, uncovered) (omega (arith, rest.at_most, one));
                        exactly =
                            λ e. rw (unsuppressed, uncovered) (omega (arith, rest.exactly e, one));
                      })
              ]
      ]

  unsuppressed-length : (i : ℕ) (fs : List Alerts.Finding) → unsuppressed i fs ≤ length fs
  unsuppressed-length i [] = omega arith
  unsuppressed-length i (f ∷ fs) = elim (Bool-cases (is_suppressed suppressions (stamps i) f)) [
    | inl covered ↦ rw (unsuppressed, covered) (omega (arith, unsuppressed-length (suc i) fs))
    | inr uncovered ↦ rw (unsuppressed, uncovered) (omega (arith, unsuppressed-length (suc i) fs))
  ]

  -- Under a valid configuration the detection of an event answers with at most eleven findings, some
  -- of which a suppression may cover; the alerts stay tables that their operations reach, one after
  -- another; and where no exception cuts the loop off, the occurrence counts grow by exactly the number
  -- of findings that no suppression covers.
  pub record_detection_findings-Counted :
      (py : Python) (config : Config) (valid : IsValid config) (token : Option Honeytoken)
      (stored : Json) (context : List Json) (timestamp : String) (t : Alerts.Tables)
      → IsReachable lib t
      → (fs : List Alerts.Finding) × (evaluate py config token stored context ≡ ok fs)
        × (length fs ≤ 11)
        × (unsuppressed 0 fs ≤ length fs)
        × Counted fs 0 t (
            record_detection_findings lib suppressions stamps py config token stored context
              timestamp t)
  unfolding record_detection_findings
  record_detection_findings-Counted py config valid token stored context timestamp t r =
      let (fs, answered, a) = evaluate-IsAnswer py config valid stored token context in
      (
        fs,
        answered,
        omega (arith, length-map (λ (f : Alerts.Finding). f.rule_id) fs, length-Sublist a.once),
        unsuppressed-length 0 fs,
        rw (record_detection_findings, answered) (record_findings-Counted 0 timestamp fs t r),
      )
