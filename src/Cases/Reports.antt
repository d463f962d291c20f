-- ===== src/Cases/Reports.antt =====
-- The report of a case counts everything that belongs to it.
use aegis_nexus.Common.{
  true, ◌&&◌, length-map, ℕ, ◌+◌, Bool, not, some, List, [], ◌∷◌, keep, first, length, String,
  string_eq, take_all, take, ap, map, ◌≡◌, refl, sym, ◌∙◌, arith, Option-cases, inl, inr,
}
use aegis_nexus.Common.Rows.{count, some_inj}
use aegis_nexus.Common.Dict.{get}
use aegis_nexus.Common.Order.{order_by, count-order_by, length-order_by}
use aegis_nexus.Cases.Data.{Case, Evidence, Tables, Telemetry, has_id}
use aegis_nexus.Cases.{Bounds, is_available, of_case_evidence, of_case_note}
use aegis_nexus.Cases.Invariant.{IsConsistent}
use aegis_nexus.Cases.Views.{
  Collation, Report, added_before, note_before, resolve_case_evidence, alert_summary, view_of,
  report_of, get_case, case_report,
}

count_split {ℓ} :
    {A : Type ℓ} (p : A → Bool) (xs : List A)
    → length (keep p xs) + length (keep (λ x. not (p x)) xs) ≡ length xs
count_split p [] = refl
count_split p (x ∷ xs) = ground (arith, count_split p xs)

resolve-is_available :
    (telemetry : Telemetry) (e : Evidence)
    → (resolve_case_evidence telemetry e).available
      ≡ is_available telemetry e.evidence_type e.evidence_id
unfolding resolve_case_evidence is_available alert_summary
resolve-is_available telemetry e = elim (Option-cases (get telemetry.events e.evidence_id)) [
  | inl a ↦ elim (Option-cases (get telemetry.sessions e.evidence_id)) [
    | inl b ↦ elim (Option-cases (get telemetry.alerts e.evidence_id)) [
      | inl c ↦ ground arith
      | inr c ↦ ground arith
    ]
    | inr b ↦ elim (Option-cases (get telemetry.alerts e.evidence_id)) [
      | inl c ↦ ground arith
      | inr c ↦ ground arith
    ]
  ]
  | inr a ↦ elim (Option-cases (get telemetry.sessions e.evidence_id)) [
    | inl b ↦ elim (Option-cases (get telemetry.alerts e.evidence_id)) [
      | inl c ↦ ground arith
      | inr c ↦ ground arith
    ]
    | inr b ↦ elim (Option-cases (get telemetry.alerts e.evidence_id)) [
      | inl c ↦ ground arith
      | inr c ↦ ground arith
    ]
  ]
]

count-resolved :
    (telemetry : Telemetry) (rows : List Evidence)
    → length (keep (λ r. r.available) (map (resolve_case_evidence telemetry) rows))
      ≡ count (λ e. is_available telemetry e.evidence_type e.evidence_id) rows
count-resolved telemetry [] = refl
count-resolved telemetry (e ∷ rows) =
    ground (arith, count-resolved telemetry rows, resolve-is_available telemetry e)

count-of_keep {ℓ} :
    {A : Type ℓ} (p q : A → Bool) (xs : List A) → count q (keep p xs) ≡ count (λ x. p x && q x) xs
count-of_keep p q [] = refl
count-of_keep p q (x ∷ xs) = ground (arith, count-of_keep p q xs)

-- What the report counts of the case `id`.
pub record IsComplete (telemetry : Telemetry) (t : Tables) (id : String) (r : Report) : Type 0 where
  pub references : r.evidence_references ≡ count (of_case_evidence id) t.evidence
  pub available :
      r.available_references
      ≡ count
          (λ e. of_case_evidence id e && is_available telemetry e.evidence_type e.evidence_id)
          t.evidence
  pub missing : r.available_references + r.unavailable_references ≡ r.evidence_references
  pub all_notes : r.view.notes ≡ order_by note_before (keep (of_case_note id) t.notes)
  pub note_total : r.note_total ≡ count (of_case_note id) t.notes

shown_lem :
    (collation : Collation) (telemetry : Telemetry) (id : String) (now : ℕ) (t : Tables)
    (row : Case)
    → first (has_id id) t.cases ≡ some row
    → case_report collation telemetry id now t
      ≡ some (report_of now (view_of collation telemetry id t row))
unfolding case_report get_case
shown_lem collation telemetry id now t row found = rw (case_report, get_case, found) refl

-- In tables that are consistent with calls one after another, the report of a case counts all of its
-- references, as available exactly those whose event, session or alert is in the telemetry and as
-- unavailable the others, and it has all of the notes of the case, in the order of their numbers.
pub case_report-IsComplete :
    (b : Bounds) (collation : Collation) (telemetry : Telemetry) (id : String) (now : ℕ)
    (t : Tables) (r : Report)
    → IsConsistent true b t
    → case_report collation telemetry id now t ≡ some r
    → IsComplete telemetry t id r
unfolding case_report get_case
case_report-IsComplete b collation telemetry id now t r c h =
    elim (Option-cases (first (has_id id) t.cases)) [
      | inl absent ↦ absurd (ground arith)
      | inr (row, found) ↦
          let same : r ≡ report_of now (view_of collation telemetry id t row) =
            some_inj r (report_of now (view_of collation telemetry id t row))
              (sym h ∙ shown_lem collation telemetry id now t row found) in
          let evidence = order_by added_before (keep (of_case_evidence id) t.evidence) in
          let notes = order_by note_before (keep (of_case_note id) t.notes) in
          let notes_count : length notes ≡ count (of_case_note id) t.notes =
            length-order_by note_before (keep (of_case_note id) t.notes) in
          let all_notes : take 500 notes ≡ notes =
            take_all 500 notes (omega (arith, c.few_notes refl id)) in
          rw same (record {
            references =
                length-map (resolve_case_evidence telemetry) evidence
                ∙ length-order_by added_before (keep (of_case_evidence id) t.evidence);
            available =
                count-resolved telemetry evidence
                ∙ count-order_by added_before
                    (λ e. is_available telemetry e.evidence_type e.evidence_id)
                    (keep (of_case_evidence id) t.evidence)
                ∙ count-of_keep (of_case_evidence id)
                    (λ e. is_available telemetry e.evidence_type e.evidence_id) t.evidence;
            missing = omega (
              arith,
              count_split (λ e. e.available) (map (resolve_case_evidence telemetry) evidence),
            );
            all_notes = all_notes;
            note_total = ap length all_notes ∙ notes_count;
          })
    ]
