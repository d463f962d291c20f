-- ===== src/Cases/Operations.antt =====
-- Each case operation keeps what holds of the tables of cases.
use mathlib.Core.Path.{subst}
use aegis_nexus.Common.{
  if◌then◌else◌, ℕ, suc, ◌≤◌, ◌<◌, Bool, true, false, not, leb, some, List, [], ◌∷◌, ◌++◌, keep,
  any, first, length, String, string_eq, ◌≡◌, refl, ◌∙◌, arith, Bool-cases, Option-cases, inl, inr,
}
use aegis_nexus.Common.Rows.{count, update_where, any-update_where}
use aegis_nexus.Common.Sets.{elem}
use aegis_nexus.Casework.{CaseUpdate, case_statuses, is_empty_update}
use aegis_nexus.Casework.Updates.{Given}
use aegis_nexus.Cases.Data.{
  Case, Evidence, Note, Tables, Telemetry, updated, evidence_added, evidence_removed, note_added,
  has_id, is_closed, case_log, touch,
}
use aegis_nexus.Cases.{
  Bounds, when_there, insert_evidence, delete_case, set_columns, has_columns, update_case,
  same_evidence, of_case_evidence, of_case_note, is_available, add_case_evidence, evidence_row,
  remove_case_evidence, add_case_note,
}
use aegis_nexus.Cases.Invariant.{IsConsistent, delete_where-IsConsistent, case_log-IsConsistent}
use aegis_nexus.Cases.Columns.{touch-IsConsistent, set_columns-IsConsistent}
use aegis_nexus.Cases.Children.{
  with_tags, with_tags-IsConsistent, with_evidence-IsConsistent, without_evidence-IsConsistent,
  with_note-IsConsistent,
}

touch-there :
    (id j : String) (now : ℕ) (cases : List Case)
    → any (has_id j) (touch id now cases) ≡ any (has_id j) cases
touch-there id j now cases =
    any-update_where (has_id id) (has_id j) (λ x. record x { updated_at = now }) (λ x. refl) cases

module _ (serial : Bool) (b : Bounds) (seen : ℕ → Tables) (t : Tables)
    (alone : serial ≡ true → (i : ℕ) → seen i ≡ t) (c : IsConsistent serial b t) where
  pub delete_case-IsConsistent : (id : String) → IsConsistent serial b (delete_case id seen t).0
  unfolding delete_case
  delete_case-IsConsistent id = elim (Option-cases (first (has_id id) (seen 0).cases)) [
    | inl absent ↦ rw (delete_case, absent) c
    | inr (existing, found) ↦ elim (Bool-cases (is_closed existing)) [
      | inl closed ↦
          rw (delete_case, found, closed) (delete_where-IsConsistent serial b (has_id id) t c)
      | inr active ↦ rw (delete_case, found, active) c
    ]
  ]

  -- A transaction that raises where the case is gone.
  when_there-IsConsistent :
      (id : String) (changed : Tables)
      → (any (has_id id) t.cases ≡ true → IsConsistent serial b changed)
      → IsConsistent serial b (when_there id t changed).0
  when_there-IsConsistent id changed h = elim (Bool-cases (any (has_id id) t.cases)) [
    | inl there ↦ rw there (h there)
    | inr gone ↦ rw gone c
  ]

  updated-IsConsistent :
      (id : String) (u : CaseUpdate) (now : ℕ) (existing : Case)
      → first (has_id id) (seen 0).cases ≡ some existing
      → Given (λ s. elem s case_statuses ≡ true) u.status
      → IsConsistent serial b (record t {
        cases =
            if has_columns u
            then update_where (has_id id) (set_columns existing u now) t.cases
            else touch id now t.cases;
      })
  updated-IsConsistent id u now existing found valid = elim (Bool-cases (has_columns u)) [
    | inl columns ↦ rw columns (
        set_columns-IsConsistent serial b id existing u now t
          (λ s. subst (λ x. first (has_id id) x.cases ≡ some existing) (alone s 0) found) valid c)
    | inr tags_only ↦ rw tags_only (touch-IsConsistent serial b id now t c)
  ]

  updated-there :
      (id : String) (u : CaseUpdate) (now : ℕ) (existing : Case)
      → any (has_id id) (
          if has_columns u
          then update_where (has_id id) (set_columns existing u now) t.cases
          else touch id now t.cases)
        ≡ any (has_id id) t.cases
  updated-there id u now existing = elim (Bool-cases (has_columns u)) [
    | inl columns ↦
        rw columns (
          any-update_where (has_id id) (has_id id) (set_columns existing u now) (λ x. refl) t.cases)
    | inr tags_only ↦ rw tags_only (touch-there id id now t.cases)
  ]

  pub update_case-IsConsistent :
      (id : String) (u : CaseUpdate) (now logged_at : ℕ)
      → Given (λ s. elem s case_statuses ≡ true) u.status
      → Given (λ ns. length ns ≤ 20) u.tags
      → is_empty_update u ≡ false
      → IsConsistent serial b (update_case id u now logged_at seen t).0
  unfolding update_case
  update_case-IsConsistent id u now logged_at valid few given =
      elim (Option-cases (first (has_id id) (seen 0).cases)) [
        | inl absent ↦ rw (update_case, absent) c
        | inr (existing, found) ↦
            let cases =
              if has_columns u
              then update_where (has_id id) (set_columns existing u now) t.cases
              else touch id now t.cases in
            rw (update_case, found, given)
              (when_there-IsConsistent id
                (case_log id (updated u) logged_at
                  (with_tags id u.tags (record t { cases = cases })))
                (λ there.
                  let kept : any (has_id id) cases ≡ true =
                    updated-there id u now existing ∙ there in
                  case_log-IsConsistent serial b id (updated u) logged_at
                    (with_tags id u.tags (record t { cases = cases })) kept
                    (with_tags-IsConsistent serial b id (record t { cases = cases }) kept
                      (updated-IsConsistent id u now existing found valid) u.tags few)))
      ]

  insert_evidence-IsConsistent :
      (id type evidence_id : String) (now logged_at : ℕ)
      → (serial ≡ true → count (of_case_evidence id) t.evidence < 1000)
      → IsConsistent serial b (insert_evidence id type evidence_id now logged_at t).0
  insert_evidence-IsConsistent id type evidence_id now logged_at room =
      let touched = record t { cases = touch id now t.cases } in
      let r : Evidence = record {
        id = suc t.last_evidence;
        case_id = id;
        evidence_type = type;
        evidence_id = evidence_id;
        added_at = now;
      } in
      let added = record touched { evidence = t.evidence ++ r ∷ []; last_evidence = r.id } in
      elim (Bool-cases (any (same_evidence id type evidence_id) t.evidence)) [
        | inl known ↦ rw known c
        | inr new ↦ rw new (
            when_there-IsConsistent id
              (case_log id (evidence_added type evidence_id) logged_at added)
              (λ there.
                let kept = touch-there id id now t.cases ∙ there in
                case_log-IsConsistent serial b id (evidence_added type evidence_id) logged_at added
                  kept
                  (with_evidence-IsConsistent serial b id touched kept
                    (touch-IsConsistent serial b id now t c) r refl new room)))
      ]

  pub add_case_evidence-IsConsistent :
      (telemetry : Telemetry) (id type evidence_id : String) (now logged_at : ℕ)
      → IsConsistent serial b
          (add_case_evidence telemetry id type evidence_id now logged_at seen t).0
  unfolding add_case_evidence
  add_case_evidence-IsConsistent telemetry id type evidence_id now logged_at =
      elim (Bool-cases (any (has_id id) (seen 0).cases)) [
        | inr absent ↦ rw absent c
        | inl there ↦
            elim (Bool-cases (any (same_evidence id type evidence_id) (seen 1).evidence)) [
              | inl known ↦ rw (there, known) c
              | inr new ↦
                  elim (Bool-cases
                    (leb 1000 (length (keep (of_case_evidence id) (seen 2).evidence)))) [
                      | inl full ↦ rw (there, new, full) c
                      | inr room ↦ elim (Bool-cases (is_available telemetry type evidence_id)) [
                        | inr unknown ↦ rw (there, new, room, unknown) c
                        | inl available ↦
                            let few : count (of_case_evidence id) (seen 2).evidence < 1000 =
                              ground arith in
                            rw (there, new, room, available)
                              (insert_evidence-IsConsistent id type evidence_id now logged_at (λ s.
                                subst (λ x. count (of_case_evidence id) x.evidence < 1000)
                                  (alone s 2) few))
                      ]
                    ]
            ]
      ]

  pub remove_case_evidence-IsConsistent :
      (id : String) (row_id now logged_at : ℕ)
      → IsConsistent serial b (remove_case_evidence id row_id now logged_at seen t).0
  unfolding remove_case_evidence
  remove_case_evidence-IsConsistent id row_id now logged_at =
      elim (Bool-cases (any (has_id id) (seen 0).cases)) [
        | inr absent ↦ rw absent c
        | inl there ↦ elim (Option-cases (first (evidence_row row_id id) (seen 1).evidence)) [
          | inl unknown ↦ rw (there, unknown) c
          | inr (r, found) ↦
              let touched = record t { cases = touch id now t.cases } in
              let p : Evidence → Bool = λ e. not (evidence_row row_id id e) in
              let action = evidence_removed r.evidence_type r.evidence_id in
              let removed = record touched { evidence = keep p t.evidence } in
              rw (there, found)
                (when_there-IsConsistent id (case_log id action logged_at removed) (λ still.
                  let kept = touch-there id id now t.cases ∙ still in
                  case_log-IsConsistent serial b id action logged_at removed kept (
                    without_evidence-IsConsistent serial b id touched kept
                      (touch-IsConsistent serial b id now t c) p)))
        ]
      ]

  pub add_case_note-IsConsistent :
      (id body : String) (now logged_at : ℕ)
      → IsConsistent serial b (add_case_note id body now logged_at seen t).0
  unfolding add_case_note
  add_case_note-IsConsistent id body now logged_at =
      elim (Bool-cases (any (has_id id) (seen 0).cases)) [
        | inr absent ↦ rw absent c
        | inl there ↦ elim (Bool-cases (leb 500 (length (keep (of_case_note id) (seen 1).notes)))) [
          | inl full ↦ rw (there, full) c
          | inr room ↦
              let touched = record t { cases = touch id now t.cases } in
              let n : Note = record {
                id = suc t.last_note;
                case_id = id;
                body = body;
                created_at = now;
              } in
              let noted = record touched { notes = t.notes ++ n ∷ []; last_note = n.id } in
              let few : count (of_case_note id) (seen 1).notes < 500 = ground arith in
              rw (there, room)
                (when_there-IsConsistent id (case_log id (note_added n.id) logged_at noted)
                  (λ still.
                    let kept = touch-there id id now t.cases ∙ still in
                    case_log-IsConsistent serial b id (note_added n.id) logged_at noted kept (
                      with_note-IsConsistent serial b id touched kept
                        (touch-IsConsistent serial b id now t c) n refl
                        (λ s. subst (λ x. count (of_case_note id) x.notes < 500) (alone s 1) few))))
        ]
      ]
