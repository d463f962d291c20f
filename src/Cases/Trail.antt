-- ===== src/Cases/Trail.antt =====
-- The history of a case: no change of a case without an entry, and no entry is lost but with a case
-- that was closed.
use aegis_nexus.Common.{
  if◌then◌else◌, ℕ, suc, Bool, false, not, leb, [], ◌∷◌, ◌++◌, keep, any, first, length, String,
  ◌==◌, string_eq, ==_ne, eq_cases, ◌≡◌, refl, sym, ◌⊎◌, Bool-cases, Option-cases, inl, inr,
}
use aegis_nexus.Common.Rows.{update_where, keep-update_where, keep-keep, keep_other}
use aegis_nexus.Common.Python.{Python}
use aegis_nexus.Casework.{CaseUpdate, is_empty_update}
use aegis_nexus.Casework.Updates.{normalize_case_update-IsValid}
use aegis_nexus.Cases.Data.{
  Case, Evidence, Note, Tables, Telemetry, updated, evidence_removed, note_added, has_id, is_closed,
  touch,
}
use aegis_nexus.Cases.{
  Bounds, delete_case, set_columns, has_columns, set_tags, update_case, same_evidence,
  of_case_evidence, of_case_note, is_available, add_case_evidence, evidence_row,
  remove_case_evidence, add_case_note,
}
use aegis_nexus.Cases.Step.{
  Step, pruned, created_case, deleted_case, updated_case, added_evidence, removed_evidence, noted,
}
use aegis_nexus.Cases.Kept.{
  first_closed, none_both, kept_row, prune_cases-Outcome, insert_case-Kept, when_there-Kept,
  insert_evidence-Kept,
}
use aegis_nexus.Cases.Changes.{
  Same, WasClosed, Kept, Outcome, no_change, other_row, keep-set_tags, keep-touch,
  delete_where-Same,
}

module _ (seen : ℕ → Tables) (t : Tables) (j : String) where
  delete_case-Outcome : (id : String) → WasClosed j (seen 0) ⊎ Kept j t (delete_case id seen t).0
  unfolding delete_case
  delete_case-Outcome id = elim (Option-cases (first (has_id id) (seen 0).cases)) [
    | inl absent ↦ inr (inl (rw (delete_case, absent) (no_change j t)))
    | inr (existing, found) ↦ elim (Bool-cases (is_closed existing)) [
      | inr active ↦ inr (inl (rw (delete_case, found, active) (no_change j t)))
      | inl closed ↦ elim (eq_cases id j) [
        | inl same ↦ inl (rw (sym same) (first_closed id (seen 0).cases existing found closed))
        | inr other ↦ inr (
            inl (
              rw (delete_case, found, closed)
                (delete_where-Same (has_id id) j t (none_both id j t.cases (==_ne id j other)))))
      ]
    ]
  ]

  updated-Same :
      (id : String) (u : CaseUpdate) (now : ℕ) (existing : Case)
      → (id == j) ≡ false
      → Same j t (record t {
        cases =
            if has_columns u
            then update_where (has_id id) (set_columns existing u now) t.cases
            else touch id now t.cases;
        tags = set_tags id u.tags t.tags;
      })
  updated-Same id u now existing other = record {
    cases = elim (Bool-cases (has_columns u)) [
      | inl columns ↦ rw columns (
          keep-update_where (has_id id) (has_id j) (set_columns existing u now)
            (λ x e. let no = other_row id j x.id other e in (no, no)) t.cases)
      | inr tags_only ↦ rw tags_only (keep-touch id j now t.cases other)
    ];
    tags = keep-set_tags id j u.tags t.tags other;
    evidence = refl;
    notes = refl;
    history = refl;
  }

  update_case-Kept :
      (id : String) (u : CaseUpdate) (now logged_at : ℕ)
      → is_empty_update u ≡ false
      → Kept j t (update_case id u now logged_at seen t).0
  unfolding update_case
  update_case-Kept id u now logged_at given =
      elim (Option-cases (first (has_id id) (seen 0).cases)) [
        | inl absent ↦ inl (rw (update_case, absent) (no_change j t))
        | inr (existing, found) ↦
            rw (update_case, found, given)
              (when_there-Kept t j id (updated u) logged_at
                (record t {
                  cases =
                      if has_columns u
                      then update_where (has_id id) (set_columns existing u now) t.cases
                      else touch id now t.cases;
                  tags = set_tags id u.tags t.tags;
                })
                refl (updated-Same id u now existing))
      ]

  add_case_evidence-Kept :
      (telemetry : Telemetry) (id type evidence_id : String) (now logged_at : ℕ)
      → Kept j t (add_case_evidence telemetry id type evidence_id now logged_at seen t).0
  unfolding add_case_evidence
  add_case_evidence-Kept telemetry id type evidence_id now logged_at =
      let nothing : Kept j t t = inl (no_change j t) in
      elim (Bool-cases (any (has_id id) (seen 0).cases)) [
        | inr absent ↦ rw absent nothing
        | inl there ↦
            elim (Bool-cases (any (same_evidence id type evidence_id) (seen 1).evidence)) [
              | inl known ↦ rw (there, known) nothing
              | inr new ↦
                  elim (Bool-cases
                    (leb 1000 (length (keep (of_case_evidence id) (seen 2).evidence)))) [
                      | inl full ↦ rw (there, new, full) nothing
                      | inr room ↦ elim (Bool-cases (is_available telemetry type evidence_id)) [
                        | inr unknown ↦ rw (there, new, room, unknown) nothing
                        | inl available ↦
                            rw (there, new, room, available)
                              (insert_evidence-Kept t j id type evidence_id now logged_at)
                      ]
                    ]
            ]
      ]

  remove_case_evidence-Kept :
      (id : String) (row_id now logged_at : ℕ)
      → Kept j t (remove_case_evidence id row_id now logged_at seen t).0
  unfolding remove_case_evidence
  remove_case_evidence-Kept id row_id now logged_at =
      let nothing : Kept j t t = inl (no_change j t) in
      elim (Bool-cases (any (has_id id) (seen 0).cases)) [
        | inr absent ↦ rw absent nothing
        | inl there ↦ elim (Option-cases (first (evidence_row row_id id) (seen 1).evidence)) [
          | inl unknown ↦ rw (there, unknown) nothing
          | inr (r, found) ↦
              let p : Evidence → Bool = λ e. not (evidence_row row_id id e) in
              rw (there, found)
                (when_there-Kept t j id (evidence_removed r.evidence_type r.evidence_id) logged_at
                  (record t { cases = touch id now t.cases; evidence = keep p t.evidence }) refl
                  (λ other. record {
                    cases = keep-touch id j now t.cases other;
                    tags = refl;
                    evidence =
                        keep-keep p (of_case_evidence j) (λ x e. kept_row row_id id j x other e)
                          t.evidence;
                    notes = refl;
                    history = refl;
                  }))
        ]
      ]

  add_case_note-Kept :
      (id body : String) (now logged_at : ℕ)
      → Kept j t (add_case_note id body now logged_at seen t).0
  unfolding add_case_note
  add_case_note-Kept id body now logged_at =
      let nothing : Kept j t t = inl (no_change j t) in
      elim (Bool-cases (any (has_id id) (seen 0).cases)) [
        | inr absent ↦ rw absent nothing
        | inl there ↦ elim (Bool-cases (leb 500 (length (keep (of_case_note id) (seen 1).notes)))) [
          | inl full ↦ rw (there, full) nothing
          | inr room ↦
              let n : Note = record {
                id = suc t.last_note;
                case_id = id;
                body = body;
                created_at = now;
              } in
              rw (there, room)
                (when_there-Kept t j id (note_added n.id) logged_at
                  (record t {
                    cases = touch id now t.cases;
                    notes = t.notes ++ n ∷ [];
                    last_note = n.id;
                  })
                  refl
                  (λ other. record {
                    cases = keep-touch id j now t.cases other;
                    tags = refl;
                    evidence = refl;
                    notes = keep_other (of_case_note j) t.notes n other;
                    history = refl;
                  }))
        ]
      ]

-- After a transaction of a case operation, whatever the call read before, what belongs to a case is
-- unchanged, its history included, or its history is the old one with one more entry at the end; only
-- of a case that is there and closed, or was so in the tables that the call first read, may it be
-- otherwise.
pub step-Outcome :
    (py : Python) (b : Bounds) (seen : ℕ → Tables) (t t' : Tables)
    → Step py b seen t t'
    → (id : String) → Outcome id (seen 0) t t'
step-Outcome py b seen t t' (pruned now) j = elim (prune_cases-Outcome t j b now) [
  | inl closed ↦ inl (inl closed)
  | inr same ↦ inr (inl same)
]
step-Outcome py b seen t t' (created_case payload d fresh now logged_at h) j =
    inr (insert_case-Kept t j b fresh d now logged_at)
step-Outcome py b seen t t' (deleted_case id) j = elim (delete_case-Outcome seen t j id) [
  | inl closed ↦ inl (inr closed)
  | inr kept ↦ inr kept
]
step-Outcome py b seen t t' (updated_case payload u id now logged_at h) j = inr (
    update_case-Kept seen t j id u now logged_at
      (normalize_case_update-IsValid py payload u h).some_field)
step-Outcome py b seen t t' (added_evidence tel payload type eid id now logged_at h) j =
    inr (add_case_evidence-Kept seen t j tel id type eid now logged_at)
step-Outcome py b seen t t' (removed_evidence id row_id now logged_at) j =
    inr (remove_case_evidence-Kept seen t j id row_id now logged_at)
step-Outcome py b seen t t' (noted payload body id now logged_at h) j =
    inr (add_case_note-Kept seen t j id body now logged_at)
