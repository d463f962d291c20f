-- ===== src/Cases/Kept.antt =====
-- What the transactions of the case operations leave of each case.
use mathlib.Core.Path.{subst}
use aegis_nexus.Common.{
  ℕ, suc, true, false, not, ◌&&◌, ltb, leb, some, List, [], ◌∷◌, ◌++◌, any, first, length, String,
  ◌==◌, string_eq, eq_test, ==_ne, eq_cases, ◌≡◌, refl, arith, ◌⊎◌, Bool-cases, Option-cases, inl,
  inr,
}
use aegis_nexus.Common.Rows.{some_inj, keep_other}
use aegis_nexus.Casework.{CaseData}
use aegis_nexus.Cases.Data.{
  Case, Evidence, Action, Tables, created, evidence_added, has_id, is_closed, case_log, add_tags,
  touch,
}
use aegis_nexus.Cases.{
  Bounds, is_expired, prune_cases, new_case, insert_case, when_there, insert_evidence,
  same_evidence, of_case_evidence, evidence_row,
}
use aegis_nexus.Cases.Changes.{
  Same, IsLogged, WasClosed, Kept, no_change, other_row, keep-add_tags, keep-touch, logged,
  logged_other, delete_where-Same,
}

expired_closed :
    (days now : ℕ) (id : String) (cases : List Case)
    → any (λ c. is_expired days now c && c.id == id) cases ≡ true
    → any (λ c. is_closed c && c.id == id) cases ≡ true
expired_closed days now id [] h = h
expired_closed days now id (c ∷ cases) h = elim (Option-cases c.closed_at) [
  | inl none_yet ↦ ground (arith, expired_closed days now id cases)
  | inr (at, closed) ↦ ground (arith, expired_closed days now id cases)
]

pub first_closed :
    (id : String) (cases : List Case) (c : Case)
    → first (has_id id) cases ≡ some c
    → is_closed c ≡ true
    → any (λ x. is_closed x && x.id == id) cases ≡ true
first_closed id [] c h closed = absurd (cc)
first_closed id (x ∷ cases) c h closed = elim (Bool-cases (x.id == id)) [
  | inl e ↦
      let same : x ≡ c = some_inj x c (rw e at h) in
      let also : is_closed x ≡ true = rw same closed in ground arith
  | inr e ↦ ground (arith, first_closed id cases c (rw e at h) closed)
]

pub none_both :
    (id j : String) (cases : List Case)
    → (id == j) ≡ false
    → any (λ c. has_id id c && c.id == j) cases ≡ false
none_both id j [] other = refl
none_both id j (c ∷ cases) other =
    ground (arith, none_both id j cases other, other_row id j c.id other)

-- What a logged change of `id` is for `j`.
logged-Outcome :
    (t : Tables) (j id : String) (action : Action) (now : ℕ) (t' : Tables)
    → t'.history ≡ t.history
    → ((id == j) ≡ false → Same j t t')
    → Same j t (case_log id action now t') ⊎ IsLogged j t (case_log id action now t')
logged-Outcome t j id action now t' same others = elim (eq_cases id j) [
  | inl e ↦
      inr (subst (λ i. IsLogged i t (case_log id action now t')) e (logged id action now t t' same))
  | inr e ↦ inl (logged_other id j action now t t' (==_ne id j e) (others (==_ne id j e)))
]

pub kept_row :
    (row_id : ℕ) (id j : String) (r : Evidence)
    → (id == j) ≡ false
    → of_case_evidence j r ≡ true
    → not (evidence_row row_id id r) ≡ true
kept_row row_id id j r other h =
    ground (arith, eq_test r.case_id id, eq_test r.case_id j, eq_test id j)

module _ (t : Tables) (j : String) where
  pub prune_cases-Outcome : (b : Bounds) (now : ℕ) → WasClosed j t ⊎ Same j t (prune_cases b now t)
  unfolding prune_cases
  prune_cases-Outcome b now = elim (Bool-cases (leb b.retention_days 0)) [
    | inl never ↦ inr (rw never (no_change j t))
    | inr some_days ↦
        elim (Bool-cases (any (λ c. is_expired b.retention_days now c && c.id == j) t.cases)) [
          | inl gone ↦ inl (expired_closed b.retention_days now j t.cases gone)
          | inr kept ↦
              inr (rw some_days (delete_where-Same (is_expired b.retention_days now) j t kept))
        ]
  ]

  pub insert_case-Kept :
      (b : Bounds) (fresh : String) (d : CaseData) (now logged_at : ℕ)
      → Kept j t (insert_case b fresh d now logged_at t).0
  unfolding insert_case
  insert_case-Kept b fresh d now logged_at = elim (Bool-cases (ltb (length t.cases) b.max_cases)) [
    | inr full ↦ inl (rw full (no_change j t))
    | inl room ↦ elim (Bool-cases (any (has_id fresh) t.cases)) [
      | inl taken ↦ inl (rw (room, taken) (no_change j t))
      | inr new ↦
          rw (room, new)
            (logged-Outcome t j fresh (created d.status d.severity) logged_at
              (record t {
                cases = t.cases ++ new_case fresh d now ∷ [];
                tags = add_tags fresh d.tags t.tags;
              })
              refl
              (λ other. record {
                cases = keep_other (has_id j) t.cases (new_case fresh d now) other;
                tags = keep-add_tags fresh j d.tags t.tags other;
                evidence = refl;
                notes = refl;
                history = refl;
              }))
    ]
  ]

  -- A transaction that raises where the case is gone.
  pub when_there-Kept :
      (id : String) (action : Action) (now : ℕ) (t' : Tables)
      → t'.history ≡ t.history
      → ((id == j) ≡ false → Same j t t')
      → Kept j t (when_there id t (case_log id action now t')).0
  when_there-Kept id action now t' same others = elim (Bool-cases (any (has_id id) t.cases)) [
    | inl there ↦ rw there (logged-Outcome t j id action now t' same others)
    | inr gone ↦ inl (rw gone (no_change j t))
  ]

  pub insert_evidence-Kept :
      (id type evidence_id : String) (now logged_at : ℕ)
      → Kept j t (insert_evidence id type evidence_id now logged_at t).0
  insert_evidence-Kept id type evidence_id now logged_at =
      let r : Evidence = record {
        id = suc t.last_evidence;
        case_id = id;
        evidence_type = type;
        evidence_id = evidence_id;
        added_at = now;
      } in
      elim (Bool-cases (any (same_evidence id type evidence_id) t.evidence)) [
        | inl known ↦ inl (rw known (no_change j t))
        | inr new ↦ rw new (
            when_there-Kept id (evidence_added type evidence_id) logged_at
              (record t {
                cases = touch id now t.cases;
                evidence = t.evidence ++ r ∷ [];
                last_evidence = r.id;
              })
              refl
              (λ other. record {
                cases = keep-touch id j now t.cases other;
                tags = refl;
                evidence = keep_other (of_case_evidence j) t.evidence r other;
                notes = refl;
                history = refl;
              }))
      ]
