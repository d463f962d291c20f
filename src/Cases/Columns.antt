-- ===== src/Cases/Columns.antt =====
-- The changes of the cases' own columns keep what holds of the tables.
use mathlib.Core.Path.{subst}
use aegis_nexus.Common.{
  ℕ, Bool, true, not, is_none, Bool-cases, Option, none, some, first, String, ◌==◌, string_eq, ◌≡◌,
  refl, sym, ap, ◌∙◌, Option-cases, arith, All, inl, inr,
}
use aegis_nexus.Common.Rows.{
  update_where, count-update_where, any-update_where, length-update_where, All-update_where,
  All-update_first, All-first, some_inj,
}
use aegis_nexus.Common.Sets.{elem}
use aegis_nexus.Casework.{CaseUpdate, case_statuses}
use aegis_nexus.Casework.Updates.{Given}
use aegis_nexus.Cases.Data.{Case, Tables, has_id, is_closed, touch}
use aegis_nexus.Cases.{Bounds, set_columns}
use aegis_nexus.Cases.Invariant.{IsRow, IsConsistent}

Given-status :
    (o : Option String) (s : String)
    → o ≡ some s
    → Given (λ x. elem x case_statuses ≡ true) o
    → elem s case_statuses ≡ true
Given-status none s h g = absurd (cc)
Given-status (some a) s h g = subst (λ x. elem x case_statuses ≡ true) (some_inj a s h) g

set_columns-status :
    (existing x : Case) (u : CaseUpdate) (now : ℕ)
    → Given (λ s. elem s case_statuses ≡ true) u.status
    → elem x.status case_statuses ≡ true
    → elem (set_columns existing u now x).status case_statuses ≡ true
set_columns-status existing x u now valid h = elim (Option-cases u.status) [
  | inl kept ↦ rw kept h
  | inr (s, given) ↦ rw given (Given-status u.status s given valid)
]

set_columns-closed :
    (x : Case) (u : CaseUpdate) (now : ℕ)
    → is_none x.closed_at ≡ not (is_closed x)
    → is_none (set_columns x u now x).closed_at ≡ not (is_closed (set_columns x u now x))
set_columns-closed x u now h = elim (Option-cases u.status) [
  | inl kept ↦ rw kept h
  | inr (s, given) ↦ rw given (ground (arith, h))
]

module _ (serial : Bool) (b : Bounds) where
  -- An update of rows that keeps their identifiers, given that it keeps them rows.
  pub update_cases-IsConsistent :
      (p : Case → Bool) (f : Case → Case) (t : Tables)
      → ((c : Case) → (f c).id ≡ c.id)
      → All (IsRow serial) (update_where p f t.cases)
      → IsConsistent serial b t
      → IsConsistent serial b (record t { cases = update_where p f t.cases })
  update_cases-IsConsistent p f t same rows c = record {
    capacity = omega (arith, c.capacity, length-update_where p f t.cases);
    one_row = λ id. omega (
      arith,
      c.one_row id,
      count-update_where p (has_id id) f (λ x. ap (λ i. i == id) (same x)) t.cases,
    );
    rows = rows;
    few_tags = c.few_tags;
    few_evidence = c.few_evidence;
    few_notes = c.few_notes;
    one_reference = c.one_reference;
    owned = λ id absent.
        let old = c.owned id (
          sym (any-update_where p (has_id id) f (λ x. ap (λ i. i == id) (same x)) t.cases)
          ∙ absent) in
        record {
          tags = old.tags;
          evidence = old.evidence;
          notes = old.notes;
          history = old.history;
        };
  }

  pub touch-IsConsistent :
      (id : String) (now : ℕ) (t : Tables)
      → IsConsistent serial b t
      → IsConsistent serial b (record t { cases = touch id now t.cases })
  touch-IsConsistent id now t c =
      update_cases-IsConsistent (has_id id) (λ x. record x { updated_at = now }) t (λ x. refl)
        (All-update_where (IsRow serial) (has_id id) (λ x. record x { updated_at = now })
          (λ x r. record { status = r.status; closed = r.closed }) t.cases c.rows)
        c

  pub set_columns-IsConsistent :
      (id : String) (existing : Case) (u : CaseUpdate) (now : ℕ) (t : Tables)
      → (serial ≡ true → first (has_id id) t.cases ≡ some existing)
      → Given (λ s. elem s case_statuses ≡ true) u.status
      → IsConsistent serial b t
      → IsConsistent serial b
          (record t { cases = update_where (has_id id) (set_columns existing u now) t.cases })
  set_columns-IsConsistent id existing u now t found valid c =
      let change = set_columns existing u now in
      update_cases-IsConsistent (has_id id) change t (λ x. refl)
        (elim (Bool-cases serial) [
          | inl alone ↦
              let row =
                All-first (IsRow serial) (has_id id) t.cases existing c.rows (found alone) in
              All-update_first (IsRow serial) (has_id id) change t.cases existing c.rows
                (c.one_row id) (found alone)
                (record {
                  status = set_columns-status existing existing u now valid row.status;
                  closed = λ s. set_columns-closed existing u now (row.closed s);
                })
          | inr others ↦
              All-update_where (IsRow serial) (has_id id) change
                (λ x r. record {
                  status = set_columns-status existing x u now valid r.status;
                  closed = λ s. absurd (cc);
                })
                t.cases c.rows
        ])
        c
