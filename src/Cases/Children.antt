-- ===== src/Cases/Children.antt =====
-- The changes of the tags, evidence and notes of a case, and a new case, keep what holds of the tables.
use aegis_nexus.Common.{
  ◌+◌, ◌≤◌, ◌<◌, Bool, true, false, not, if◌then◌else◌, Option, none, some, List, [], ◌∷◌, ◌++◌,
  keep, any, length, String, ◌==◌, string_eq, eq_test, ==_self, ==_ne, eq_cases, ◌≡◌, sym, arith,
  Bool-cases, inl, inr,
}
use aegis_nexus.Common.Rows.{count, count-append, count-any, count-keep, count_deleted}
use aegis_nexus.Casework.Updates.{Given}
use aegis_nexus.Cases.Data.{Tag, Evidence, Note, Tables, has_id, add_tags}
use aegis_nexus.Cases.{Bounds, set_tags, same_evidence, of_case_evidence, of_case_note}
use aegis_nexus.Cases.Invariant.{tag_of, IsConsistent, apart}

count-add_tags :
    (id j : String) (names : List String) (rows : List Tag)
    → count (tag_of j) (add_tags id names rows)
      ≤ count (tag_of j) rows + (if id == j then length names else 0)
unfolding add_tags
count-add_tags id j [] rows = ground arith
count-add_tags id j (name ∷ names) rows =
    let row : Tag = record { case_id = id; tag = name } in
    ground (
      arith,
      count-add_tags id j names rows,
      count-add_tags id j names (rows ++ row ∷ []),
      count-append (tag_of j) rows row,
    )

abbrev pub with_tags : String → Option (List String) → Tables → Tables
with_tags id names t = record t { tags = set_tags id names t.tags }

set_tags-few :
    (id j : String) (names : Option (List String)) (rows : List Tag)
    → Given (λ ns. length ns ≤ 20) names
    → count (tag_of j) rows ≤ 20
    → count (tag_of j) (set_tags id names rows) ≤ 20
set_tags-few id j none rows few h = h
set_tags-few id j (some names) rows few h =
    let left = keep (λ r. not (tag_of id r)) rows in
    elim (eq_cases id j) [
      | inl same ↦ rw (sym same) (
          ground
            (arith, count-add_tags id id names left, count_deleted (tag_of id) rows, ==_self id))
      | inr other ↦ ground (
        arith,
        count-add_tags id j names left,
        count-keep (tag_of j) (λ r. not (tag_of id r)) rows,
        ==_ne id j other,
      )
    ]

set_tags-other :
    (id j : String) (names : Option (List String)) (rows : List Tag)
    → (id == j) ≡ false
    → count (tag_of j) rows ≡ 0
    → count (tag_of j) (set_tags id names rows) ≡ 0
set_tags-other id j none rows other h = h
set_tags-other id j (some names) rows other h = ground (
  arith,
  count-add_tags id j names (keep (λ r. not (tag_of id r)) rows),
  count-keep (tag_of j) (λ r. not (tag_of id r)) rows,
)

one_more_reference :
    (r : Evidence) (rows : List Evidence) (j type evidence_id : String)
    → any (same_evidence r.case_id r.evidence_type r.evidence_id) rows ≡ false
    → count (same_evidence j type evidence_id) rows ≤ 1
    → count (same_evidence j type evidence_id) (rows ++ r ∷ []) ≤ 1
one_more_reference r rows j type evidence_id new h =
    elim (Bool-cases (same_evidence j type evidence_id r)) [
      | inr other ↦ ground (arith, count-append (same_evidence j type evidence_id) rows r)
      | inl same ↦
          let i : r.case_id ≡ j = ground (arith, eq_test r.case_id j) in
          let k : r.evidence_type ≡ type = ground (arith, eq_test r.evidence_type type) in
          let l : r.evidence_id ≡ evidence_id = ground (arith, eq_test r.evidence_id evidence_id) in
          let none_yet : any (same_evidence j type evidence_id) rows ≡ false =
            rw (sym i, sym k, sym l) new in
          ground (
            arith,
            count-append (same_evidence j type evidence_id) rows r,
            count-any (same_evidence j type evidence_id) rows none_yet,
          )
    ]

module _ (serial : Bool) (b : Bounds) (id : String) (t : Tables)
    (there : any (has_id id) t.cases ≡ true) (c : IsConsistent serial b t) where
  pub with_tags-IsConsistent :
      (names : Option (List String))
      → Given (λ ns. length ns ≤ 20) names
      → IsConsistent serial b (with_tags id names t)
  with_tags-IsConsistent names few = record {
    capacity = c.capacity;
    one_row = c.one_row;
    rows = c.rows;
    few_tags = λ j. set_tags-few id j names t.tags few (c.few_tags j);
    few_evidence = c.few_evidence;
    few_notes = c.few_notes;
    one_reference = c.one_reference;
    owned = λ j absent.
        let old = c.owned j absent in
        record {
          tags = set_tags-other id j names t.tags (apart id j t.cases there absent) old.tags;
          evidence = old.evidence;
          notes = old.notes;
          history = old.history;
        };
  }

  pub with_evidence-IsConsistent :
      (r : Evidence)
      → r.case_id ≡ id
      → any (same_evidence id r.evidence_type r.evidence_id) t.evidence ≡ false
      → (serial ≡ true → count (of_case_evidence id) t.evidence < 1000)
      → IsConsistent serial b (record t { evidence = t.evidence ++ r ∷ []; last_evidence = r.id })
  with_evidence-IsConsistent r own new few = record {
    capacity = c.capacity;
    one_row = c.one_row;
    rows = c.rows;
    few_tags = c.few_tags;
    few_evidence = λ s j. ground (
      arith,
      c.few_evidence s j,
      few s,
      count-append (of_case_evidence j) t.evidence r,
      eq_test r.case_id j,
    );
    few_notes = c.few_notes;
    one_reference = λ j type evidence_id.
        one_more_reference r t.evidence j type evidence_id (rw own new)
          (c.one_reference j type evidence_id);
    owned = λ j absent.
        let old = c.owned j absent in
        record {
          tags = old.tags;
          evidence = ground (
            arith,
            old.evidence,
            count-append (of_case_evidence j) t.evidence r,
            apart id j t.cases there absent,
          );
          notes = old.notes;
          history = old.history;
        };
  }

  pub without_evidence-IsConsistent :
      (p : Evidence → Bool) → IsConsistent serial b (record t { evidence = keep p t.evidence })
  without_evidence-IsConsistent p = record {
    capacity = c.capacity;
    one_row = c.one_row;
    rows = c.rows;
    few_tags = c.few_tags;
    few_evidence =
        λ s j. omega (arith, c.few_evidence s j, count-keep (of_case_evidence j) p t.evidence);
    few_notes = c.few_notes;
    one_reference = λ j type evidence_id. omega (
      arith,
      c.one_reference j type evidence_id,
      count-keep (same_evidence j type evidence_id) p t.evidence,
    );
    owned = λ j absent.
        let old = c.owned j absent in
        record {
          tags = old.tags;
          evidence = omega (arith, old.evidence, count-keep (of_case_evidence j) p t.evidence);
          notes = old.notes;
          history = old.history;
        };
  }

  pub with_note-IsConsistent :
      (n : Note)
      → n.case_id ≡ id
      → (serial ≡ true → count (of_case_note id) t.notes < 500)
      → IsConsistent serial b (record t { notes = t.notes ++ n ∷ []; last_note = n.id })
  with_note-IsConsistent n own few = record {
    capacity = c.capacity;
    one_row = c.one_row;
    rows = c.rows;
    few_tags = c.few_tags;
    few_evidence = c.few_evidence;
    few_notes = λ s j. ground (
      arith,
      c.few_notes s j,
      few s,
      count-append (of_case_note j) t.notes n,
      eq_test n.case_id j,
    );
    one_reference = c.one_reference;
    owned = λ j absent.
        let old = c.owned j absent in
        record {
          tags = old.tags;
          evidence = old.evidence;
          notes = ground (
            arith,
            old.notes,
            count-append (of_case_note j) t.notes n,
            apart id j t.cases there absent,
          );
          history = old.history;
        };
  }
