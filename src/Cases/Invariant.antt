-- ===== src/Cases/Invariant.antt =====
-- What holds of the tables of cases, and that each kind of change keeps it.
use aegis_nexus.Common.{
  ℕ, suc, ◌≤◌, Bool, true, false, not, ◌&&◌, is_none, if◌then◌else◌, List, [], ◌∷◌, keep, any,
  length, String, ◌==◌, string_eq, eq_test, ◌≡◌, refl, arith, All, All-keep, length-keep,
  Bool-cases, inl, inr,
}
use aegis_nexus.Common.Rows.{count, count-append, count-keep}
use aegis_nexus.Common.Sets.{elem}
use aegis_nexus.Casework.{case_statuses}
use aegis_nexus.Cases.Data.{
  Case, Tag, Entry, Action, Tables, has_id, is_closed, delete_where, case_log,
}
use aegis_nexus.Cases.{Bounds, same_evidence, of_case_evidence, of_case_note}

abbrev pub tag_of : String → Tag → Bool
tag_of id r = r.case_id == id

abbrev pub entry_of : String → Entry → Bool
entry_of id r = r.case_id == id

-- The rows of other tables that belong to a case.
pub record HasNoRows (t : Tables) (id : String) : Type 0 where
  pub tags : count (tag_of id) t.tags ≡ 0
  pub evidence : count (of_case_evidence id) t.evidence ≡ 0
  pub notes : count (of_case_note id) t.notes ≡ 0
  pub history : count (entry_of id) t.history ≡ 0

-- A status of the list, and, when calls come one after another, a time of closing exactly where it is
-- closed.
pub record IsRow (serial : Bool) (c : Case) : Type 0 where
  pub status : elem c.status case_statuses ≡ true
  pub closed : serial ≡ true → is_none c.closed_at ≡ not (is_closed c)

-- `serial` tells whether calls come one after another.
pub record IsConsistent (serial : Bool) (b : Bounds) (t : Tables) : Type 0 where
  pub capacity : length t.cases ≤ b.max_cases
  pub one_row : (id : String) → count (has_id id) t.cases ≤ 1
  pub rows : All (IsRow serial) t.cases
  pub few_tags : (id : String) → count (tag_of id) t.tags ≤ 20
  pub few_evidence : serial ≡ true → (id : String) → count (of_case_evidence id) t.evidence ≤ 1000
  pub few_notes : serial ≡ true → (id : String) → count (of_case_note id) t.notes ≤ 500
  pub one_reference :
      (id type evidence_id : String) → count (same_evidence id type evidence_id) t.evidence ≤ 1
  pub owned : (id : String) → any (has_id id) t.cases ≡ false → HasNoRows t id

module _ {A : Type 0} (case_of : A → String) (gone : String → Bool) (id : String) where
  -- What the foreign keys leave of the rows of one case.
  pub count_cascade :
      (rows : List A)
      → count (λ r. case_of r == id) (keep (λ r. not (gone (case_of r))) rows)
        ≡ (if gone id then 0 else count (λ r. case_of r == id) rows)
  count_cascade [] = ground arith
  count_cascade (r ∷ rows) = ground (arith, count_cascade rows, eq_test (case_of r) id)

pub any-deleted :
    (p : Case → Bool) (id : String) (cases : List Case)
    → any (λ c. p c && c.id == id) cases ≡ false
    → any (has_id id) (keep (λ c. not (p c)) cases) ≡ any (has_id id) cases
any-deleted p id [] h = refl
any-deleted p id (c ∷ cases) h = ground (arith, any-deleted p id cases)

deleted-HasNoRows :
    (p : Case → Bool) (t : Tables)
    → ((id : String) → any (has_id id) t.cases ≡ false → HasNoRows t id)
    → (id : String) → any (has_id id) (delete_where p t).cases ≡ false
    → HasNoRows (delete_where p t) id
unfolding delete_where
deleted-HasNoRows p t owned id absent =
    let gone : String → Bool = λ j. any (λ c. p c && c.id == j) t.cases in
    elim (Bool-cases (gone id)) [
      | inl cascaded ↦ record {
        tags = ground (arith, count_cascade (λ r. r.case_id) gone id t.tags);
        evidence = ground (arith, count_cascade (λ r. r.case_id) gone id t.evidence);
        notes = ground (arith, count_cascade (λ r. r.case_id) gone id t.notes);
        history = ground (arith, count_cascade (λ r. r.case_id) gone id t.history);
      }
      | inr kept ↦
          let old = owned id (ground (arith, any-deleted p id t.cases)) in
          record {
            tags = ground (arith, old.tags, count_cascade (λ r. r.case_id) gone id t.tags);
            evidence =
                ground (arith, old.evidence, count_cascade (λ r. r.case_id) gone id t.evidence);
            notes = ground (arith, old.notes, count_cascade (λ r. r.case_id) gone id t.notes);
            history = ground (arith, old.history, count_cascade (λ r. r.case_id) gone id t.history);
          }
    ]

pub apart :
    (id j : String) (cases : List Case)
    → any (has_id id) cases ≡ true
    → any (has_id j) cases ≡ false
    → (id == j) ≡ false
apart id j cases there absent = elim (Bool-cases (id == j)) [
  | inr other ↦ other
  | inl same ↦ absurd (cc ((eq_test id j).0 same))
]

module _ (serial : Bool) (b : Bounds) where
  pub delete_where-IsConsistent :
      (p : Case → Bool) (t : Tables)
      → IsConsistent serial b t
      → IsConsistent serial b (delete_where p t)
  unfolding delete_where
  delete_where-IsConsistent p t c = record {
    capacity = omega (arith, c.capacity, length-keep (λ x. not (p x)) t.cases);
    one_row = λ id. omega (arith, c.one_row id, count-keep (has_id id) (λ x. not (p x)) t.cases);
    rows = All-keep (IsRow serial) (λ x. not (p x)) t.cases c.rows;
    few_tags = λ id. omega (arith, c.few_tags id, count-keep (tag_of id) _ t.tags);
    few_evidence =
        λ s id. omega (arith, c.few_evidence s id, count-keep (of_case_evidence id) _ t.evidence);
    few_notes = λ s id. omega (arith, c.few_notes s id, count-keep (of_case_note id) _ t.notes);
    one_reference = λ id type evidence_id. omega (
      arith,
      c.one_reference id type evidence_id,
      count-keep (same_evidence id type evidence_id) _ t.evidence,
    );
    owned = deleted-HasNoRows p t c.owned;
  }

  pub case_log-IsConsistent :
      (id : String) (action : Action) (now : ℕ) (t : Tables)
      → any (has_id id) t.cases ≡ true
      → IsConsistent serial b t
      → IsConsistent serial b (case_log id action now t)
  case_log-IsConsistent id action now t there c = record {
    capacity = c.capacity;
    one_row = c.one_row;
    rows = c.rows;
    few_tags = c.few_tags;
    few_evidence = c.few_evidence;
    few_notes = c.few_notes;
    one_reference = c.one_reference;
    owned = λ j absent.
        let old = c.owned j absent in
        record {
          tags = old.tags;
          evidence = old.evidence;
          notes = old.notes;
          history = ground (
            arith,
            old.history,
            apart id j t.cases there absent,
            count-append (entry_of j) t.history
                (record { id = suc t.last_entry; case_id = id; timestamp = now; action = action }),
          );
        };
  }
