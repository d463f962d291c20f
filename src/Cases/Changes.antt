-- ===== src/Cases/Changes.antt =====
-- What a change of one case leaves of another.
use aegis_nexus.Common.{
  ℕ, suc, Bool, true, false, not, ◌&&◌, Option, none, some, List, [], ◌∷◌, ◌++◌, keep, any, String,
  ◌==◌, string_eq, eq_test, ==_self, ◌≡◌, refl, ◌∙◌, arith, ◌⊎◌,
}
use aegis_nexus.Common.Rows.{keep-update_where, keep-keep, keep_own, keep_other}
use aegis_nexus.Cases.Data.{
  Case, Tag, Entry, Action, Tables, delete_where, has_id, is_closed, case_log, add_tags, touch,
}
use aegis_nexus.Cases.{set_tags, of_case_evidence, of_case_note}
use aegis_nexus.Cases.Invariant.{tag_of, entry_of}

-- Nothing of the case `id` is changed.
pub record Same (id : String) (t t' : Tables) : Type 0 where
  pub cases : keep (has_id id) t'.cases ≡ keep (has_id id) t.cases
  pub tags : keep (tag_of id) t'.tags ≡ keep (tag_of id) t.tags
  pub evidence : keep (of_case_evidence id) t'.evidence ≡ keep (of_case_evidence id) t.evidence
  pub notes : keep (of_case_note id) t'.notes ≡ keep (of_case_note id) t.notes
  pub history : keep (entry_of id) t'.history ≡ keep (entry_of id) t.history

-- The history of the case has one more entry at its end.
abbrev pub IsLogged : String → Tables → Tables → Type 0
IsLogged id t t' =
    (e : Entry) × (keep (entry_of id) t'.history ≡ keep (entry_of id) t.history ++ e ∷ [])

-- The case was there and closed.
abbrev pub WasClosed : String → Tables → Type 0
WasClosed id t = any (λ c. is_closed c && c.id == id) t.cases ≡ true

abbrev pub Kept : String → Tables → Tables → Type 0
Kept id t t' = Same id t t' ⊎ IsLogged id t t'

-- `read` is what the call first read.
abbrev pub Outcome : String → Tables → Tables → Tables → Type 0
Outcome id read t t' = (WasClosed id t ⊎ WasClosed id read) ⊎ Kept id t t'

pub no_change : (id : String) (t : Tables) → Same id t t
no_change id t = record { cases = refl; tags = refl; evidence = refl; notes = refl; history = refl }

pub other_row : (id j s : String) → (id == j) ≡ false → (s == id) ≡ true → (s == j) ≡ false
other_row id j s other h = ground (arith, eq_test s id, eq_test s j, eq_test id j)

pub keep-add_tags :
    (id j : String) (names : List String) (rows : List Tag)
    → (id == j) ≡ false
    → keep (tag_of j) (add_tags id names rows) ≡ keep (tag_of j) rows
unfolding add_tags
keep-add_tags id j [] rows other = refl
keep-add_tags id j (name ∷ names) rows other =
    let row : Tag = record { case_id = id; tag = name } in
    ground (
      arith,
      keep-add_tags id j names rows other,
      keep-add_tags id j names (rows ++ row ∷ []) other,
      keep_other (tag_of j) rows row other,
    )

pub keep-set_tags :
    (id j : String) (names : Option (List String)) (rows : List Tag)
    → (id == j) ≡ false
    → keep (tag_of j) (set_tags id names rows) ≡ keep (tag_of j) rows
keep-set_tags id j none rows other = refl
keep-set_tags id j (some names) rows other =
    keep-add_tags id j names (keep (λ r. not (tag_of id r)) rows) other
    ∙ keep-keep (λ r. not (tag_of id r)) (tag_of j)
        (λ r e. ground (arith, eq_test r.case_id id, eq_test r.case_id j, eq_test id j)) rows

pub keep-touch :
    (id j : String) (now : ℕ) (cases : List Case)
    → (id == j) ≡ false
    → keep (has_id j) (touch id now cases) ≡ keep (has_id j) cases
keep-touch id j now cases other =
    keep-update_where (has_id id) (has_id j) (λ x. record x { updated_at = now })
      (λ x e. let no = other_row id j x.id other e in (no, no)) cases

pub logged :
    (id : String) (action : Action) (now : ℕ) (t t' : Tables)
    → t'.history ≡ t.history
    → IsLogged id t (case_log id action now t')
logged id action now t t' same =
    let e : Entry = record {
      id = suc t'.last_entry;
      case_id = id;
      timestamp = now;
      action = action;
    } in
    (e, rw same (keep_own (entry_of id) t.history e (==_self id)))

-- A change of other cases: what is logged is for `id`.
pub logged_other :
    (id j : String) (action : Action) (now : ℕ) (t t' : Tables)
    → (id == j) ≡ false
    → Same j t t'
    → Same j t (case_log id action now t')
logged_other id j action now t t' other same = record {
  cases = same.cases;
  tags = same.tags;
  evidence = same.evidence;
  notes = same.notes;
  history =
      keep_other (entry_of j) t'.history
        (record { id = suc t'.last_entry; case_id = id; timestamp = now; action = action }) other
      ∙ same.history;
}

not_gone :
    (p : Case → Bool) (s j : String) (cases : List Case)
    → (s == j) ≡ true
    → any (λ c. p c && c.id == j) cases ≡ false
    → not (any (λ c. p c && c.id == s) cases) ≡ true
not_gone p s j cases same kept = rw ((eq_test s j).0 same, kept) refl

keep_deleted :
    (p : Case → Bool) (j : String) (cases : List Case)
    → any (λ c. p c && c.id == j) cases ≡ false
    → keep (has_id j) (keep (λ c. not (p c)) cases) ≡ keep (has_id j) cases
keep_deleted p j [] kept = refl
keep_deleted p j (c ∷ cases) kept = ground (arith, keep_deleted p j cases)

pub delete_where-Same :
    (p : Case → Bool) (j : String) (t : Tables)
    → any (λ c. p c && c.id == j) t.cases ≡ false
    → Same j t (delete_where p t)
unfolding delete_where
delete_where-Same p j t kept = record {
  cases = keep_deleted p j t.cases kept;
  tags = keep-keep _ (tag_of j) (λ r e. not_gone p r.case_id j t.cases e kept) t.tags;
  evidence =
      keep-keep _ (of_case_evidence j) (λ r e. not_gone p r.case_id j t.cases e kept) t.evidence;
  notes = keep-keep _ (of_case_note j) (λ r e. not_gone p r.case_id j t.cases e kept) t.notes;
  history = keep-keep _ (entry_of j) (λ r e. not_gone p r.case_id j t.cases e kept) t.history;
}
