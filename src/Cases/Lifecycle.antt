-- ===== src/Cases/Lifecycle.antt =====
-- A case that was created is shown as it was sent.
use mathlib.Core.Path.{subst}
use aegis_nexus.Common.{
  if◌then◌else◌, ℕ, suc, Bool, true, false, ltb, some, List, [], ◌∷◌, ◌++◌, keep, any, first,
  length, String, ◌==◌, string_eq, eq_test, ==_self, ==_ne, eq_cases, ap, map, ◌≡◌, refl, ◌∙◌,
  arith, Bool-cases, inl, inr,
}
use aegis_nexus.Common.Rows.{count, count-any, count-append, any-append, keep_own}
use aegis_nexus.Common.Order.{order_by, insert_by, count-order_by}
use aegis_nexus.Common.Result.{ok}
use aegis_nexus.Common.Sets.{elem}
use aegis_nexus.Casework.{CaseData}
use aegis_nexus.Cases.Data.{
  Tag, Entry, Tables, same_tag, Telemetry, created, has_id, case_log, add_tags,
}
use aegis_nexus.Cases.{
  Bounds, prune_cases, new_case, insert_case, create_case, of_case_evidence, of_case_note,
}
use aegis_nexus.Cases.Invariant.{tag_of, entry_of, IsConsistent}
use aegis_nexus.Cases.Views.{
  Collation, View, of_case_tag, case_tags, case_history, view_of, get_case,
}
use aegis_nexus.Cases.Creation.{prune_cases-IsConsistent}

first-append {ℓ} :
    {A : Type ℓ} (p : A → Bool) (xs : List A) (x : A)
    → any p xs ≡ false
    → p x ≡ true
    → first p (xs ++ x ∷ []) ≡ some x
first-append p [] x new own = ground arith
first-append p (y ∷ xs) x new own = ground (arith, first-append p xs x)

count-add_tags :
    (id name : String) (names : List String) (rows : List Tag)
    → count (same_tag id name) (add_tags id names rows) ≡ (
        if any (same_tag id name) rows
        then count (same_tag id name) rows
        else if elem name names
        then 1
        else 0)
unfolding add_tags
count-add_tags id name [] rows = elim (Bool-cases (any (same_tag id name) rows)) [
  | inl there ↦ ground arith
  | inr new ↦ ground (arith, count-any (same_tag id name) rows new)
]
count-add_tags id name (n ∷ names) rows =
    let row : Tag = record { case_id = id; tag = n } in
    elim (Bool-cases (any (same_tag id n) rows)) [
      | inl there ↦ elim (eq_cases n name) [
        | inl same ↦
            let already : any (same_tag id name) rows ≡ true =
              subst (λ x. any (same_tag id x) rows ≡ true) same there in
            ground (arith, count-add_tags id name names rows, already, eq_test n name)
        | inr other ↦ ground (arith, count-add_tags id name names rows, ==_ne n name other)
      ]
      | inr new ↦ elim (eq_cases n name) [
        | inl same ↦
            let none_yet : any (same_tag id name) rows ≡ false =
              subst (λ x. any (same_tag id x) rows ≡ false) same new in
            ground (
              arith,
              count-add_tags id name names (rows ++ row ∷ []),
              any-append (same_tag id name) rows row,
              count-append (same_tag id name) rows row,
              count-any (same_tag id name) rows none_yet,
              none_yet,
              ==_self id,
              eq_test n name,
            )
        | inr other ↦ ground (
          arith,
          count-add_tags id name names (rows ++ row ∷ []),
          any-append (same_tag id name) rows row,
          count-append (same_tag id name) rows row,
          ==_self id,
          ==_ne n name other,
        )
      ]
    ]

count-keep_tags :
    (id name : String) (rows : List Tag)
    → count (λ r. r.tag == name) (keep (of_case_tag id) rows) ≡ count (same_tag id name) rows
count-keep_tags id name [] = refl
count-keep_tags id name (r ∷ rows) = ground (arith, count-keep_tags id name rows)

no_tag :
    (id name : String) (rows : List Tag)
    → count (tag_of id) rows ≡ 0
    → any (same_tag id name) rows ≡ false
no_tag id name [] h = refl
no_tag id name (r ∷ rows) h = ground (arith, no_tag id name rows)

count-map {ℓ κ} :
    {A : Type ℓ} {B : Type κ} (p : B → Bool) (f : A → B) (xs : List A)
    → count p (map f xs) ≡ count (λ x. p (f x)) xs
count-map p f [] = refl
count-map p f (x ∷ xs) = ground (arith, count-map p f xs)

-- What is shown of a case just after it was created from `d`.
pub record IsCreated (id : String) (d : CaseData) (now : ℕ) (v : View) : Type 0 where
  pub row : v.row ≡ new_case id d now
  pub tags : (name : String) → count (λ s. s == name) v.tags ≡ (if elem name d.tags then 1 else 0)
  pub evidence : v.evidence ≡ []
  pub notes : v.notes ≡ []
  pub history : length v.history ≡ 1

nothing_of {ℓ} : {A : Type ℓ} (p : A → Bool) (xs : List A) → count p xs ≡ 0 → keep p xs ≡ []
nothing_of p [] h = refl
nothing_of p (x ∷ xs) h = ground (arith, nothing_of p xs)

view-IsCreated :
    (serial : Bool) (b : Bounds) (collation : Collation) (telemetry : Telemetry) (left : Tables)
    (id : String) (d : CaseData) (now logged_at : ℕ)
    → IsConsistent serial b left
    → any (has_id id) left.cases ≡ false
    → IsCreated id d now (
        view_of collation telemetry id
          (case_log id (created d.status d.severity) logged_at (record left {
            cases = left.cases ++ new_case id d now ∷ [];
            tags = add_tags id d.tags left.tags;
          }))
          (new_case id d now))
unfolding case_tags case_history order_by insert_by
view-IsCreated serial b collation telemetry left id d now logged_at c new =
    let old = c.owned id new in
    let e : Entry = record {
      id = suc left.last_entry;
      case_id = id;
      timestamp = logged_at;
      action = created d.status d.severity;
    } in
    let own : keep (entry_of id) (left.history ++ e ∷ []) ≡ e ∷ [] =
      keep_own (entry_of id) left.history e (==_self id)
      ∙ ap (λ es. es ++ e ∷ []) (nothing_of (entry_of id) left.history old.history) in
    record {
      row = refl;
      tags = λ name.
          let rows = add_tags id d.tags left.tags in
          count-map (λ s. s == name) (λ r. r.tag)
            (order_by (λ x y. collation.nocase x.tag y.tag) (keep (of_case_tag id) rows))
          ∙ count-order_by (λ x y. collation.nocase x.tag y.tag) (λ r. r.tag == name)
              (keep (of_case_tag id) rows)
          ∙ count-keep_tags id name rows
          ∙ count-add_tags id name d.tags left.tags
          ∙ rw (no_tag id name left.tags old.tags) refl;
      evidence = rw (nothing_of (of_case_evidence id) left.evidence old.evidence) refl;
      notes = rw (nothing_of (of_case_note id) left.notes old.notes) refl;
      history = rw own refl;
    }

-- In consistent tables, where no other call comes in between: a case that `create_case` answers with
-- is shown with exactly the data that was sent: its columns, each of its tags once and no other tag, no
-- evidence, no notes, and one entry in its history.
pub create_case-get_case :
    (serial : Bool) (b : Bounds) (collation : Collation) (telemetry : Telemetry) (t : Tables)
    (fresh id : String) (d : CaseData) (pruned_at now logged_at : ℕ)
    → IsConsistent serial b t
    → (create_case b fresh d pruned_at now logged_at t).1 ≡ ok (some id)
    → (v : View) × (get_case collation telemetry id
          (create_case b fresh d pruned_at now logged_at t).0
        ≡ some v)
      × IsCreated id d now v
unfolding create_case insert_case get_case
create_case-get_case serial b collation telemetry t fresh id d pruned_at now logged_at c h =
    let left = prune_cases b pruned_at t in
    let consistent = prune_cases-IsConsistent serial b t c pruned_at in
    elim (Bool-cases (ltb (length left.cases) b.max_cases)) [
      | inr full ↦ absurd (ground arith)
      | inl room ↦ elim (Bool-cases (any (has_id fresh) left.cases)) [
        | inl taken ↦ absurd (ground arith)
        | inr new ↦
            let same : id ≡ fresh = ground arith in
            let found : first (has_id fresh) (left.cases ++ new_case fresh d now ∷ [])
                ≡ some (new_case fresh d now) =
              first-append (has_id fresh) left.cases (new_case fresh d now) new (==_self fresh) in
            rw (same, room, new)
              (
                _,
                rw (get_case, found) refl,
                view-IsCreated serial b collation telemetry left fresh d now logged_at consistent
                    new,
              )
      ]
    ]
