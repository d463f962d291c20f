-- ===== src/Cases/Creation.antt =====
-- The creation of a case, and the deletion of expired cases before it, keep what holds of the tables.
use aegis_nexus.Common.{
  ℕ, ◌≤◌, ◌<◌, Bool, true, false, not, ltb, leb, some, [], ◌∷◌, ◌++◌, keep, any, length, String,
  string_eq, eq_test, ==_self, ◌≡◌, arith, All-append, length-append, Bool-cases, inl, inr,
}
use aegis_nexus.Common.Rows.{count-append, count-any, any-append, keep_none}
use aegis_nexus.Common.Sets.{elem}
use aegis_nexus.Casework.{CaseData, case_statuses}
use aegis_nexus.Cases.Data.{Tables, created, has_id, add_tags}
use aegis_nexus.Cases.{Bounds, is_expired, prune_cases, new_case, insert_case}
use aegis_nexus.Cases.Invariant.{
  tag_of, IsRow, IsConsistent, delete_where-IsConsistent, case_log-IsConsistent,
}
use aegis_nexus.Cases.Children.{with_tags-IsConsistent}

new_case-IsRow :
    (serial : Bool) (id : String) (d : CaseData) (now : ℕ)
    → elem d.status case_statuses ≡ true
    → IsRow serial (new_case id d now)
new_case-IsRow serial id d now h = record { status = h; closed = λ s. ground arith }

module _ (serial : Bool) (b : Bounds) (t : Tables) (c : IsConsistent serial b t) where
  pub inserted-IsConsistent :
      (id : String) (d : CaseData) (now : ℕ)
      → elem d.status case_statuses ≡ true
      → any (has_id id) t.cases ≡ false
      → length t.cases < b.max_cases
      → IsConsistent serial b (record t { cases = t.cases ++ new_case id d now ∷ [] })
  inserted-IsConsistent id d now valid new room = record {
    capacity = omega (arith, length-append t.cases (new_case id d now ∷ []));
    one_row = λ j. ground (
      arith,
      c.one_row j,
      count-any (has_id id) t.cases new,
      eq_test id j,
      count-append (has_id j) t.cases (new_case id d now),
    );
    rows =
        All-append (IsRow serial) t.cases (new_case id d now ∷ []) c.rows
          (new_case-IsRow serial id d now valid, tt);
    few_tags = c.few_tags;
    few_evidence = c.few_evidence;
    few_notes = c.few_notes;
    one_reference = c.one_reference;
    owned = λ j absent.
        let old = c.owned j (ground (arith, any-append (has_id j) t.cases (new_case id d now))) in
        record {
          tags = old.tags;
          evidence = old.evidence;
          notes = old.notes;
          history = old.history;
        };
  }

  pub prune_cases-IsConsistent : (now : ℕ) → IsConsistent serial b (prune_cases b now t)
  unfolding prune_cases
  prune_cases-IsConsistent now = elim (Bool-cases (leb b.retention_days 0)) [
    | inl never ↦ rw never c
    | inr some_days ↦
        rw some_days (delete_where-IsConsistent serial b (is_expired b.retention_days now) t c)
  ]

  pub insert_case-IsConsistent :
      (fresh : String) (d : CaseData) (now logged_at : ℕ)
      → elem d.status case_statuses ≡ true
      → length d.tags ≤ 20
      → IsConsistent serial b (insert_case b fresh d now logged_at t).0
  unfolding insert_case
  insert_case-IsConsistent fresh d now logged_at valid few =
      elim (Bool-cases (ltb (length t.cases) b.max_cases)) [
        | inr full ↦ rw full c
        | inl room ↦ elim (Bool-cases (any (has_id fresh) t.cases)) [
          | inl taken ↦ rw (room, taken) c
          | inr new ↦
              let inserted = record t { cases = t.cases ++ new_case fresh d now ∷ [] } in
              let there : any (has_id fresh) inserted.cases ≡ true =
                ground (
                  arith,
                  any-append (has_id fresh) t.cases (new_case fresh d now),
                  ==_self fresh,
                ) in
              let untagged : keep (λ r. not (tag_of fresh r)) t.tags ≡ t.tags =
                keep_none (tag_of fresh) t.tags (c.owned fresh new).tags in
              let tagged : IsConsistent serial b
                  (record inserted { tags = add_tags fresh d.tags t.tags }) =
                rw untagged at (
                  with_tags-IsConsistent serial b fresh inserted there
                    (inserted-IsConsistent fresh d now valid new (ground arith)) (some d.tags)
                    few) in
              rw (room, new)
                (case_log-IsConsistent serial b fresh (created d.status d.severity) logged_at
                  (record inserted { tags = add_tags fresh d.tags t.tags }) there tagged)
        ]
      ]
