-- ===== src/Suppression/Trail.antt =====
-- The audit rows of the suppressions.
use aegis_nexus.Common.{
  ℕ, suc, Bool, true, false, not, ◌&&◌, List, [], ◌∷◌, ◌++◌, keep, any, first, String, ◌==◌,
  string_eq, ==_self, ◌⊎◌, ◌≡◌, arith, Option-cases, inl, inr, All, All-keep, All-append,
}
use aegis_nexus.Suppression.InForce.{Result-cases}
use aegis_nexus.Suppression.{
  Error, audit_row, actor_name, Library, Suppression, AuditRow, created, deleted, Tables, Request,
  ok, failed, create, delete, validate, has_id,
}

abbrev pub is_created : String → AuditRow → Bool
is_created id row = row.suppression_id == id && elim row.action [ created ↦ true | deleted ↦ false ]

-- Every suppression has an audit row of its creation.
abbrev pub IsTraced : Tables → Type 0
IsTraced t = All (λ s. any (is_created s.id) t.audit ≡ true) t.suppressions

any-more :
    (p : AuditRow → Bool) (rows more : List AuditRow)
    → any p rows ≡ true
    → any p (rows ++ more) ≡ true
any-more p [] more h = absurd (cc)
any-more p (x ∷ rows) more h = ground (arith, any-more p rows more)

any-end :
    (p : AuditRow → Bool) (rows : List AuditRow) (row : AuditRow)
    → p row ≡ true
    → any p (rows ++ row ∷ []) ≡ true
any-end p [] row h = ground arith
any-end p (x ∷ rows) row h = ground (arith, any-end p rows row h)

All-more :
    (rows more : List AuditRow) (kept : List Suppression)
    → All (λ s. any (is_created s.id) rows ≡ true) kept
    → All (λ s. any (is_created s.id) (rows ++ more) ≡ true) kept
All-more rows more [] h = tt
All-more rows more (s ∷ kept) h =
    (any-more (is_created s.id) rows more h.0, All-more rows more kept h.1)

module _ (lib : Library) where
  validated :
      (r : Request) (id : String) (now : ℕ)
      → ((e : Error) × (validate lib r id now ≡ failed e))
        ⊎ ((s : Suppression) × (validate lib r id now ≡ ok s))
  validated r id now = Result-cases (validate lib r id now)

  delete-IsTraced :
      (suppression_id actor : String) (now : ℕ) (t t' : Tables) (found : Bool)
      → IsTraced t
      → delete lib suppression_id actor now t ≡ ok (t', found)
      → IsTraced t'
  unfolding delete
  delete-IsTraced suppression_id actor now t t' found h e =
      let key = lib.slice 128 suppression_id in
      elim (Option-cases (first (has_id key) t.suppressions)) [
        | inl absent ↦ let same : t' ≡ t = ground arith in rw same h
        | inr (s, there) ↦
            let row = audit_row s deleted (lib.strip actor) now (suc t.last_audit) in
            let rows : t'.suppressions ≡ keep (λ x. not (has_id key x)) t.suppressions =
              ground arith in
            let logged : t'.audit ≡ t.audit ++ row ∷ [] = ground arith in
            rw (rows, logged)
              (All-more t.audit (row ∷ []) (keep (λ x. not (has_id key x)) t.suppressions) (
                All-keep (λ x. any (is_created x.id) t.audit ≡ true) (λ x. not (has_id key x))
                  t.suppressions h))
      ]

  create-IsTraced :
      (r : Request) (id : String) (now : ℕ) (t t' : Tables)
      → IsTraced t
      → create lib r id now t ≡ ok t'
      → IsTraced t'
  unfolding create
  create-IsTraced r id now t t' h e = elim (validated r id now) [
    | inl (error, e') ↦ absurd (ground arith)
    | inr (s, e') ↦
        let row = audit_row s created (actor_name lib r) now (suc t.last_audit) in
        let rows : t'.suppressions ≡ t.suppressions ++ s ∷ [] = ground arith in
        let logged : t'.audit ≡ t.audit ++ row ∷ [] = ground arith in
        rw (rows, logged)
          (All-append (λ x. any (is_created x.id) (t.audit ++ row ∷ []) ≡ true) t.suppressions
            (s ∷ []) (All-more t.audit (row ∷ []) t.suppressions h)
            (any-end (is_created s.id) t.audit row (ground (arith, ==_self s.id)), tt))
  ]

-- Calls of operators; one that fails changes nothing.
pub data Call : Type 0 where
  creating : (r : Request) (id : String) (now : ℕ) → Call
  deleting : (suppression_id actor : String) (now : ℕ) → Call

module _ (lib : Library) where
  abbrev pub perform : Call → Tables → Tables
  perform (creating r id now) t = elim (create lib r id now t) [ failed e ↦ t | ok t' ↦ t' ]
  perform (deleting suppression_id actor now) t = elim (delete lib suppression_id actor now t) [
    | failed e ↦ t
    | ok answer ↦ answer.0
  ]

  abbrev pub perform_all : List Call → Tables → Tables
  perform_all [] t = t
  perform_all (c ∷ calls) t = perform_all calls (perform c t)

  perform-IsTraced : (c : Call) (t : Tables) → IsTraced t → IsTraced (perform c t)
  perform-IsTraced (creating r id now) t h = elim (Result-cases (create lib r id now t)) [
    | inl (error, e) ↦ rw (perform, e) h
    | inr (t', e) ↦ rw (perform, e) (create-IsTraced lib r id now t t' h e)
  ]
  perform-IsTraced (deleting suppression_id actor now) t h =
      elim (Result-cases (delete lib suppression_id actor now t)) [
        | inl (error, e) ↦ rw (perform, e) h
        | inr ((t', found), e) ↦
            rw (perform, e) (delete-IsTraced lib suppression_id actor now t t' found h e)
      ]

  -- From tables where every suppression has an audit row of its creation, such as empty ones: every
  -- suppression has one after any calls of `create` and `delete` one after another, failed ones included.
  pub perform_all-IsTraced :
      (calls : List Call) (t : Tables) → IsTraced t → IsTraced (perform_all calls t)
  perform_all-IsTraced [] t h = h
  perform_all-IsTraced (c ∷ calls) t h =
      perform_all-IsTraced calls (perform c t) (perform-IsTraced c t h)
