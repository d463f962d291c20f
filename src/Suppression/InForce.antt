-- ===== src/Suppression/InForce.antt =====
-- Which findings a suppression silences, and until when.
use mathlib.Core.Path.{subst}
use aegis_nexus.Common.Rows.{some_inj}
use aegis_nexus.Common.{
  none, ◌==◌, eq_test, Option-cases, ap, ◌∙◌, All-keep, ℕ, ◌+◌, ◌≤◌, ◌<◌, Bool, true, false, not,
  Option, some, List, [], ◌∷◌, ◌++◌, keep, any, first, String, string_eq, ==_self, ◌⊎◌, ◌≡◌, refl,
  arith, Bool-cases, inl, inr, is_none, All,
}
use aegis_nexus.Common.Order.{order_by, any-order_by, All-order_by}
use aegis_nexus.Suppression.{
  Library, Suppression, Tables, Request, Error, Result, ok, failed, is_rule, in_force, is_global,
  preferred, match_finding, suppression_of, validate, create, check_expiry, clean_source,
  max_suppression,
}

abbrev pub IsIn : Suppression → List Suppression → Type 0
IsIn s [] = ⊥
IsIn s (x ∷ xs) = (x ≡ s) ⊎ IsIn s xs

-- What silences a finding of the rule from the source: a suppression of that rule, which has not
-- expired, and which names no source, the empty one, or this one.
pub record Silences (rule source_ip : String) (now : ℕ) (s : Suppression) : Type 0 where
  pub same_rule : s.rule_id ≡ rule
  pub not_expired : now < s.expires_at
  pub covers : (s.source_ip ≡ none) ⊎ ((s.source_ip ≡ some "") ⊎ (s.source_ip ≡ some source_ip))

in_force-Silences :
    (rule source_ip : String) (now : ℕ) (s : Suppression)
    → in_force rule source_ip now s ≡ true
    → Silences rule source_ip now s
in_force-Silences rule source_ip now s h = record {
  same_rule = ground (arith, eq_test s.rule_id rule);
  not_expired = ground arith;
  covers = elim (Option-cases s.source_ip) [
    | inl everywhere ↦ inl everywhere
    | inr (ip, from) ↦ elim (Bool-cases (ip == "")) [
      | inl e ↦ inr (inl (from ∙ ap some ((eq_test ip "").0 e)))
      | inr e ↦
          let mine : (ip == source_ip) ≡ true = ground arith in
          inr (inr (from ∙ ap some ((eq_test ip source_ip).0 mine)))
    ]
  ];
}

Silences-in_force :
    (rule source_ip : String) (now : ℕ) (s : Suppression)
    → Silences rule source_ip now s
    → in_force rule source_ip now s ≡ true
Silences-in_force rule source_ip now s h = elim (h.covers) [
  | inl everywhere ↦ ground (arith, h.same_rule, h.not_expired, ==_self rule)
  | inr (inl everywhere) ↦ ground (arith, h.same_rule, h.not_expired, ==_self rule)
  | inr (inr mine) ↦ ground (arith, h.same_rule, h.not_expired, ==_self rule, ==_self source_ip)
]

any-IsIn :
    (p : Suppression → Bool) (rows : List Suppression) (s : Suppression)
    → IsIn s rows
    → p s ≡ true
    → any p rows ≡ true
any-IsIn p [] s there h = absurd (there)
any-IsIn p (x ∷ rows) s (inl same) h = rw (same, h) refl
any-IsIn p (x ∷ rows) s (inr there) h = ground (arith, any-IsIn p rows s there h)

All-IsIn :
    (rows more : List Suppression)
    → ((s : Suppression) → IsIn s rows → IsIn s more)
    → All (λ s. IsIn s more) rows
All-IsIn [] more h = tt
All-IsIn (x ∷ rows) more h = (h x (inl refl), All-IsIn rows more (λ s there. h s (inr there)))

first-All :
    (P : Suppression → Type 0) (rows : List Suppression) (s : Suppression)
    → All P rows
    → first (λ x. true) rows ≡ some s
    → P s
first-All P [] s all h = absurd (cc)
first-All P (x ∷ rows) s all h = subst P (some_inj x s h) all.0

keep-All : (p : Suppression → Bool) (rows : List Suppression) → All (λ x. p x ≡ true) (keep p rows)
keep-All p [] = tt
keep-All p (x ∷ rows) = elim (Bool-cases (p x)) [
  | inl e ↦ rw e (e, keep-All p rows)
  | inr e ↦ rw e (keep-All p rows)
]

any-keep :
    (p : Suppression → Bool) (rows : List Suppression) → any (λ x. true) (keep p rows) ≡ any p rows
any-keep p [] = refl
any-keep p (x ∷ rows) = ground (arith, any-keep p rows)

first-none :
    (rows : List Suppression) → is_none (first (λ x. true) rows) ≡ not (any (λ x. true) rows)
first-none [] = refl
first-none (x ∷ rows) = refl

match_finding_lem :
    (rule source_ip : String) (now : ℕ) (t : Tables)
    → is_rule rule ≡ true
    → is_none (match_finding rule source_ip now t)
      ≡ not (any (in_force rule source_ip now) t.suppressions)
unfolding match_finding
match_finding_lem rule source_ip now t known =
    let rows = keep (in_force rule source_ip now) t.suppressions in
    rw
      (
        known,
        first-none (order_by preferred rows),
        any-order_by preferred (λ s. true) rows,
        any-keep (in_force rule source_ip now) t.suppressions,
      )
      refl

matched_lem :
    (rule source_ip : String) (now : ℕ) (t : Tables) (s : Suppression)
    → is_rule rule ≡ true
    → match_finding rule source_ip now t ≡ some s
    → first (λ x. true) (order_by preferred (keep (in_force rule source_ip now) t.suppressions))
      ≡ some s
unfolding match_finding
matched_lem rule source_ip now t s known h = ground arith

-- For a known rule: whenever some suppression of the table is of the rule, has not expired, and names
-- no source, the empty one or the finding's, the finding is silenced; and it is silenced only by a
-- suppression of the table of which this holds.
pub match_finding_iff :
    (rule source_ip : String) (now : ℕ) (t : Tables)
    → is_rule rule ≡ true
    → ((s : Suppression)
        → IsIn s t.suppressions
        → Silences rule source_ip now s
        → is_none (match_finding rule source_ip now t) ≡ false)
      × ((s : Suppression)
          → match_finding rule source_ip now t ≡ some s
          → IsIn s t.suppressions × Silences rule source_ip now s)
match_finding_iff rule source_ip now t known =
    let p = in_force rule source_ip now in
    let rows = keep p t.suppressions in
    (
      λ s there h.
          let found : any p t.suppressions ≡ true =
            any-IsIn p t.suppressions s there (Silences-in_force rule source_ip now s h) in
          match_finding_lem rule source_ip now t known ∙ rw found refl,
      λ s h.
          let found = matched_lem rule source_ip now t s known h in
          (
            first-All (λ x. IsIn x t.suppressions) (order_by preferred rows) s
                (All-order_by preferred (λ x. IsIn x t.suppressions) rows
                  (All-keep (λ x. IsIn x t.suppressions) p t.suppressions
                    (All-IsIn t.suppressions t.suppressions (λ x there. there))))
                found,
            in_force-Silences rule source_ip now s (
                first-All (λ x. p x ≡ true) (order_by preferred rows) s
                  (All-order_by preferred (λ x. p x ≡ true) rows (keep-All p t.suppressions))
                  found),
          ),
    )

any-last :
    (p : Suppression → Bool) (rows : List Suppression) (s : Suppression)
    → p s ≡ true
    → any p (rows ++ s ∷ []) ≡ true
any-last p [] s h = ground arith
any-last p (x ∷ rows) s h = ground (arith, any-last p rows s h)

in_force_now :
    (s : Suppression) (source_ip : String) (later : ℕ)
    → later < s.expires_at
    → (is_global s ≡ true) ⊎ (s.source_ip ≡ some source_ip)
    → in_force s.rule_id source_ip later s ≡ true
in_force_now s source_ip later before mine = ground (arith, ==_self s.rule_id, ==_self source_ip)

pub Result-cases {ℓ} :
    {A : Type ℓ} (r : Result A) → ((e : Error) × (r ≡ failed e)) ⊎ ((a : A) × (r ≡ ok a))
Result-cases (failed e) = inl (e, refl)
Result-cases (ok a) = inr (a, refl)

module _ (lib : Library) where
  check_expiry-bounds :
      (text : String) (now expiry : ℕ)
      → check_expiry lib text now ≡ ok expiry
      → (now < expiry) × (expiry ≤ now + max_suppression)
  unfolding check_expiry
  check_expiry-bounds text now expiry e = ground arith

  validate-row :
      (r : Request) (id : String) (now : ℕ) (s : Suppression)
      → validate lib r id now ≡ ok s
      → (source : Option String) × (expiry : ℕ) × (check_expiry lib r.expires_at now ≡ ok expiry)
        × (is_rule (lib.strip r.rule_id) ≡ true)
        × (s ≡ suppression_of lib r source id now expiry)
  unfolding validate
  validate-row r id now s e = elim (Result-cases (clean_source lib r.source_ip)) [
    | inl (error, e') ↦ absurd (ground arith)
    | inr (source, e') ↦ elim (Result-cases (check_expiry lib r.expires_at now)) [
      | inl (error, e'') ↦ absurd (ground arith)
      | inr (expiry, e'') ↦ (source, expiry, e'', ground arith, ground arith)
    ]
  ]

  -- What `validate` makes sure of.
  validate-checks :
      (r : Request) (id : String) (now : ℕ) (s : Suppression)
      → validate lib r id now ≡ ok s
      → (is_rule s.rule_id ≡ true) × (now < s.expires_at) × (s.expires_at ≤ now + max_suppression)
  validate-checks r id now s e =
      let (source, expiry, checked, known, same) = validate-row r id now s e in
      let within = check_expiry-bounds r.expires_at now expiry checked in
      (rw same known, rw same within.0, rw same within.1)

  create-row :
      (r : Request) (id : String) (now : ℕ) (t t' : Tables)
      → create lib r id now t ≡ ok t'
      → (s : Suppression) × (validate lib r id now ≡ ok s)
        × (t'.suppressions ≡ t.suppressions ++ s ∷ [])
  unfolding create
  create-row r id now t t' e = elim (Result-cases (validate lib r id now)) [
    | inl (error, e') ↦ absurd (ground arith)
    | inr (s, e') ↦ (s, e', ground arith)
  ]

  -- A suppression that `create` accepts ends within 30 days, and until then every finding of its rule
  -- from its source, or from any source when it names none, is silenced.
  pub create-match_finding :
      (r : Request) (id : String) (now : ℕ) (t t' : Tables)
      → create lib r id now t ≡ ok t'
      → (s : Suppression) × (t'.suppressions ≡ t.suppressions ++ s ∷ [])
        × (now < s.expires_at)
        × (s.expires_at ≤ now + max_suppression)
        × ((source_ip : String) (later : ℕ)
            → later < s.expires_at
            → (is_global s ≡ true) ⊎ (s.source_ip ≡ some source_ip)
            → is_none (match_finding s.rule_id source_ip later t') ≡ false)
  create-match_finding r id now t t' e =
      let (s, valid, added) = create-row r id now t t' e in
      let (known, future, bounded) = validate-checks r id now s valid in
      (
        s,
        added,
        future,
        bounded,
        λ source_ip later before mine.
            rw
              (
                match_finding_lem s.rule_id source_ip later t' known,
                added,
                any-last (in_force s.rule_id source_ip later) t.suppressions s
                    (in_force_now s source_ip later before mine),
              )
              refl,
      )
