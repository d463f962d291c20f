-- ===== src/Casework/Updates.antt =====
-- What the validated updates of casework satisfy: each field that is given is as in a new case.
use aegis_nexus.Common.{
  true, false, Option, none, some, List, String, ◌==◌, string_eq, ◌≡◌, refl, sym, not, arith,
  Bool-cases, inl, inr,
}
use aegis_nexus.Common.Json.{Json, object, Fields, lookup, has_key}
use aegis_nexus.Common.Python.{Python}
use aegis_nexus.Common.Result.{Result, ok, Result-cases, >>=_ok, need_ok, ◌>>◌, need}
use aegis_nexus.Common.Sets.{elem}
use aegis_nexus.Casework.{
  CaseValidationError, no_supported_case_fields, CaseUpdate, case_statuses, case_severities,
  is_empty_update, if_given, text, choice, normalize_tags, normalize_case_update,
}
use aegis_nexus.Casework.Valid.{
  IsText, AreTags, text-IsText, choice-allowed, normalize_tags-AreTags,
}

-- A value that is given satisfies the predicate.
abbrev pub Given {ℓ κ} : {A : Type ℓ} → (A → Type κ) → Option A → Type κ
Given P none = Unit
Given P (some a) = P a

pub record IsValidUpdate (fold : String → String) (u : CaseUpdate) : Type 0 where
  pub some_field : is_empty_update u ≡ false
  pub title : Given (λ s. ((s == "") ≡ false) × IsText 160 s) u.title
  pub summary : Given (IsText 4000) u.summary
  pub status : Given (λ s. elem s case_statuses ≡ true) u.status
  pub severity : Given (λ s. elem s case_severities ≡ true) u.severity
  pub tags : Given (AreTags fold) u.tags

if_given-Given {ℓ κ} :
    {A : Type ℓ} (P : A → Type κ) (key : String) (fs : Fields) (r : Result CaseValidationError A)
    (o : Option A)
    → ((a : A) → r ≡ ok a → P a)
    → if_given key fs r ≡ ok o
    → Given P o
if_given-Given P key fs r o holds h = elim (Bool-cases (has_key key fs)) [
  | inr absent ↦ let same : o ≡ none = ground arith in rw same tt
  | inl there ↦ elim (Result-cases r) [
    | inl (e, failed) ↦ absurd (ground arith)
    | inr (a, passed) ↦ let same : o ≡ some a = ground arith in rw same (holds a passed)
  ]
]

abbrev ok_update : CaseUpdate → Result CaseValidationError CaseUpdate
ok_update u = ok u

ok_inj : (u v : CaseUpdate) → ok_update u ≡ ok v → u ≡ v
ok_inj u v h = cc

built_update :
    (title summary status severity : Option String) (tags : Option (List String)) (u : CaseUpdate)
    → (let result : CaseUpdate = record {
      title = title;
      summary = summary;
      status = status;
      severity = severity;
      tags = tags;
    } in
        (need (not (is_empty_update result)) no_supported_case_fields >> ok result) ≡ ok u)
    → (u ≡ record {
      title = title;
      summary = summary;
      status = status;
      severity = severity;
      tags = tags;
    })
      × (is_empty_update (record {
        title = title;
        summary = summary;
        status = status;
        severity = severity;
        tags = tags;
      })
          ≡ false)
built_update title summary status severity tags u h =
    let result : CaseUpdate = record {
      title = title;
      summary = summary;
      status = status;
      severity = severity;
      tags = tags;
    } in
    let (full, same) =
      need_ok (not (is_empty_update result)) no_supported_case_fields (ok result) u h in
    (sym (ok_inj result u same), ground arith)

-- A payload that is accepted as an update of a case gives at least one field, and each field that is
-- given is as a new case has it.
pub normalize_case_update-IsValid :
    (py : Python) (payload : Json) (u : CaseUpdate)
    → normalize_case_update py payload ≡ ok u
    → IsValidUpdate py.casefold u
unfolding normalize_case_update
normalize_case_update-IsValid py (object fs) u h =
    let titles = text py (lookup "title" fs) "title" 160 true in
    let summaries = text py (lookup "summary" fs) "summary" 4000 false in
    let statuses = choice py (lookup "status" fs) "status" case_statuses "open" in
    let severities = choice py (lookup "severity" fs) "severity" case_severities "info" in
    let (title, h1, k1) = >>=_ok (if_given "title" fs titles) _ u h in
    let (summary, h2, k2) = >>=_ok (if_given "summary" fs summaries) _ u k1 in
    let (status, h3, k3) = >>=_ok (if_given "status" fs statuses) _ u k2 in
    let (severity, h4, k4) = >>=_ok (if_given "severity" fs severities) _ u k3 in
    let (tags, h5, k5) =
      >>=_ok (if_given "tags" fs (normalize_tags py (lookup "tags" fs))) _ u k4 in
    let (built, some_field) = built_update title summary status severity tags u k5 in
    rw built (record {
      some_field = some_field;
      title =
          if_given-Given (λ s. ((s == "") ≡ false) × IsText 160 s) "title" fs titles title
            (λ s e.
              let checked = text-IsText py (lookup "title" fs) "title" 160 true s e in
              (checked.1 refl, checked.0))
            h1;
      summary =
          if_given-Given (IsText 4000) "summary" fs summaries summary
            (λ s e. (text-IsText py (lookup "summary" fs) "summary" 4000 false s e).0) h2;
      status =
          if_given-Given (λ s. elem s case_statuses ≡ true) "status" fs statuses status
            (λ s e. choice-allowed py (lookup "status" fs) "status" case_statuses "open" s refl e)
            h3;
      severity =
          if_given-Given (λ s. elem s case_severities ≡ true) "severity" fs severities severity
            (λ s e.
              choice-allowed py (lookup "severity" fs) "severity" case_severities "info" s refl e)
            h4;
      tags =
          if_given-Given (AreTags py.casefold) "tags" fs (normalize_tags py (lookup "tags" fs)) tags
            (λ a e. normalize_tags-AreTags py (lookup "tags" fs) a e) h5;
    })
normalize_case_update-IsValid py _ u h = absurd (cc)
