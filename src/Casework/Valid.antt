-- ===== src/Casework/Valid.antt =====
-- What the validated values of casework satisfy: texts within their limits and without control
-- characters, choices from the lists, and tags that casefolding does not identify.
use Prim.Native.String.{count}
use aegis_nexus.Common.{
  ℕ, ◌≤◌, Bool, true, false, ◌||◌, leb, List, [], ◌∷◌, ◌++◌, take, length, any, String, ◌==◌,
  string_eq, eq_test, ◌≡◌, refl, arith, All, All-append, length-append, Bool-cases, inl, inr,
}
use aegis_nexus.Common.Json.{Json, null, str, array, object, elems, lookup}
use aegis_nexus.Common.Text.{any_char, split}
use aegis_nexus.Common.Python.{Python}
use aegis_nexus.Common.Result.{Result, ok, Result-cases, >>=_ok}
use aegis_nexus.Common.Sets.{elem}
use aegis_nexus.Casework.{
  CaseValidationError, CaseData, case_statuses, case_severities, is_control, strings, clean_text,
  text, choice_of, choice, collect_tags, normalize_tags, normalize_case_create,
}

-- At most `maximum` code points, none of them a control character.
pub record IsText (maximum : ℕ) (s : String) : Type 0 where
  pub clean : any_char is_control s ≡ false
  pub bounded : count s ≤ maximum

-- No two of the tags are equal after casefolding.
abbrev pub AreDistinct : (String → String) → List String → Type 0
AreDistinct fold [] = Unit
AreDistinct fold (s ∷ ss) = (any (λ t. fold t == fold s) ss ≡ false) × AreDistinct fold ss

abbrev pub IsTag : String → Type 0
IsTag tag = ((tag == "") ≡ false) × IsText 48 tag

pub record AreTags (fold : String → String) (tags : List String) : Type 0 where
  pub few : length tags ≤ 20
  pub each : All IsTag tags
  pub distinct : AreDistinct fold tags

module _ (fold : String → String) where
  any-append :
      (f tag : String) (ss : List String)
      → any (λ t. fold t == f) (ss ++ tag ∷ []) ≡ (any (λ t. fold t == f) ss || fold tag == f)
  any-append f tag [] = ground arith
  any-append f tag (t ∷ ss) = ground (arith, any-append f tag ss)

  -- The casefolded tags that were seen stand for the tags so far.
  abbrev Seen : List String → List String → Type 0
  Seen seen ss = (f : String) → any (λ t. fold t == f) ss ≡ elem f seen

  AreDistinct-append :
      (ss : List String) (tag : String)
      → AreDistinct fold ss
      → any (λ t. fold t == fold tag) ss ≡ false
      → AreDistinct fold (ss ++ tag ∷ [])
  AreDistinct-append [] tag d new = (refl, tt)
  AreDistinct-append (s ∷ ss) tag d new = (
    ground (
      arith,
      any-append (fold s) tag ss,
      eq_test (fold s) (fold tag),
      eq_test (fold tag) (fold s),
    ),
    AreDistinct-append ss tag d.1 (ground arith),
  )

module _ (py : Python) where
  clean_text-IsText :
      (field : String) (maximum : ℕ) (required : Bool) (s r : String)
      → clean_text py field maximum required s ≡ ok r
      → IsText maximum r × (required ≡ true → (r == "") ≡ false)
  unfolding clean_text
  clean_text-IsText field maximum required s r h = elim (Bool-cases (any_char is_control s)) [
    | inl control ↦ absurd (ground arith)
    | inr clean ↦
        let same : r ≡ s = ground arith in
        rw same ((record { clean = clean; bounded = ground arith }, λ needed. ground arith))
  ]

  pub text-IsText :
      (value : Json) (field : String) (maximum : ℕ) (required : Bool) (r : String)
      → text py value field maximum required ≡ ok r
      → IsText maximum r × (required ≡ true → (r == "") ≡ false)
  unfolding text
  text-IsText null field maximum required r h =
      clean_text-IsText field maximum required (py.strip "") r h
  text-IsText (str s) field maximum required r h =
      clean_text-IsText field maximum required (py.strip s) r h
  text-IsText _ field maximum required r h = absurd (cc)

  choice_of-allowed :
      (value : Json) (field : String) (allowed : List String) (r : String)
      → choice_of py value field allowed ≡ ok r
      → elem r allowed ≡ true
  unfolding choice_of
  choice_of-allowed value field allowed r h = elim (Result-cases (text py value field 32 false)) [
    | inl (e, failed) ↦ absurd (ground arith)
    | inr (clean, passed) ↦ ground arith
  ]

  pub choice-allowed :
      (value : Json) (field : String) (allowed : List String) (default r : String)
      → elem default allowed ≡ true
      → choice py value field allowed default ≡ ok r
      → elem r allowed ≡ true
  unfolding choice
  choice-allowed null field allowed default r known h = ground arith
  choice-allowed (str s) field allowed default r known h =
      ground (arith, choice_of-allowed (str s) field allowed r)
  choice-allowed _ field allowed default r known h = choice_of-allowed _ field allowed r h

  collect_tags-AreTags :
      (candidates : List Json) (seen result tags : List String)
      → Seen py.casefold seen result
      → length result ≤ 19
      → All IsTag result
      → AreDistinct py.casefold result
      → collect_tags py candidates seen result ≡ ok tags
      → AreTags py.casefold tags
  unfolding collect_tags
  collect_tags-AreTags [] seen result tags same few each distinct h =
      let done : tags ≡ result = ground arith in
      rw done (record { few = omega arith; each = each; distinct = distinct })
  collect_tags-AreTags (raw ∷ rest) seen result tags same few each distinct h =
      elim (Result-cases (text py raw "tag" 48 false)) [
        | inl (e, failed) ↦ absurd (ground arith)
        | inr (tag, passed) ↦ elim (Bool-cases (tag == "" || elem (py.casefold tag) seen)) [
          | inl skipped ↦
              collect_tags-AreTags rest seen result tags same few each distinct (ground arith)
          | inr new ↦
              let all : All IsTag (result ++ tag ∷ []) =
                All-append IsTag result (tag ∷ []) each
                  (((ground arith), (text-IsText raw "tag" 48 false tag passed).0), tt) in
              let apart : AreDistinct py.casefold (result ++ tag ∷ []) =
                AreDistinct-append py.casefold result tag distinct
                  (ground (arith, same (py.casefold tag))) in
              elim (Bool-cases (leb 20 (length (result ++ tag ∷ [])))) [
                | inl full ↦
                    let done : tags ≡ result ++ tag ∷ [] = ground arith in
                    rw done (record {
                      few = omega (arith, length-append result (tag ∷ []));
                      each = all;
                      distinct = apart;
                    })
                | inr room ↦
                    collect_tags-AreTags rest (py.casefold tag ∷ seen) (result ++ tag ∷ []) tags
                      (λ f. ground (arith, any-append py.casefold f tag result, same f))
                      (ground arith) all apart (ground arith)
              ]
        ]
      ]

  abbrev no_tags : Result CaseValidationError (List String)
  no_tags = ok []

  nothing : (tags : List String) → no_tags ≡ ok tags → tags ≡ []
  nothing tags h = cc

  pub normalize_tags-AreTags :
      (value : Json) (tags : List String)
      → normalize_tags py value ≡ ok tags
      → AreTags py.casefold tags
  unfolding normalize_tags
  normalize_tags-AreTags null tags h =
      rw (nothing tags h) (record { few = omega arith; each = tt; distinct = tt })
  normalize_tags-AreTags (str s) tags h = elim (Bool-cases (s == "")) [
    | inl empty ↦
        rw (nothing tags (ground arith)) (record { few = omega arith; each = tt; distinct = tt })
    | inr given ↦
        collect_tags-AreTags (take 40 (strings (split 44 s))) [] [] tags (λ f. refl) (omega arith)
          tt tt (ground arith)
  ]
  normalize_tags-AreTags (array vs) tags h =
      collect_tags-AreTags (take 40 (elems vs)) [] [] tags (λ f. refl) (omega arith) tt tt h
  normalize_tags-AreTags _ tags h = absurd (cc)

-- The fields of a case as they may be stored.
pub record IsValid (fold : String → String) (fields : CaseData) : Type 0 where
  pub titled : (fields.title == "") ≡ false
  pub title : IsText 160 fields.title
  pub summary : IsText 4000 fields.summary
  pub status : elem fields.status case_statuses ≡ true
  pub severity : elem fields.severity case_severities ≡ true
  pub tags : AreTags fold fields.tags

-- A payload that is accepted as a new case gives a title of 1 to 160 characters, a summary of at
-- most 4000, neither with control characters, a status and a severity of the lists, and at most 20
-- tags, none empty or over 48 characters and no two equal after casefolding.
pub normalize_case_create-IsValid :
    (py : Python) (payload : Json) (fields : CaseData)
    → normalize_case_create py payload ≡ ok fields
    → IsValid py.casefold fields
unfolding normalize_case_create
normalize_case_create-IsValid py (object fs) fields h =
    let (title, titled, h1) = >>=_ok (text py (lookup "title" fs) "title" 160 true) _ fields h in
    let (summary, summarised, h2) =
      >>=_ok (text py (lookup "summary" fs) "summary" 4000 false) _ fields h1 in
    let (status, chosen, h3) =
      >>=_ok (choice py (lookup "status" fs) "status" case_statuses "open") _ fields h2 in
    let (severity, rated, h4) =
      >>=_ok (choice py (lookup "severity" fs) "severity" case_severities "info") _ fields h3 in
    let (tags, tagged, h5) = >>=_ok (normalize_tags py (lookup "tags" fs)) _ fields h4 in
    let title_text = text-IsText py (lookup "title" fs) "title" 160 true title titled in
    let summary_text =
      text-IsText py (lookup "summary" fs) "summary" 4000 false summary summarised in
    let given : fields ≡ record {
      title = title;
      summary = summary;
      status = status;
      severity = severity;
      tags = tags;
    } =
      cc in
    rw given (record {
      titled = title_text.1 refl;
      title = title_text.0;
      summary = summary_text.0;
      status =
          choice-allowed py (lookup "status" fs) "status" case_statuses "open" status refl chosen;
      severity =
          choice-allowed py (lookup "severity" fs) "severity" case_severities "info" severity refl
            rated;
      tags = normalize_tags-AreTags py (lookup "tags" fs) tags tagged;
    })
normalize_case_create-IsValid py _ fields h = absurd (cc)
