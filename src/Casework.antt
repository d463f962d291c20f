-- ===== src/Casework.antt =====
-- The validation of what analysts send about cases: aegis_nexus/casework.py.
use Prim.Native.String.{count}
use aegis_nexus.Common.{
  ℕ, Bool, true, false, not, ◌&&◌, ◌||◌, ltb, leb, nat_beq, is_none, if◌then◌else◌, Option, none,
  some, List, [], ◌∷◌, ◌++◌, take, length, String, ◌==◌, string_eq,
}
use aegis_nexus.Common.Json.{
  Json, null, bool, int, float, str, array, object, Fields, elems, lookup, has_key,
}
use aegis_nexus.Common.Text.{any_char, split}
use aegis_nexus.Common.Python.{Python}
use aegis_nexus.Common.Result.{Result, ok, raise, ◌>>=◌, ◌>>◌, need}
use aegis_nexus.Common.Sets.{elem}
pub mod Valid
pub mod Updates
mod Tests

abbrev pub case_statuses : List String
case_statuses = "open" ∷ "investigating" ∷ "monitoring" ∷ "closed" ∷ []

abbrev pub case_severities : List String
case_severities = "info" ∷ "low" ∷ "medium" ∷ "high" ∷ "critical" ∷ []

abbrev pub evidence_types : List String
evidence_types = "event" ∷ "session" ∷ "alert" ∷ []

-- The messages, with the field and the limit in them.
pub data CaseValidationError : Type 0 where
  must_be_a_string : String → CaseValidationError
  contains_control_characters : String → CaseValidationError
  is_required : String → CaseValidationError
  exceeds : String → ℕ → CaseValidationError
  invalid : String → CaseValidationError
  must_be_tags : CaseValidationError
  must_be_an_object : String → CaseValidationError
  no_supported_case_fields : CaseValidationError

abbrev pub is_control : ℕ → Bool
is_control c = leb c 8 || nat_beq c 11 || nat_beq c 12 || (leb 14 c && leb c 31) || nat_beq c 127

pub record CaseData : Type 0 where
  pub title : String
  pub summary : String
  pub status : String
  pub severity : String
  pub tags : List String

-- The dictionary of an update: a key that is missing is `none`.
pub record CaseUpdate : Type 0 where
  pub title : Option String
  pub summary : Option String
  pub status : Option String
  pub severity : Option String
  pub tags : Option (List String)

abbrev pub is_empty_update : CaseUpdate → Bool
is_empty_update u =
    is_none u.title && is_none u.summary && is_none u.status && is_none u.severity && is_none u.tags

-- A key of an update, checked where it is there.
abbrev pub if_given {ℓ κ} :
    {E : Type ℓ} {A : Type κ} → String → Fields → Result E A → Result E (Option A)
if_given key fs checked = if has_key key fs then (checked >>= λ a. ok (some a)) else ok none

abbrev pub strings : List String → List Json
strings [] = []
strings (s ∷ ss) = str s ∷ strings ss

module _ (py : Python) where
  -- A text that `text` is given, after the test of its type.
  unfoldable pub clean_text : String → ℕ → Bool → String → Result CaseValidationError String
  clean_text field maximum required s =
      need (not (any_char is_control s)) (contains_control_characters field)
      >> need (not (required && s == "")) (is_required field)
      >> need (leb (count s) maximum) (exceeds field maximum)
      >> ok s

  unfoldable pub text : Json → String → ℕ → Bool → Result CaseValidationError String
  text null field maximum required = clean_text field maximum required (py.strip "")
  text (str s) field maximum required = clean_text field maximum required (py.strip s)
  text _ field maximum required = raise (must_be_a_string field)

  unfoldable pub choice_of : Json → String → List String → Result CaseValidationError String
  choice_of value field allowed = text value field 32 false >>= λ clean.
      need (elem (py.lower clean) allowed) (invalid field) >> ok (py.lower clean)

  unfoldable pub choice : Json → String → List String → String → Result CaseValidationError String
  choice null field allowed default = ok default
  choice (str s) field allowed default =
      if s == "" then ok default else choice_of (str s) field allowed
  choice value field allowed default = choice_of value field allowed

  -- The loop over the candidates: the casefolded tags so far, and the tags so far.
  unfoldable pub collect_tags :
      List Json → List String → List String → Result CaseValidationError (List String)
  collect_tags [] seen result = ok result
  collect_tags (raw ∷ rest) seen result = elim (text raw "tag" 48 false) [
    | raise e ↦ raise e
    | ok tag ↦ elim (tag == "" || elem (py.casefold tag) seen) [
      | true ↦ collect_tags rest seen result
      | false ↦ elim (leb 20 (length (result ++ tag ∷ []))) [
        | true ↦ ok (result ++ tag ∷ [])
        | false ↦ collect_tags rest (py.casefold tag ∷ seen) (result ++ tag ∷ [])
      ]
    ]
  ]

  -- The comma has code 44.
  unfoldable pub normalize_tags : Json → Result CaseValidationError (List String)
  normalize_tags null = ok []
  normalize_tags (str s) =
      if s == "" then ok [] else collect_tags (take 40 (strings (split 44 s))) [] []
  normalize_tags (array vs) = collect_tags (take 40 (elems vs)) [] []
  normalize_tags _ = raise must_be_tags

  unfoldable pub normalize_case_create : Json → Result CaseValidationError CaseData
  normalize_case_create (object fs) = text (lookup "title" fs) "title" 160 true >>= λ title.
      text (lookup "summary" fs) "summary" 4000 false >>= λ summary.
      choice (lookup "status" fs) "status" case_statuses "open" >>= λ status.
      choice (lookup "severity" fs) "severity" case_severities "info" >>= λ severity.
      normalize_tags (lookup "tags" fs) >>= λ tags. ok (record {
        title = title;
        summary = summary;
        status = status;
        severity = severity;
        tags = tags;
      })
  normalize_case_create _ = raise (must_be_an_object "case")

  unfoldable pub normalize_case_update : Json → Result CaseValidationError CaseUpdate
  normalize_case_update (object fs) =
      if_given "title" fs (text (lookup "title" fs) "title" 160 true) >>= λ title.
      if_given "summary" fs (text (lookup "summary" fs) "summary" 4000 false) >>= λ summary.
      if_given "status" fs (choice (lookup "status" fs) "status" case_statuses "open") >>= λ status.
      if_given "severity" fs (choice (lookup "severity" fs) "severity" case_severities "info")
      >>= λ severity. if_given "tags" fs (normalize_tags (lookup "tags" fs)) >>= λ tags.
          let result : CaseUpdate = record {
            title = title;
            summary = summary;
            status = status;
            severity = severity;
            tags = tags;
          } in
          need (not (is_empty_update result)) no_supported_case_fields >> ok result
  normalize_case_update _ = raise (must_be_an_object "case update")

  -- The type and the identifier of a piece of evidence.
  unfoldable pub normalize_evidence : Json → Result CaseValidationError (String × String)
  normalize_evidence (object fs) = text (lookup "type" fs) "type" 16 true >>= λ type.
      need (elem (py.lower type) evidence_types) (invalid "evidence type")
      >> text (lookup "id" fs) "id" 128 true
      >>= λ id. ok (py.lower type, id)
  normalize_evidence _ = raise (must_be_an_object "evidence")

  unfoldable pub normalize_note : Json → Result CaseValidationError String
  normalize_note (object fs) = text (lookup "body" fs) "body" 4000 true
  normalize_note _ = raise (must_be_an_object "note")
