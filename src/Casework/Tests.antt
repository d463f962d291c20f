-- ===== src/Casework/Tests.antt =====
-- Casework on concrete payloads, and instances of the theorems.
use aegis_nexus.Common.{none, some, [], ◌∷◌, ◌==◌, string_eq, ◌≡◌, refl, if◌then◌else◌}
use aegis_nexus.Common.Json.{
  Json, str, int, pos, array, nil, cons, object, end, field, lookup, has_key,
}
use aegis_nexus.Common.Text.{any_char, split}
use aegis_nexus.Common.Python.{Python}
use aegis_nexus.Common.Result.{ok, raise}
use aegis_nexus.Casework.{
  CaseData, CaseUpdate, contains_control_characters, is_required, no_supported_case_fields,
  clean_text, text, choice_of, choice, collect_tags, normalize_tags, normalize_case_create,
  normalize_case_update, normalize_evidence, normalize_note,
}
use aegis_nexus.Casework.Valid.{IsValid, normalize_case_create-IsValid}
use aegis_nexus.Casework.Updates.{IsValidUpdate, normalize_case_update-IsValid}

program : Unit {0}
unfolding lookup has_key any_char split clean_text text choice_of choice collect_tags normalize_tags
    normalize_case_create normalize_case_update normalize_evidence normalize_note
program = tt

-- A casefold that identifies two of the texts below.
abbrev folding : Python
folding = record {
  repr_of = λ v. "";
  int_of = λ v. none;
  strip = λ s. s;
  lower = λ s. if s == "HIGH" then "high" else s;
  casefold = λ s. if s == "SSH" then "ssh" else s;
  timestamp = λ s. none;
  decimal = λ n. "";
}

abbrev payload : Json
payload = object (
    field "title" (str "Scan")
      (field "severity" (str "HIGH") (field "tags" (str "ssh,,SSH,web") end)))

abbrev parsed : CaseData
parsed = record {
  title = "Scan";
  summary = "";
  status = "open";
  severity = "high";
  tags = "ssh" ∷ "web" ∷ [];
}

create_test : normalize_case_create folding payload ≡ ok parsed
unfolding program
create_test = refl

untitled_test : normalize_case_create folding (object end) ≡ raise (is_required "title")
unfolding program
untitled_test = refl

control_test :
    normalize_note folding (object (field "body" (str "a\u{7}") end))
    ≡ raise (contains_control_characters "body")
unfolding program
control_test = refl

nothing_test :
    normalize_case_update folding (object (field "owner" (int (pos 1)) end))
    ≡ raise no_supported_case_fields
unfolding program
nothing_test = refl

evidence_test :
    normalize_evidence folding (object (field "type" (str "event") (field "id" (str "e1") end)))
    ≡ ok ("event", "e1")
unfolding program
evidence_test = refl

normalize_case_create-IsValid_example : IsValid folding.casefold parsed
unfolding program
normalize_case_create-IsValid_example = normalize_case_create-IsValid folding payload parsed refl

abbrev change : CaseUpdate
change = record {
  title = none;
  summary = some "";
  status = some "closed";
  severity = none;
  tags = some ("web" ∷ []);
}

normalize_case_update-IsValid_example : IsValidUpdate folding.casefold change
unfolding program
normalize_case_update-IsValid_example =
    normalize_case_update-IsValid folding
      (object (
        field "summary" (str "") (
          field "status" (str "closed")
            (field "tags" (array (cons (str "web") (cons (str "") nil))) end))))
      change refl
