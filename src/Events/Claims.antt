-- ===== src/Events/Claims.antt =====
-- What an event claims beyond what was observed: _validate_derived and _validate_enrichment of
-- aegis_nexus/model.py.
use aegis_nexus.Common.{
  ℕ, ◌+◌, Bool, true, false, not, ◌&&◌, ◌||◌, leb, nat_beq, if◌then◌else◌, List, [], ◌∷◌, length,
  String, ◌==◌, string_eq,
}
use aegis_nexus.Common.Json.{
  Json, null, float, array, object, Items, nil, cons, Fields, end, field, lookup, has_key, truthy,
  set_key, is_null,
}
use aegis_nexus.Common.Text.{codes}
use aegis_nexus.Common.Python.{Python, str_of}
use aegis_nexus.Common.Result.{Result, ok, raise, ◌>>=◌, ◌>>◌, need}
use aegis_nexus.Events.{
  EventValidationError, invalid, must_be_a_list, must_be_objects, requires, must_be_an_object,
  overflow,
}
use aegis_nexus.Events.Network.{is_given}

-- `float(value)`: the repr of the number, an exception that is caught, or an OverflowError.
pub data FloatOf : Type 0 where
  number : String → FloatOf
  no_number : FloatOf
  too_large : FloatOf

-- `\d` of Unicode, `float`, and whether a number is between -n and n.
pub record Numbers : Type 0 where
  pub is_digit : ℕ → Bool
  pub float_of : Json → FloatOf
  pub within : ℕ → String → Bool

abbrev pub all_digits : Numbers → List ℕ → Bool
all_digits lib [] = true
all_digits lib (c ∷ cs) = lib.is_digit c && all_digits lib cs

-- `T\d{4}(?:\.\d{3})?`
abbrev pub is_mitre : Numbers → List ℕ → Bool
is_mitre lib (t ∷ a ∷ b ∷ c ∷ d ∷ []) = nat_beq t 84 && all_digits lib (a ∷ b ∷ c ∷ d ∷ [])
is_mitre lib (t ∷ a ∷ b ∷ c ∷ d ∷ p ∷ e ∷ f ∷ g ∷ []) =
    nat_beq t 84 && nat_beq p 46 && all_digits lib (a ∷ b ∷ c ∷ d ∷ e ∷ f ∷ g ∷ [])
is_mitre lib _ = false

abbrev pub is_letter : ℕ → ℕ → Bool
is_letter upper c = nat_beq c upper || nat_beq c (upper + 32)

-- `CVE-\d{4}-\d{4,}` in letters of either case.
abbrev pub is_cve : Numbers → List ℕ → Bool
is_cve lib (c ∷ v ∷ e ∷ h ∷ y1 ∷ y2 ∷ y3 ∷ y4 ∷ g ∷ rest) =
    is_letter 67 c
    && is_letter 86 v
    && is_letter 69 e
    && nat_beq h 45
    && all_digits lib (y1 ∷ y2 ∷ y3 ∷ y4 ∷ [])
    && nat_beq g 45
    && leb 4 (length rest)
    && all_digits lib rest
is_cve lib _ = false

-- A list that is not empty.
abbrev pub is_full_list : Json → Bool
is_full_list (array (cons v vs)) = true
is_full_list _ = false

module _ (py : Python) (lib : Numbers) where
  -- `str(entry.get(key, ""))`
  abbrev pub text_at : String → Fields → String
  text_at key entry = if has_key key entry then str_of py (lookup key entry) else ""

  abbrev pub need_if : Bool → Bool → EventValidationError → Result EventValidationError (Unit {0})
  need_if applies holds e = need (not applies || holds) e

  abbrev pub check_entry : String → Json → Result EventValidationError (Unit {0})
  check_entry key (object entry) =
      need (is_full_list (lookup "evidence" entry)) (requires key "evidence")
      >> need_if (key == "mitre" || key == "cve") (truthy (lookup "rationale" entry))
          (requires key "rationale")
      >> need_if (key == "mitre") (is_mitre lib (codes (text_at "technique_id" entry)))
          (invalid "technique_id")
      >> need_if (key == "cve") (is_cve lib (codes (text_at "cve_id" entry))) (invalid "cve_id")
      >> need_if (key == "ioc") (truthy (lookup "type" entry) && is_given (lookup "value" entry))
          (requires key "type and value")
  check_entry key _ = raise (must_be_objects key)

  unfoldable pub check_entries : String → Items → Result EventValidationError (Unit {0})
  check_entries key nil = ok tt
  check_entries key (cons v vs) = check_entry key v >> check_entries key vs

  abbrev pub check_claims : String → Json → Result EventValidationError (Unit {0})
  check_claims key null = ok tt
  check_claims key (array entries) = check_entries key entries
  check_claims key _ = raise (must_be_a_list key)

  unfoldable pub validate_derived : Fields → Result EventValidationError (Unit {0})
  validate_derived derived =
      check_claims "mitre" (lookup "mitre" derived)
      >> check_claims "cve" (lookup "cve" derived)
      >> check_claims "ioc" (lookup "ioc" derived)

  abbrev pub check_source : String → Json → Result EventValidationError (Unit {0})
  check_source key (object value) =
      need (truthy (lookup "source" value) && truthy (lookup "observed_at" value))
        (requires key "source and observed_at")
  check_source key _ = raise (must_be_an_object key)

  unfoldable pub check_sources : Fields → Result EventValidationError (Unit {0})
  check_sources end = ok tt
  check_sources (field key value fs) = check_source key value >> check_sources fs

  -- A coordinate is written back as a float.
  abbrev pub set_coordinate : String → ℕ → Fields → Result EventValidationError Fields
  set_coordinate name limit position =
      if is_null (lookup name position)
      then ok position
      else elim (lib.float_of (lookup name position)) [
        | no_number ↦ raise (invalid name)
        | too_large ↦ raise overflow
        | number r ↦
            need (lib.within limit r) (invalid name) >> ok (set_key name (float r) position)
      ]

  abbrev pub set_position : Fields → Fields → Json → Result EventValidationError Fields
  set_position enrichment geo (object position) = set_coordinate "latitude" 90 position >>= λ p.
      set_coordinate "longitude" 180 p >>= λ q.
      ok (set_key "geo" (object (set_key "data" (object q) geo)) enrichment)
  set_position enrichment geo _ = ok enrichment

  abbrev pub set_geo : Fields → Json → Result EventValidationError Fields
  set_geo enrichment (object geo) = set_position enrichment geo (lookup "data" geo)
  set_geo enrichment _ = ok enrichment

  unfoldable pub validate_enrichment : Fields → Result EventValidationError Fields
  validate_enrichment enrichment =
      check_sources enrichment >> set_geo enrichment (lookup "geo" enrichment)
