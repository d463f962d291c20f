-- ===== src/Events.antt =====
-- The bounded values of an event and the account of what was lost: _record_audit, _bounded and
-- _normalization_summary of aegis_nexus/model.py. A value from JSON is never of another type, so
-- nothing is coerced.
use Prim.Native.String
use Prim.Native.String.{count}
use aegis_nexus.Common.{
  ℕ, zero, suc, ◌+◌, Bool, true, false, not, ◌&&◌, ◌||◌, ltb, leb, nat_beq, if◌then◌else◌, List, [],
  ◌∷◌, ◌++◌, length, String, ◌==◌, string_eq,
}
use aegis_nexus.Common.Json.{
  Json, null, bool, int, float, str, array, object, Items, nil, cons, Fields, end, field,
}
use aegis_nexus.Common.Text.{slice, any_char}
use aegis_nexus.Common.Result.{Result, ok, raise, ◌>>=◌}
use aegis_nexus.Common.Sets.{elem}
use aegis_nexus.Sequence.Validate.{SensorSequenceError}
pub mod Credentials
pub mod Network
pub mod Claims
pub mod Normalize
pub mod Redacted
pub mod Normalized
pub mod Bounds
pub mod Losses
mod Tests
use Network.{NetworkError}

-- The messages, the errors of the other modules, and an OverflowError.
pub data EventValidationError : Type 0 where
  payload_nesting_too_deep : EventValidationError
  non_finite_numeric_value : EventValidationError
  invalid : String → EventValidationError
  must_be_a_list : String → EventValidationError
  must_be_objects : String → EventValidationError
  requires : String → String → EventValidationError
  must_be_an_object : String → EventValidationError
  invalid_network : NetworkError → EventValidationError
  invalid_sequence : SensorSequenceError → EventValidationError
  overflow : EventValidationError

abbrev pub max_string : ℕ
max_string = 4096

abbrev pub max_items : ℕ
max_items = 128

abbrev pub max_depth : ℕ
max_depth = 6

abbrev pub max_audit_paths : ℕ
max_audit_paths = 64

-- How often something happened, and the first paths where it did.
pub record Tally : Type 0 where
  pub occurrences : ℕ
  pub paths : List String

pub record Audit : Type 0 where
  pub truncated_strings : Tally
  pub truncated_collections : Tally
  pub dropped_keys : Tally
  pub credential_secrets_redacted : Tally

pub data Loss : Type 0 where
  truncated_strings : Loss
  truncated_collections : Loss
  dropped_keys : Loss
  credential_secrets_redacted : Loss

abbrev pub one_more : String → Tally → Tally
one_more path t = record {
  occurrences = t.occurrences + 1;
  paths =
      if ltb (length t.paths) max_audit_paths && not (elem path t.paths)
      then t.paths ++ path ∷ []
      else t.paths;
}

abbrev pub record_audit : Loss → String → Audit → Audit
record_audit truncated_strings path a = record a {
  truncated_strings = one_more path a.truncated_strings;
}
record_audit truncated_collections path a = record a {
  truncated_collections = one_more path a.truncated_collections;
}
record_audit dropped_keys path a = record a { dropped_keys = one_more path a.dropped_keys }
record_audit credential_secrets_redacted path a = record a {
  credential_secrets_redacted = one_more path a.credential_secrets_redacted;
}

abbrev pub audit_if : Bool → Loss → String → Audit → Audit
audit_if true loss path a = record_audit loss path a
audit_if false loss path a = a

-- A letter, a digit, or one of `_`, `.`, `:` and `-`.
abbrev pub is_safe_char : ℕ → Bool
is_safe_char c =
    (leb 65 c && leb c 90)
    || (leb 97 c && leb c 122)
    || (leb 48 c && leb c 57)
    || nat_beq c 95
    || nat_beq c 46
    || nat_beq c 58
    || nat_beq c 45

abbrev pub is_safe_key : String → Bool
is_safe_key key =
    leb 1 (count key) && leb (count key) 96 && not (any_char (λ c. not (is_safe_char c)) key)

-- `math.isfinite` of the number with this text.
abbrev pub is_finite : String → Bool
is_finite r = not (r == "inf" || r == "-inf" || r == "nan")

abbrev pub size : Items → ℕ
size nil = 0
size (cons v vs) = suc (size vs)

abbrev pub field_count : Fields → ℕ
field_count end = 0
field_count (field k v fs) = suc (field_count fs)

-- The chain of steps that pass the audit on.
abbrev pub Bounded : Type 0 → Type 0
Bounded A = Result EventValidationError (A × Audit)

abbrev pub at_depth : {A : Type 0} → ℕ → Bounded A → Bounded A
at_depth depth r = elim (leb depth max_depth) [ false ↦ raise payload_nesting_too_deep | true ↦ r ]

-- `bounded_items` and `bounded_fields` take the first entries, at one depth more.
unfoldable mutual
  pub bounded : ℕ → String → Json → Audit → Bounded Json
  bounded depth path null a = at_depth depth (ok (null, a))
  bounded depth path (bool b) a = at_depth depth (ok (bool b, a))
  bounded depth path (int n) a = at_depth depth (ok (int n, a))
  bounded depth path (float r) a =
      at_depth depth (if is_finite r then ok (float r, a) else raise non_finite_numeric_value)
  bounded depth path (str s) a =
      at_depth depth (
        ok (str (slice max_string s), audit_if (ltb max_string (count s)) truncated_strings path a))
  bounded depth path (array vs) a = at_depth depth (
      bounded_items max_items (depth + 1) (String.◌++◌ path "[]") vs
        (audit_if (ltb max_items (size vs)) truncated_collections path a)
      >>= λ r. ok (array r.0, r.1))
  bounded depth path (object fs) a = at_depth depth (
      bounded_fields max_items (depth + 1) path fs
        (audit_if (ltb max_items (field_count fs)) truncated_collections path a)
      >>= λ r. ok (object r.0, r.1))

  pub bounded_items : ℕ → ℕ → String → Items → Audit → Bounded Items
  bounded_items zero depth path vs a = ok (nil, a)
  bounded_items (suc n) depth path nil a = ok (nil, a)
  bounded_items (suc n) depth path (cons v vs) a = bounded depth path v a >>= λ r.
      bounded_items n depth path vs r.1 >>= λ rs. ok (cons r.0 rs.0, rs.1)

  pub bounded_fields : ℕ → ℕ → String → Fields → Audit → Bounded Fields
  bounded_fields zero depth path fs a = ok (end, a)
  bounded_fields (suc n) depth path end a = ok (end, a)
  bounded_fields (suc n) depth path (field k v fs) a = elim (is_safe_key k) [
    | false ↦ bounded_fields n depth path fs (record_audit dropped_keys path a)
    | true ↦ bounded depth (String.◌++◌ path (String.◌++◌ "." k)) v a >>= λ r.
        bounded_fields n depth path fs r.1 >>= λ rs. ok (field k r.0 rs.0, rs.1)
  ]

-- What the collector keeps of the audit.
pub record Summary : Type 0 where
  pub lossy : Bool
  pub truncated : Bool
  pub redacted : Bool
  pub audit : Audit

unfoldable pub normalization_summary : Audit → Summary
normalization_summary a = record {
  lossy =
      ltb 0 a.truncated_strings.occurrences
      || ltb 0 a.truncated_collections.occurrences
      || ltb 0 a.dropped_keys.occurrences;
  truncated = ltb 0 a.truncated_strings.occurrences || ltb 0 a.truncated_collections.occurrences;
  redacted = ltb 0 a.credential_secrets_redacted.occurrences;
  audit = a;
}
