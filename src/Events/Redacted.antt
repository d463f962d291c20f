-- ===== src/Events/Redacted.antt =====
-- A redacted password stays redacted in the bounded value.
use Prim.Native.String
use Prim.Native.String.{count}
use aegis_nexus.Common.{
  ℕ, zero, suc, ◌+◌, true, ltb, if◌then◌else◌, String, ◌==◌, string_eq, eq_test, ◌≡◌, refl, ap, ◌⊎◌,
  inl, inr, Bool-cases,
}
use aegis_nexus.Common.Json.{
  Json, null, bool, int, float, str, array, object, Fields, end, field, lookup, get_key,
}
use aegis_nexus.Common.Text.{slice, any_char}
use aegis_nexus.Common.Result.{ok, raise, >>=_ok}
use aegis_nexus.Events.{
  Audit, max_string, max_items, is_safe_key, is_finite, size, field_count, audit_if, record_audit,
  dropped_keys, truncated_strings, truncated_collections, non_finite_numeric_value, bounded,
  bounded_items, bounded_fields,
}
use aegis_nexus.Events.Bounds.{at_depth_ok, returned, returned_inj}
use aegis_nexus.Events.Credentials.{IsRedacted}

-- What a key gives is left out, or the bounded value of what it gave.
abbrev pub LooksUp : String → ℕ → Fields → Fields → Type 0
LooksUp key depth fs gs =
    (lookup key gs ≡ null)
    ⊎ ((path : String) × (a : Audit) × (b : Audit) × (bounded depth path (lookup key fs) a
          ≡ ok (lookup key gs, b)))

pub bounded_fields-lookup :
    (fs : Fields) (key : String) (n depth : ℕ) (path : String) (a b : Audit) (gs : Fields)
    → is_safe_key key ≡ true
    → bounded_fields n depth path fs a ≡ ok (gs, b)
    → LooksUp key depth fs gs
unfolding bounded lookup
bounded_fields-lookup fs key zero depth path a b gs known h =
    inl (rw (returned_inj end gs a b h).0 refl)
bounded_fields-lookup end key (suc n) depth path a b gs known h =
    inl (rw (returned_inj end gs a b h).0 refl)
bounded_fields-lookup (field k v fs) key (suc n) depth path a b gs known h =
    elim (Bool-cases (is_safe_key k)) [
      | inr unsafe ↦
          elim (bounded_fields-lookup fs key n depth path (record_audit dropped_keys path a) b gs
            known (rw (bounded_fields, unsafe) at h)) [
              | inl missing ↦ inl missing
              | inr (q, c, d, kept) ↦ elim (Bool-cases (k == key)) [
                | inl same ↦
                    let equal : is_safe_key k ≡ is_safe_key key =
                      ap is_safe_key ((eq_test k key).0 same) in
                    absurd (cc)
                | inr other ↦ inr (q, c, d, rw other kept)
              ]
            ]
      | inl safe ↦
          let inner = String.◌++◌ path (String.◌++◌ "." k) in
          let (r, first, rest) =
            >>=_ok (bounded depth inner v a) _ (gs, b) (rw (bounded_fields, safe) at h) in
          let (rs, others, last) = >>=_ok (bounded_fields n depth path fs r.1) _ (gs, b) rest in
          let (same, still) = returned_inj (field k r.0 rs.0) gs rs.1 b last in
          elim (Bool-cases (k == key)) [
            | inl own ↦ inr (inner, a, r.1, rw (same, own) first)
            | inr other ↦
                elim (bounded_fields-lookup fs key n depth path r.1 rs.1 rs.0 known others) [
                  | inl missing ↦ inl (rw (same, other) missing)
                  | inr (q, c, d, kept) ↦ inr (q, c, d, rw (same, other) kept)
                ]
          ]
    ]

password_safe : is_safe_key "password" ≡ true
unfolding any_char
password_safe = refl

credential_safe : is_safe_key "credential" ≡ true
unfolding any_char
credential_safe = refl

password_kept :
    (p q : Json) (depth : ℕ) (path : String) (a b : Audit)
    → IsRedacted p
    → bounded depth path p a ≡ ok (q, b)
    → IsRedacted q
unfolding bounded slice
password_kept p q depth path a b (inl none_given) h =
    let h1 = rw none_given at h in
    inl (returned_inj null q a b (at_depth_ok depth (returned null a) (q, b) h1).1).0
password_kept p q depth path a b (inr marked) h =
    let h1 = rw marked at h in
    inr
      (returned_inj (str "[redacted]") q a b
        (at_depth_ok depth (returned (str "[redacted]") a) (q, b) h1).1).0

-- The bounded value of a dictionary is one, of anything else none.
pub bounded-IsRedacted :
    (x y : Json) (depth : ℕ) (path : String) (a b : Audit)
    → IsRedacted (get_key "password" x)
    → bounded depth path x a ≡ ok (y, b)
    → IsRedacted (get_key "password" y)
unfolding bounded
bounded-IsRedacted (object fs) y depth path a b redacted h =
    let lossy = audit_if (ltb max_items (field_count fs)) truncated_collections path a in
    let (within, done) = at_depth_ok depth _ (y, b) h in
    let (r, kept, last) =
      >>=_ok (bounded_fields max_items (depth + 1) path fs lossy) _ (y, b) done in
    let same = (returned_inj (object r.0) y r.1 b last).0 in
    let shown : IsRedacted (lookup "password" r.0) =
      elim (bounded_fields-lookup fs "password" max_items (depth + 1) path lossy r.1 r.0
        password_safe kept) [
          | inl missing ↦ inl missing
          | inr (q, c, d, found) ↦
              password_kept (lookup "password" fs) (lookup "password" r.0) (depth + 1) q c d
                redacted found
        ] in
    rw same shown
bounded-IsRedacted (array vs) y depth path a b redacted h =
    let lossy = audit_if (ltb max_items (size vs)) truncated_collections path a in
    let (within, done) = at_depth_ok depth _ (y, b) h in
    let (r, kept, last) =
      >>=_ok (bounded_items max_items (depth + 1) (String.◌++◌ path "[]") vs lossy) _ (y, b) done in
    inl (rw (returned_inj (array r.0) y r.1 b last).0 refl)
bounded-IsRedacted null y depth path a b redacted h =
    inl (rw (returned_inj null y a b (at_depth_ok depth (returned null a) (y, b) h).1).0 refl)
bounded-IsRedacted (bool x) y depth path a b redacted h =
    inl
      (rw (returned_inj (bool x) y a b (at_depth_ok depth (returned (bool x) a) (y, b) h).1).0 refl)
bounded-IsRedacted (int n) y depth path a b redacted h =
    inl (rw (returned_inj (int n) y a b (at_depth_ok depth (returned (int n) a) (y, b) h).1).0 refl)
bounded-IsRedacted (float r) y depth path a b redacted h =
    let (within, done) =
      at_depth_ok depth
        (if is_finite r then returned (float r) a else raise non_finite_numeric_value) (y, b) h in
    elim (Bool-cases (is_finite r)) [
      | inr infinite ↦ absurd (cc (rw infinite at done))
      | inl finite ↦ inl (rw (returned_inj (float r) y a b (rw finite at done)).0 refl)
    ]
bounded-IsRedacted (str s) y depth path a b redacted h =
    let lossy = audit_if (ltb max_string (count s)) truncated_strings path a in
    let (within, done) = at_depth_ok depth (returned (str (slice max_string s)) lossy) (y, b) h in
    inl (rw (returned_inj (str (slice max_string s)) y lossy b done).0 refl)

pub bounded-credential :
    (fs : Fields) (y : Json) (depth : ℕ) (path : String) (a b : Audit)
    → IsRedacted (get_key "password" (lookup "credential" fs))
    → bounded depth path (object fs) a ≡ ok (y, b)
    → IsRedacted (get_key "password" (get_key "credential" y))
unfolding bounded
bounded-credential fs y depth path a b redacted h =
    let lossy = audit_if (ltb max_items (field_count fs)) truncated_collections path a in
    let (within, done) = at_depth_ok depth _ (y, b) h in
    let (r, kept, last) =
      >>=_ok (bounded_fields max_items (depth + 1) path fs lossy) _ (y, b) done in
    let shown : IsRedacted (get_key "password" (lookup "credential" r.0)) =
      elim (bounded_fields-lookup fs "credential" max_items (depth + 1) path lossy r.1 r.0
        credential_safe kept) [
          | inl missing ↦ inl (rw missing refl)
          | inr (q, c, d, found) ↦
              bounded-IsRedacted (lookup "credential" fs) (lookup "credential" r.0) (depth + 1) q c
                d redacted found
        ] in
    rw (returned_inj (object r.0) y r.1 b last).0 shown
