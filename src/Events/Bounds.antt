-- ===== src/Events/Bounds.antt =====
-- The bounds of the values that events keep.
use Prim.Native.String
use Prim.Native.String.{count}
use aegis_nexus.Common.{
  ℕ, zero, suc, ◌+◌, ◌≤◌, Bool, true, ◌&&◌, ltb, leb, if◌then◌else◌, String, ◌≡◌, refl, arith,
  Bool-cases, inl, inr,
}
use aegis_nexus.Common.Json.{
  Json, null, bool, int, float, str, array, object, Items, nil, cons, Fields, end, field,
}
use aegis_nexus.Common.Text.{slice, count-slice}
use aegis_nexus.Common.Result.{ok, raise, >>=_ok}
use aegis_nexus.Events.{
  Audit, max_string, max_items, max_depth, is_safe_key, is_finite, size, field_count, Bounded,
  at_depth, audit_if, record_audit, dropped_keys, truncated_strings, non_finite_numeric_value,
  truncated_collections, bounded, bounded_items, bounded_fields,
}

-- A value at a depth, within the limits: nested at most 6 deep, texts of at most 4096 characters,
-- lists and dictionaries of at most 128 entries, safe keys, finite numbers.
unfoldable mutual
  pub fits : ℕ → Json → Bool
  fits depth null = leb depth max_depth
  fits depth (bool b) = leb depth max_depth
  fits depth (int n) = leb depth max_depth
  fits depth (float r) = leb depth max_depth && is_finite r
  fits depth (str s) = leb depth max_depth && leb (count s) max_string
  fits depth (array vs) =
      leb depth max_depth && (leb (size vs) max_items && fits_items (depth + 1) vs)
  fits depth (object fs) =
      leb depth max_depth && (leb (field_count fs) max_items && fits_fields (depth + 1) fs)

  pub fits_items : ℕ → Items → Bool
  fits_items depth nil = true
  fits_items depth (cons v vs) = fits depth v && fits_items depth vs

  pub fits_fields : ℕ → Fields → Bool
  fits_fields depth end = true
  fits_fields depth (field k v fs) = is_safe_key k && (fits depth v && fits_fields depth fs)

pub at_depth_ok :
    {A : Type 0} (depth : ℕ) (r : Bounded A) (x : A × Audit)
    → at_depth depth r ≡ ok x
    → (leb depth max_depth ≡ true) × (r ≡ ok x)
at_depth_ok depth r x h = elim (Bool-cases (leb depth max_depth)) [
  | inl within ↦ (within, rw (at_depth, within) at h)
  | inr deep ↦ absurd (ground arith)
]

abbrev pub returned : {A : Type 0} → A → Audit → Bounded A
returned v a = ok (v, a)

pub returned_inj :
    {A : Type 0} (v w : A) (a b : Audit) → returned v a ≡ ok (w, b) → (w ≡ v) × (b ≡ a)
returned_inj v w a b h = ((cc), (cc))

fits_array :
    (depth : ℕ) (vs : Items)
    → leb depth max_depth ≡ true
    → size vs ≤ max_items
    → fits_items (depth + 1) vs ≡ true
    → fits depth (array vs) ≡ true
unfolding fits
fits_array depth vs within few each = ground arith

fits_object :
    (depth : ℕ) (fs : Fields)
    → leb depth max_depth ≡ true
    → field_count fs ≤ max_items
    → fits_fields (depth + 1) fs ≡ true
    → fits depth (object fs) ≡ true
unfolding fits
fits_object depth fs within few each = ground arith

all_three : (p q r : Bool) → p ≡ true → q ≡ true → r ≡ true → (p && (q && r)) ≡ true
all_three p q r hp hq hr = ground arith

both : (p q : Bool) → p ≡ true → q ≡ true → (p && q) ≡ true
both p q hp hq = ground arith

mutual
  unfolding bounded fits

  bounded_fits :
      (v : Json) (depth : ℕ) (path : String) (a b : Audit) (w : Json)
      → bounded depth path v a ≡ ok (w, b)
      → fits depth w ≡ true
  bounded_fits null depth path a b w h =
      let (within, done) = at_depth_ok depth (returned null a) (w, b) h in
      rw (returned_inj null w a b done).0 within
  bounded_fits (bool x) depth path a b w h =
      let (within, done) = at_depth_ok depth (returned (bool x) a) (w, b) h in
      rw (returned_inj (bool x) w a b done).0 within
  bounded_fits (int n) depth path a b w h =
      let (within, done) = at_depth_ok depth (returned (int n) a) (w, b) h in
      rw (returned_inj (int n) w a b done).0 within
  bounded_fits (float r) depth path a b w h = elim (Bool-cases (is_finite r)) [
    | inr infinite ↦ absurd (
        cc (
          rw infinite at
            (at_depth_ok depth
              (if is_finite r then returned (float r) a else raise non_finite_numeric_value) (w, b)
              h).1))
    | inl finite ↦
        let (within, done) =
          at_depth_ok depth
            (if is_finite r then returned (float r) a else raise non_finite_numeric_value) (w, b)
            h in
        rw (returned_inj (float r) w a b (rw finite at done)).0 (ground arith)
  ]
  bounded_fits (str s) depth path a b w h =
      let lossy = audit_if (ltb max_string (count s)) truncated_strings path a in
      let (within, done) = at_depth_ok depth (returned (str (slice max_string s)) lossy) (w, b) h in
      rw (returned_inj (str (slice max_string s)) w lossy b done).0
        (ground (arith, count-slice max_string s))
  bounded_fits (array vs) depth path a b w h =
      let lossy = audit_if (ltb max_items (size vs)) truncated_collections path a in
      let (within, done) = at_depth_ok depth _ (w, b) h in
      let (r, kept, last) =
        >>=_ok (bounded_items max_items (depth + 1) (String.◌++◌ path "[]") vs lossy) _ (w, b)
          done in
      let (few, each) =
        bounded_items_fits vs max_items (depth + 1) (String.◌++◌ path "[]") lossy r.1 r.0 kept in
      rw (returned_inj (array r.0) w r.1 b last).0 (fits_array depth r.0 within few each)
  bounded_fits (object fs) depth path a b w h =
      let lossy = audit_if (ltb max_items (field_count fs)) truncated_collections path a in
      let (within, done) = at_depth_ok depth _ (w, b) h in
      let (r, kept, last) =
        >>=_ok (bounded_fields max_items (depth + 1) path fs lossy) _ (w, b) done in
      let (few, each) = bounded_fields_fits fs max_items (depth + 1) path lossy r.1 r.0 kept in
      rw (returned_inj (object r.0) w r.1 b last).0 (fits_object depth r.0 within few each)

  pub bounded_items_fits :
      (vs : Items) (n depth : ℕ) (path : String) (a b : Audit) (ws : Items)
      → bounded_items n depth path vs a ≡ ok (ws, b)
      → (size ws ≤ n) × (fits_items depth ws ≡ true)
  bounded_items_fits vs zero depth path a b ws h =
      rw (returned_inj nil ws a b h).0 ((omega arith), refl)
  bounded_items_fits nil (suc n) depth path a b ws h =
      rw (returned_inj nil ws a b h).0 ((omega arith), refl)
  bounded_items_fits (cons v vs) (suc n) depth path a b ws h =
      let (r, first, rest) = >>=_ok (bounded depth path v a) _ (ws, b) h in
      let (rs, others, last) = >>=_ok (bounded_items n depth path vs r.1) _ (ws, b) rest in
      let one = bounded_fits v depth path a r.1 r.0 first in
      let (few, each) = bounded_items_fits vs n depth path r.1 rs.1 rs.0 others in
      rw (returned_inj (cons r.0 rs.0) ws rs.1 b last).0
        ((omega arith), both (fits depth r.0) (fits_items depth rs.0) one each)

  pub bounded_fields_fits :
      (fs : Fields) (n depth : ℕ) (path : String) (a b : Audit) (gs : Fields)
      → bounded_fields n depth path fs a ≡ ok (gs, b)
      → (field_count gs ≤ n) × (fits_fields depth gs ≡ true)
  bounded_fields_fits fs zero depth path a b gs h =
      rw (returned_inj end gs a b h).0 ((omega arith), refl)
  bounded_fields_fits end (suc n) depth path a b gs h =
      rw (returned_inj end gs a b h).0 ((omega arith), refl)
  bounded_fields_fits (field k v fs) (suc n) depth path a b gs h =
      elim (Bool-cases (is_safe_key k)) [
        | inr unsafe ↦
            let (few, each) =
              bounded_fields_fits fs n depth path (record_audit dropped_keys path a) b gs
                (rw (bounded_fields, unsafe) at h) in
            ((omega arith), each)
        | inl safe ↦
            let inner = String.◌++◌ path (String.◌++◌ "." k) in
            let (r, first, rest) =
              >>=_ok (bounded depth inner v a) _ (gs, b) (rw (bounded_fields, safe) at h) in
            let (rs, others, last) = >>=_ok (bounded_fields n depth path fs r.1) _ (gs, b) rest in
            let one = bounded_fits v depth inner a r.1 r.0 first in
            let (few, each) = bounded_fields_fits fs n depth path r.1 rs.1 rs.0 others in
            rw (returned_inj (field k r.0 rs.0) gs rs.1 b last).0 (
              (omega arith),
              all_three (is_safe_key k) (fits depth r.0) (fits_fields depth rs.0) safe one each,
            )
      ]

-- A value that is accepted is within the limits: nested at most 6 deep, no text over 4096
-- characters, no list or dictionary over 128 entries, only safe keys and finite numbers.
pub bounded-fits :
    (depth : ℕ) (path : String) (v w : Json) (a b : Audit)
    → bounded depth path v a ≡ ok (w, b)
    → fits depth w ≡ true
bounded-fits depth path v w a b h = bounded_fits v depth path a b w h
