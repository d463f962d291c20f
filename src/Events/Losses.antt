-- ===== src/Events/Losses.antt =====
-- The account of what was lost: a value is kept as it is exactly where nothing was counted.
use Prim.Native.String
use Prim.Native.String.{count}
use aegis_nexus.Common.{
  ℕ, zero, suc, ◌+◌, ◌≤◌, true, false, ltb, if◌then◌else◌, String, ◌≡◌, refl, ◌↔◌, ap, arith,
  Bool-cases, inl, inr,
}
use aegis_nexus.Common.Json.{
  Json, null, bool, int, float, str, array, object, Items, nil, cons, Fields, end, field,
}
use aegis_nexus.Common.Text.{slice, count-slice, slice_all}
use aegis_nexus.Common.Result.{ok, raise, >>=_ok}
use aegis_nexus.Events.{
  Audit, max_string, max_items, is_safe_key, is_finite, size, field_count, audit_if, record_audit,
  dropped_keys, truncated_strings, non_finite_numeric_value, truncated_collections,
  normalization_summary, bounded, bounded_items, bounded_fields,
}
use aegis_nexus.Events.Bounds.{
  fits, fits_fields, at_depth_ok, returned, returned_inj, bounded_items_fits, bounded_fields_fits,
}

abbrev pub losses : Audit → ℕ
losses a =
    a.truncated_strings.occurrences + a.truncated_collections.occurrences
    + a.dropped_keys.occurrences

-- The account is exact for a value before and after.
record IsExact {A : Type 0} (v w : A) (a b : Audit) : Type 0 where
  grows : losses a ≤ losses b
  nothing_lost : losses b ≡ losses a → w ≡ v
  unchanged : w ≡ v → losses b ≡ losses a

-- The same of the first `n` entries of a list of `m`.
record IsExactOf {A : Type 0} (n m : ℕ) (v w : A) (a b : Audit) : Type 0 where
  grows : losses a ≤ losses b
  nothing_lost : losses b ≡ losses a → m ≤ n → w ≡ v
  unchanged : w ≡ v → losses b ≡ losses a

returned-IsExact : {A : Type 0} (v w : A) (a b : Audit) → returned v a ≡ ok (w, b) → IsExact v w a b
returned-IsExact v w a b h =
    let (same, still) = returned_inj v w a b h in
    record {
      grows = omega (arith, ap losses still);
      nothing_lost = λ e. same;
      unchanged = λ e. ap losses still;
    }

whole-IsExactOf :
    {A : Type 0} (n m : ℕ) (v w : A) (a b : Audit) → IsExact v w a b → IsExactOf n m v w a b
whole-IsExactOf n m v w a b x = record {
  grows = x.grows;
  nothing_lost = λ e few. x.nothing_lost e;
  unchanged = x.unchanged;
}

array_inj : (vs ws : Items) → array vs ≡ array ws → vs ≡ ws
array_inj vs ws h = cc

object_inj : (vs ws : Fields) → object vs ≡ object ws → vs ≡ ws
object_inj vs ws h = cc

str_inj : (s t : String) → str s ≡ str t → s ≡ t
str_inj s t h = cc

cons_inj : (v w : Json) (vs ws : Items) → cons v vs ≡ cons w ws → (v ≡ w) × (vs ≡ ws)
cons_inj v w vs ws h = ((cc), (cc))

field_inj :
    (j k : String) (v w : Json) (fs gs : Fields) → field j v fs ≡ field k w gs → (v ≡ w) × (fs ≡ gs)
field_inj j k v w fs gs h = ((cc), (cc))

str-IsExact :
    (path s : String) (a : Audit)
    → IsExact
        (str s)
        (str (slice max_string s))
        a
        (audit_if (ltb max_string (count s)) truncated_strings path a)
str-IsExact path s a = elim (Bool-cases (ltb max_string (count s))) [
  | inr short ↦
      let whole = slice_all max_string s (ground arith) in
      rw short
        (record { grows = omega arith; nothing_lost = λ e. ap str whole; unchanged = λ e. refl })
  | inl long ↦ rw long (record {
    grows = omega arith;
    nothing_lost = λ e. absurd (omega arith);
    unchanged = λ e.
        let same = str_inj (slice max_string s) s e in
        absurd (ground (arith, count-slice max_string s, ap count same));
  })
]

-- A collection whose first entries are kept.
collection-IsExact :
    {A B : Type 0} (wrap : A → B) (path : String) (m : ℕ) (vs ws : A) (a b : Audit)
    → ((x y : A) → wrap x ≡ wrap y → x ≡ y)
    → (ws ≡ vs → m ≤ max_items)
    → IsExactOf max_items m vs ws (audit_if (ltb max_items m) truncated_collections path a) b
    → IsExact (wrap vs) (wrap ws) a b
collection-IsExact wrap path m vs ws a b inj few x = elim (Bool-cases (ltb max_items m)) [
  | inr within ↦
      let y = rw within at x in
      record {
        grows = y.grows;
        nothing_lost = λ e. ap wrap (y.nothing_lost e (ground arith));
        unchanged = λ e. y.unchanged (inj ws vs e);
      }
  | inl over ↦
      let y = rw over at x in
      record {
        grows = omega (arith, y.grows);
        nothing_lost = λ e. absurd (omega (arith, y.grows));
        unchanged = λ e. absurd (ground (arith, few (inj ws vs e)));
      }
]

cons-IsExactOf :
    (n m : ℕ) (v w : Json) (vs ws : Items) (a c b : Audit)
    → IsExact v w a c
    → IsExactOf n m vs ws c b
    → IsExactOf (suc n) (suc m) (cons v vs) (cons w ws) a b
cons-IsExactOf n m v w vs ws a c b x y = record {
  grows = omega (arith, x.grows, y.grows);
  nothing_lost = λ e few.
      let first = x.nothing_lost (omega (arith, x.grows, y.grows)) in
      let rest = y.nothing_lost (omega (arith, x.grows, y.grows)) (omega arith) in
      rw (first, rest) refl;
  unchanged = λ e.
      let (first, rest) = cons_inj w v ws vs e in
      omega (arith, x.unchanged first, y.unchanged rest);
}

field-IsExactOf :
    (n m : ℕ) (k : String) (v w : Json) (fs gs : Fields) (a c b : Audit)
    → IsExact v w a c
    → IsExactOf n m fs gs c b
    → IsExactOf (suc n) (suc m) (field k v fs) (field k w gs) a b
field-IsExactOf n m k v w fs gs a c b x y = record {
  grows = omega (arith, x.grows, y.grows);
  nothing_lost = λ e few.
      let first = x.nothing_lost (omega (arith, x.grows, y.grows)) in
      let rest = y.nothing_lost (omega (arith, x.grows, y.grows)) (omega arith) in
      rw (first, rest) refl;
  unchanged = λ e.
      let (first, rest) = field_inj k k w v gs fs e in
      omega (arith, x.unchanged first, y.unchanged rest);
}

safe_first :
    (depth : ℕ) (k : String) (v : Json) (fs gs : Fields)
    → fits_fields depth gs ≡ true
    → gs ≡ field k v fs
    → is_safe_key k ≡ true
unfolding fits
safe_first depth k v fs gs h e =
    let there : fits_fields depth (field k v fs) ≡ true = rw e at h in ground arith

-- A field with a key that is dropped.
dropped-IsExactOf :
    (n m depth : ℕ) (path k : String) (v : Json) (fs gs : Fields) (a b : Audit)
    → is_safe_key k ≡ false
    → fits_fields depth gs ≡ true
    → IsExactOf n m fs gs (record_audit dropped_keys path a) b
    → IsExactOf (suc n) (suc m) (field k v fs) gs a b
dropped-IsExactOf n m depth path k v fs gs a b unsafe fit y = record {
  grows = omega (arith, y.grows);
  nothing_lost = λ e few. absurd (omega (arith, y.grows));
  unchanged = λ e. absurd (cc (safe_first depth k v fs gs fit e, unsafe));
}

mutual
  unfolding bounded

  bounded-IsExact :
      (v : Json) (depth : ℕ) (path : String) (a b : Audit) (w : Json)
      → bounded depth path v a ≡ ok (w, b)
      → IsExact v w a b
  bounded-IsExact null depth path a b w h =
      returned-IsExact null w a b (at_depth_ok depth (returned null a) (w, b) h).1
  bounded-IsExact (bool x) depth path a b w h =
      returned-IsExact (bool x) w a b (at_depth_ok depth (returned (bool x) a) (w, b) h).1
  bounded-IsExact (int n) depth path a b w h =
      returned-IsExact (int n) w a b (at_depth_ok depth (returned (int n) a) (w, b) h).1
  bounded-IsExact (float r) depth path a b w h =
      let (within, done) =
        at_depth_ok depth
          (if is_finite r then returned (float r) a else raise non_finite_numeric_value) (w, b) h in
      elim (Bool-cases (is_finite r)) [
        | inr infinite ↦ absurd (cc (rw infinite at done))
        | inl finite ↦ returned-IsExact (float r) w a b (rw finite at done)
      ]
  bounded-IsExact (str s) depth path a b w h =
      let lossy = audit_if (ltb max_string (count s)) truncated_strings path a in
      let (within, done) = at_depth_ok depth (returned (str (slice max_string s)) lossy) (w, b) h in
      let (same, still) = returned_inj (str (slice max_string s)) w lossy b done in
      rw (same, still) (str-IsExact path s a)
  bounded-IsExact (array vs) depth path a b w h =
      let lossy = audit_if (ltb max_items (size vs)) truncated_collections path a in
      let inner = String.◌++◌ path "[]" in
      let (within, done) = at_depth_ok depth _ (w, b) h in
      let (r, kept, last) =
        >>=_ok (bounded_items max_items (depth + 1) inner vs lossy) _ (w, b) done in
      let (same, still) = returned_inj (array r.0) w r.1 b last in
      let few = (bounded_items_fits vs max_items (depth + 1) inner lossy r.1 r.0 kept).0 in
      rw (same, still)
        (collection-IsExact array path (size vs) vs r.0 a r.1 array_inj
          (λ e. omega (arith, ap size e))
          (bounded_items-IsExactOf vs max_items (depth + 1) inner lossy r.1 r.0 kept))
  bounded-IsExact (object fs) depth path a b w h =
      let lossy = audit_if (ltb max_items (field_count fs)) truncated_collections path a in
      let (within, done) = at_depth_ok depth _ (w, b) h in
      let (r, kept, last) =
        >>=_ok (bounded_fields max_items (depth + 1) path fs lossy) _ (w, b) done in
      let (same, still) = returned_inj (object r.0) w r.1 b last in
      let few = (bounded_fields_fits fs max_items (depth + 1) path lossy r.1 r.0 kept).0 in
      rw (same, still)
        (collection-IsExact object path (field_count fs) fs r.0 a r.1 object_inj
          (λ e. omega (arith, ap field_count e))
          (bounded_fields-IsExactOf fs max_items (depth + 1) path lossy r.1 r.0 kept))

  bounded_items-IsExactOf :
      (vs : Items) (n depth : ℕ) (path : String) (a b : Audit) (ws : Items)
      → bounded_items n depth path vs a ≡ ok (ws, b)
      → IsExactOf n (size vs) vs ws a b
  bounded_items-IsExactOf nil zero depth path a b ws h =
      whole-IsExactOf 0 0 nil ws a b (returned-IsExact nil ws a b h)
  bounded_items-IsExactOf (cons v vs) zero depth path a b ws h =
      let (same, still) = returned_inj nil ws a b h in
      record {
        grows = omega (arith, ap losses still);
        nothing_lost = λ e few. absurd (omega arith);
        unchanged = λ e. ap losses still;
      }
  bounded_items-IsExactOf nil (suc n) depth path a b ws h =
      whole-IsExactOf (suc n) 0 nil ws a b (returned-IsExact nil ws a b h)
  bounded_items-IsExactOf (cons v vs) (suc n) depth path a b ws h =
      let (r, first, rest) = >>=_ok (bounded depth path v a) _ (ws, b) h in
      let (rs, others, last) = >>=_ok (bounded_items n depth path vs r.1) _ (ws, b) rest in
      let (same, still) = returned_inj (cons r.0 rs.0) ws rs.1 b last in
      rw (same, still)
        (cons-IsExactOf n (size vs) v r.0 vs rs.0 a r.1 rs.1
          (bounded-IsExact v depth path a r.1 r.0 first)
          (bounded_items-IsExactOf vs n depth path r.1 rs.1 rs.0 others))

  bounded_fields-IsExactOf :
      (fs : Fields) (n depth : ℕ) (path : String) (a b : Audit) (gs : Fields)
      → bounded_fields n depth path fs a ≡ ok (gs, b)
      → IsExactOf n (field_count fs) fs gs a b
  bounded_fields-IsExactOf end zero depth path a b gs h =
      whole-IsExactOf 0 0 end gs a b (returned-IsExact end gs a b h)
  bounded_fields-IsExactOf (field k v fs) zero depth path a b gs h =
      let (same, still) = returned_inj end gs a b h in
      record {
        grows = omega (arith, ap losses still);
        nothing_lost = λ e few. absurd (omega arith);
        unchanged = λ e. ap losses still;
      }
  bounded_fields-IsExactOf end (suc n) depth path a b gs h =
      whole-IsExactOf (suc n) 0 end gs a b (returned-IsExact end gs a b h)
  bounded_fields-IsExactOf (field k v fs) (suc n) depth path a b gs h =
      elim (Bool-cases (is_safe_key k)) [
        | inr unsafe ↦
            let rest = rw (bounded_fields, unsafe) at h in
            let noted = record_audit dropped_keys path a in
            dropped-IsExactOf n (field_count fs) depth path k v fs gs a b unsafe
              (bounded_fields_fits fs n depth path noted b gs rest).1
              (bounded_fields-IsExactOf fs n depth path noted b gs rest)
        | inl safe ↦
            let inner = String.◌++◌ path (String.◌++◌ "." k) in
            let (r, first, rest) =
              >>=_ok (bounded depth inner v a) _ (gs, b) (rw (bounded_fields, safe) at h) in
            let (rs, others, last) = >>=_ok (bounded_fields n depth path fs r.1) _ (gs, b) rest in
            let (same, still) = returned_inj (field k r.0 rs.0) gs rs.1 b last in
            rw (same, still)
              (field-IsExactOf n (field_count fs) k v r.0 fs rs.0 a r.1 rs.1
                (bounded-IsExact v depth inner a r.1 r.0 first)
                (bounded_fields-IsExactOf fs n depth path r.1 rs.1 rs.0 others))
      ]

-- Of a value that is accepted after an audit without losses, the summary says that nothing was lost
-- exactly where the value is kept as it was.
pub bounded-normalization_summary :
    (depth : ℕ) (path : String) (v w : Json) (a b : Audit)
    → losses a ≡ 0
    → bounded depth path v a ≡ ok (w, b)
    → ((normalization_summary b).lossy ≡ false) ↔ (w ≡ v)
unfolding normalization_summary
bounded-normalization_summary depth path v w a b none_before h =
    let x = bounded-IsExact v depth path a b w h in
    (λ e. x.nothing_lost (ground (arith, x.grows)), λ e. ground (arith, x.unchanged e))
