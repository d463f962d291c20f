-- ===== src/Detection/Windows.antt =====
-- Which events a window holds.
use aegis_nexus.Common.{
  true, ◌+◌, ◌*◌, ◌≤◌, ◌⊎◌, Option-cases, eq_cases, ℕ, Bool, false, ◌&&◌, if◌then◌else◌, none, some,
  List, [], ◌∷◌, ◌++◌, keep, first, String, ◌==◌, string_eq, eq_test, ==_ne, ◌≡◌, ◌≢◌, refl, sym,
  ap, ◌∙◌, arith, Bool-cases, inl, inr,
}
use aegis_nexus.Common.Json.{Json, get_key}
use aegis_nexus.Common.Python.{Python}
use aegis_nexus.Common.Order.{count-order_by}
use aegis_nexus.Common.Rows.{count}
use aegis_nexus.Common.Sets.{elem}
use aegis_nexus.Detection.Events.{
  parse_timestamp, source_ip, event_id, dedupe_from, dedupe_events, in_window, not_later, window,
}

module _ (py : Python) (id : String) (q : Json → Bool) where
  -- An event of this identifier that passes the test.
  abbrev pub chosen : Json → Bool
  chosen e = event_id py e == id && q e

  -- The first event of the identifier counts, when it passes.
  abbrev first_counts : (Json → Bool) → List Json → ℕ
  first_counts p events = elim (first (λ e. event_id py e == id) events) [
    | none ↦ 0
    | some e ↦ if p e && q e then 1 else 0
  ]

  count-dedupe_from :
      (p : Json → Bool) (seen : List String) (events : List Json)
      → id ≢ ""
      → count chosen (keep p (dedupe_from py seen events))
        ≡ (if elem id seen then 0 else first_counts p events)
  unfolding dedupe_from
  count-dedupe_from p seen [] named = ground arith
  count-dedupe_from p seen (e ∷ events) named =
      let skipped = count-dedupe_from p seen events named in
      let taken = count-dedupe_from p (event_id py e ∷ seen) events named in
      elim (Bool-cases (event_id py e == id)) [
        | inl same ↦
            let equal : event_id py e ≡ id = (eq_test (event_id py e) id).0 same in
            let member : elem (event_id py e) seen ≡ elem id seen = ap (λ x. elem x seen) equal in
            let not_empty : (event_id py e == "") ≡ false =
              ==_ne (event_id py e) "" (λ h. named (sym equal ∙ h)) in
            ground arith
        | inr other ↦ ground arith
      ]

window_counts :
    (py : Python) (event : Json) (context : List Json) (seconds anchor : ℕ) (same_source : Bool)
    (id : String) (q : Json → Bool)
    → id ≢ ""
    → parse_timestamp py (get_key "timestamp" event) ≡ some anchor
    → count (chosen py id q) (window py event context seconds same_source)
      ≡ first_counts py id q
          (in_window py anchor (source_ip py event) seconds same_source)
          (context ++ event ∷ [])
unfolding window dedupe_events
window_counts py event context seconds anchor same_source id q named timed =
    let p = in_window py anchor (source_ip py event) seconds same_source in
    rw
      (
        window,
        timed,
        count-order_by (not_later py) (chosen py id q)
            (keep p (dedupe_from py [] (context ++ event ∷ []))),
        count-dedupe_from py id q p [] (context ++ event ∷ []) named,
      )
      refl

-- The event has a time that is not later than the anchor and at most so many seconds before it, and,
-- where that is asked and the anchor has a source, its source is the anchor's.
pub record IsInWindow (py : Python) (event : Json) (anchor seconds : ℕ) (same_source : Bool)
    (e : Json) : Type 0 where
  pub at : ℕ
  pub timed : parse_timestamp py (get_key "timestamp" e) ≡ some at
  pub not_after : at ≤ anchor
  pub not_before : anchor ≤ at + seconds * 1000000
  pub source :
      (same_source ≡ false) ⊎ ((source_ip py event ≡ "") ⊎ (source_ip py e ≡ source_ip py event))

in_window-IsInWindow :
    (py : Python) (event : Json) (anchor seconds : ℕ) (same_source : Bool) (e : Json)
    → in_window py anchor (source_ip py event) seconds same_source e ≡ true
    → IsInWindow py event anchor seconds same_source e
unfolding in_window
in_window-IsInWindow py event anchor seconds same_source e h =
    elim (Option-cases (parse_timestamp py (get_key "timestamp" e))) [
      | inl untimed ↦ absurd (ground arith)
      | inr (at, timed) ↦ record {
        at = at;
        timed = timed;
        not_after = ground arith;
        not_before = ground arith;
        source = elim (Bool-cases same_source) [
          | inr any_source ↦ inl any_source
          | inl same ↦ elim (eq_cases (source_ip py event) "") [
            | inl nowhere ↦ inr (inl nowhere)
            | inr somewhere ↦
                let equal : (source_ip py e == source_ip py event) ≡ true =
                  ground (arith, ==_ne (source_ip py event) "" somewhere) in
                inr (inr ((eq_test (source_ip py e) (source_ip py event)).0 equal))
          ]
        ];
      }
    ]

IsInWindow-in_window :
    (py : Python) (event : Json) (anchor seconds : ℕ) (same_source : Bool) (e : Json)
    → IsInWindow py event anchor seconds same_source e
    → in_window py anchor (source_ip py event) seconds same_source e ≡ true
unfolding in_window
IsInWindow-in_window py event anchor seconds same_source e h =
    let timed = h.timed in
    let low = h.not_after in
    let high = h.not_before in
    elim (h.source) [
      | inl any_source ↦ ground arith
      | inr (inl nowhere) ↦ ground (arith, eq_test (source_ip py event) "")
      | inr (inr mine) ↦ ground (arith, eq_test (source_ip py e) (source_ip py event))
    ]

-- For an anchor with a time: of each identifier that is not empty, the window holds the first event
-- among the context and the anchor, once, when that is not later than the anchor, at most so many
-- seconds before it and, where that is asked and the anchor has a source, of the same source; when it
-- is not so, or there is none, the window holds no event of the identifier.
pub window_exact :
    (py : Python) (event : Json) (context : List Json) (seconds anchor : ℕ) (same_source : Bool)
    (id : String) (q : Json → Bool)
    → id ≢ ""
    → parse_timestamp py (get_key "timestamp" event) ≡ some anchor
    → ((first (λ e. event_id py e == id) (context ++ event ∷ []) ≡ none)
        → count (chosen py id q) (window py event context seconds same_source) ≡ 0)
      × ((e : Json)
          → first (λ x. event_id py x == id) (context ++ event ∷ []) ≡ some e
          → (IsInWindow py event anchor seconds same_source e
              → count (chosen py id q) (window py event context seconds same_source)
                ≡ (if q e then 1 else 0))
            × (¬ IsInWindow py event anchor seconds same_source e
                → count (chosen py id q) (window py event context seconds same_source) ≡ 0))
window_exact py event context seconds anchor same_source id q named timed =
    let p = in_window py anchor (source_ip py event) seconds same_source in
    let counts = window_counts py event context seconds anchor same_source id q named timed in
    (
      λ absent. counts ∙ rw (first_counts, absent) refl,
      λ e found. (
        λ inside.
            counts
            ∙ rw
                (
                  first_counts,
                  found,
                  IsInWindow-in_window py event anchor seconds same_source e inside,
                )
                refl,
        λ outside.
            let out : p e ≡ false = elim (Bool-cases (p e)) [
              | inl inside ↦
                  absurd
                    (outside (in_window-IsInWindow py event anchor seconds same_source e inside))
              | inr out ↦ out
            ] in
            counts ∙ rw (first_counts, found, out) refl,
      ),
    )
