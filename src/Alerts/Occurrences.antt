-- ===== src/Alerts/Occurrences.antt =====
-- The occurrence counts of the alerts against the number of findings that were recorded.
use aegis_nexus.Common.{
  ℕ, suc, ◌+◌, ◌≤◌, Bool, true, Option, none, some, List, [], ◌∷◌, ◌++◌, keep, any, first, String,
  string_eq, ==_self, ◌≡◌, refl, sym, ap, ◌∙◌, arith, inl, inr,
}
use aegis_nexus.Common.Order.{order_by, any-order_by}
use aegis_nexus.Common.Rows.{count, update_where}
use aegis_nexus.Alerts.{
  Library, Alert, Tables, Finding, done, has_id, same_alert, last_seen_desc, seen_again, new_alert,
  existing, record_finding, update,
}
use aegis_nexus.Alerts.Invariant.{
  IsConsistent, recorded, updated, noted, IsReachable, start, next, record_finding-cases,
  update-cases, moved, add_note-alerts, reachable-IsConsistent,
}

abbrev pub total : List Alert → ℕ
total [] = 0
total (a ∷ alerts) = a.occurrence_count + total alerts

total-append :
    (alerts : List Alert) (a : Alert) → total (alerts ++ a ∷ []) ≡ total alerts + a.occurrence_count
total-append [] a = omega arith
total-append (x ∷ alerts) a = omega (arith, total-append alerts a)

total-seen :
    (p : Alert → Bool) (event_timestamp : String) (now : ℕ) (alerts : List Alert)
    → total (update_where p (seen_again event_timestamp now) alerts) ≡ total alerts + count p alerts
unfolding update_where
total-seen p event_timestamp now [] = omega arith
total-seen p event_timestamp now (a ∷ alerts) =
    ground (arith, total-seen p event_timestamp now alerts)

total-same :
    (p : Alert → Bool) (f : Alert → Alert)
    → ((a : Alert) → (f a).occurrence_count ≡ a.occurrence_count)
    → (alerts : List Alert) → total (update_where p f alerts) ≡ total alerts
unfolding update_where
total-same p f same [] = refl
total-same p f same (a ∷ alerts) = ground (arith, total-same p f same alerts, same a)

first-any :
    (p q : Alert → Bool) (alerts : List Alert) (a : Alert)
    → first q alerts ≡ some a
    → p a ≡ true
    → any p alerts ≡ true
first-any p q [] a e h = absurd (cc)
first-any p q (x ∷ alerts) a e h = ground (arith, first-any p q alerts a)

any-keep :
    (p q : Alert → Bool) (alerts : List Alert) → any p (keep q alerts) ≡ true → any p alerts ≡ true
any-keep p q [] h = h
any-keep p q (x ∷ alerts) h = ground (arith, any-keep p q alerts)

any-count : (p : Alert → Bool) (alerts : List Alert) → any p alerts ≡ true → 1 ≤ count p alerts
any-count p [] h = absurd (cc)
any-count p (x ∷ alerts) h = ground (arith, any-count p alerts)

-- The alert that is counted for is in the table.
existing-count :
    (f : Finding) (alerts : List Alert) (a : Alert)
    → existing f alerts ≡ some a
    → 1 ≤ count (has_id a.id) alerts
unfolding existing
existing-count f alerts a e =
    let found =
      first-any (has_id a.id) (λ x. true) (order_by last_seen_desc (keep (same_alert f) alerts)) a e
        (==_self a.id) in
    any-count (has_id a.id) alerts (
      any-keep (has_id a.id) (same_alert f) alerts
        (sym (any-order_by last_seen_desc (has_id a.id) (keep (same_alert f) alerts)) ∙ found))

module _ (lib : Library) where
  pub total-record_finding :
      (f : Finding) (event_timestamp fresh id : String) (now : ℕ) (t t' : Tables)
      → IsConsistent lib t
      → record_finding lib f event_timestamp now fresh t ≡ some (t', id)
      → total t'.alerts ≡ total t.alerts + 1
  total-record_finding f event_timestamp fresh id now t t' c e =
      let (same_tags, same_notes, change) =
        record_finding-cases lib f event_timestamp fresh id now t t' e in
      elim change [
        | inl (is_new, added) ↦
            rw added (total-append t.alerts (new_alert f fresh event_timestamp now))
        | inr (a, open_alert, changed) ↦
            rw (changed, total-seen (has_id a.id) event_timestamp now t.alerts)
              (omega (arith, c.one_row a.id, existing-count f t.alerts a open_alert))
      ]

  total-moved :
      (key : String) (status : Option String) (now : ℕ) (t : Tables)
      → total (moved lib key status now t) ≡ total t.alerts
  total-moved key none now t = refl
  total-moved key (some s) now t =
      total-same (has_id key) (λ a. record a { status = s; updated_at = now }) (λ a. refl) t.alerts

  total-update :
      (alert_id : String) (status : Option String) (tags : Option (List String)) (now : ℕ)
      (t t' : Tables)
      → update lib alert_id status tags now t ≡ done t'
      → total t'.alerts ≡ total t.alerts
  total-update alert_id status tags now t t' e =
      let key = lib.slice 128 alert_id in
      let (valid, same_notes, change) = update-cases lib alert_id status tags now t t' e in
      elim change [
        | inl (changed, same_tags) ↦ ap total changed ∙ total-moved key status now t
        | inr (names, changed, tagged) ↦
            ap total changed
            ∙ total-same (has_id key) (λ a. record a { updated_at = now }) (λ a. refl)
                (moved lib key status now t)
            ∙ total-moved key status now t
      ]

  -- The calls of `record` on the way to a state.
  abbrev pub findings : (t : Tables) → IsReachable lib t → ℕ
  findings t start = 0
  findings t' (next {t} r (recorded f event_timestamp fresh id now e)) = suc (findings t r)
  findings t' (next {t} r (updated alert_id status tags now e)) = findings t r
  findings t' (next {t} r (noted alert_id body now e)) = findings t r

  -- However calls one after another mix: the occurrence counts of all alerts add up to the number of
  -- findings that were recorded, so none is lost and none is counted twice.
  pub total-findings : (t : Tables) (r : IsReachable lib t) → total t.alerts ≡ findings t r
  total-findings t start = refl
  total-findings t' (next {t} r (recorded f event_timestamp fresh id now e)) = omega (
    arith,
    total-record_finding f event_timestamp fresh id now t t' (reachable-IsConsistent lib t r) e,
    total-findings t r,
  )
  total-findings t' (next {t} r (updated alert_id status tags now e)) =
      total-update alert_id status tags now t t' e ∙ total-findings t r
  total-findings t' (next {t} r (noted alert_id body now e)) =
      ap total (add_note-alerts lib alert_id body now t t' e)
      ∙ total-same (has_id (lib.slice 128 alert_id)) (λ a. record a { updated_at = now })
          (λ a. refl) t.alerts
      ∙ total-findings t r
