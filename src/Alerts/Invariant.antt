-- ===== src/Alerts/Invariant.antt =====
-- The tables of alerts reachable by the operations, and what holds of all of them.
use aegis_nexus.Common.{
  ℕ, suc, ◌+◌, ◌≤◌, Bool, true, false, not, if◌then◌else◌, Option, none, some, List, [], ◌∷◌, ◌++◌,
  keep, any, take, length, String, ◌==◌, string_eq, eq_test, ==_self, ◌⊎◌, ◌≡◌, refl, sym, arith,
  All, All-append, length-take, Bool-cases, Option-cases, inl, inr,
}
use aegis_nexus.Common.Rows.{
  count, update_where, count-append, count-update_where, count-any, count-keep, count_deleted,
  All-update_where,
}
use aegis_nexus.Alerts.{
  Library, Alert, Tag, Note, Tables, Finding, done, is_status, has_id, seen_again, new_alert,
  existing, record_finding, add_tags, set_tags, update, of_alert, add_note,
}

abbrev pub tag_of : String → Tag → Bool
tag_of id g = g.alert_id == id

pub record IsConsistent (lib : Library) (t : Tables) : Type 0 where
  pub one_row : (id : String) → count (has_id id) t.alerts ≤ 1
  pub statuses : All (λ a. is_status a.status ≡ true) t.alerts
  pub few_tags : (id : String) → count (tag_of id) t.tags ≤ 32
  pub few_notes : (id : String) → count (of_alert id) t.notes ≤ 500

-- One call that returned, where no other call came between what it read and what it wrote.
pub data Step (lib : Library) : Tables → Tables → Type 0 where
  recorded :
      (f : Finding) (event_timestamp fresh id : String) (now : ℕ) {t t' : Tables}
      → record_finding lib f event_timestamp now fresh t ≡ some (t', id)
      → Step lib t t'
  updated :
      (alert_id : String) (status : Option String) (tags : Option (List String)) (now : ℕ)
      {t t' : Tables}
      → update lib alert_id status tags now t ≡ done t'
      → Step lib t t'
  noted :
      (alert_id body : String) (now : ℕ) {t t' : Tables}
      → add_note lib alert_id body now (λ i. t) t ≡ done t'
      → Step lib t t'

abbrev pub empty : Tables
empty = record { alerts = []; evidence = []; tags = []; notes = []; last_note = 0 }

pub data IsReachable (lib : Library) : Tables → Type 0 where
  start : IsReachable lib empty
  next : {t t' : Tables} → IsReachable lib t → Step lib t t' → IsReachable lib t'

module _ (lib : Library) where
  count-add_tags :
      (id j : String) (names : List String) (rows : List Tag)
      → count (tag_of j) (add_tags lib id names rows)
        ≤ count (tag_of j) rows + (if id == j then length names else 0)
  unfolding add_tags
  count-add_tags id j [] rows = ground arith
  count-add_tags id j (name ∷ names) rows =
      let row : Tag = record { alert_id = id; tag = lib.slice 64 (lib.strip name) } in
      ground (
        arith,
        count-add_tags id j names rows,
        count-add_tags id j names (rows ++ row ∷ []),
        count-append (tag_of j) rows row,
      )

  count-set_tags :
      (id j : String) (names : List String) (rows : List Tag)
      → count (tag_of j) rows ≤ 32
      → count (tag_of j) (set_tags lib id names rows) ≤ 32
  count-set_tags id j names rows h =
      let left = keep (λ g. not (tag_of id g)) rows in
      elim (Bool-cases (id == j)) [
        | inl same ↦ rw (sym ((eq_test id j).0 same)) (
            ground (
              arith,
              count-add_tags id id (take 32 names) left,
              count_deleted (tag_of id) rows,
              length-take 32 names,
              ==_self id,
            ))
        | inr other_id ↦ ground (
          arith,
          count-add_tags id j (take 32 names) left,
          count-keep (tag_of j) (λ g. not (tag_of id g)) rows,
        )
      ]

  -- A finding adds an alert with a new id, or counts for an open one.
  pub record_finding-cases :
      (f : Finding) (event_timestamp fresh id : String) (now : ℕ) (t t' : Tables)
      → record_finding lib f event_timestamp now fresh t ≡ some (t', id)
      → (t'.tags ≡ t.tags)
        × (t'.notes ≡ t.notes)
        × (((any (has_id fresh) t.alerts ≡ false)
              × (t'.alerts ≡ t.alerts ++ new_alert f fresh event_timestamp now ∷ []))
            ⊎ ((a : Alert) × (existing f t.alerts ≡ some a)
                × (t'.alerts
                    ≡ update_where (has_id a.id) (seen_again event_timestamp now) t.alerts)))
  unfolding record_finding
  record_finding-cases f event_timestamp fresh id now t t' e =
      elim (Option-cases (existing f t.alerts)) [
        | inl none_open ↦ (ground arith, ground arith, inl (ground arith))
        | inr (a, open_alert) ↦ (ground arith, ground arith, inr (a, open_alert, ground arith))
      ]

  record-IsConsistent :
      (f : Finding) (event_timestamp fresh id : String) (now : ℕ) (t t' : Tables)
      → IsConsistent lib t
      → record_finding lib f event_timestamp now fresh t ≡ some (t', id)
      → IsConsistent lib t'
  record-IsConsistent f event_timestamp fresh id now t t' c e =
      let (same_tags, same_notes, change) =
        record_finding-cases f event_timestamp fresh id now t t' e in
      elim change [
        | inl (is_new, added) ↦ record {
          one_row = λ j. rw added (
              ground (
                arith,
                c.one_row j,
                count-any (has_id fresh) t.alerts is_new,
                eq_test fresh j,
                count-append (has_id j) t.alerts (new_alert f fresh event_timestamp now),
              ));
          statuses = rw added (
              All-append (λ a. is_status a.status ≡ true) t.alerts
                (new_alert f fresh event_timestamp now ∷ []) c.statuses (refl, tt));
          few_tags = λ j. rw same_tags (c.few_tags j);
          few_notes = λ j. rw same_notes (c.few_notes j);
        }
        | inr (a, open_alert, changed) ↦ record {
          one_row = λ j.
              rw
                (
                  changed,
                  count-update_where (has_id a.id) (has_id j) (seen_again event_timestamp now)
                      (λ x. refl) t.alerts,
                )
                (c.one_row j);
          statuses = rw changed (
              All-update_where (λ x. is_status x.status ≡ true) (has_id a.id)
                (seen_again event_timestamp now) (λ x h. h) t.alerts c.statuses);
          few_tags = λ j. rw same_tags (c.few_tags j);
          few_notes = λ j. rw same_notes (c.few_notes j);
        }
      ]

  pub add_note-alerts :
      (alert_id body : String) (now : ℕ) (t t' : Tables)
      → add_note lib alert_id body now (λ i. t) t ≡ done t'
      → t'.alerts
        ≡ update_where
            (has_id (lib.slice 128 alert_id))
            (λ a. record a { updated_at = now })
            t.alerts
  unfolding add_note
  add_note-alerts alert_id body now t t' e = ground arith

  touched-statuses :
      (p : Alert → Bool) (now : ℕ) (alerts : List Alert)
      → All (λ a. is_status a.status ≡ true) alerts
      → All
          (λ a. is_status a.status ≡ true)
          (update_where p (λ a. record a { updated_at = now }) alerts)
  touched-statuses p now alerts h =
      All-update_where (λ a. is_status a.status ≡ true) p (λ a. record a { updated_at = now })
        (λ x h'. h') alerts h

  note-IsConsistent :
      (alert_id body : String) (now : ℕ) (t t' : Tables)
      → IsConsistent lib t
      → add_note lib alert_id body now (λ i. t) t ≡ done t'
      → IsConsistent lib t'
  unfolding add_note
  note-IsConsistent alert_id body now t t' c e =
      let key = lib.slice 128 alert_id in
      let touched = λ (a : Alert). record a { updated_at = now } in
      let note : Note = record {
        id = suc t.last_note;
        alert_id = key;
        body = lib.strip body;
        created_at = now;
      } in
      record {
        one_row = λ j. ground (
          arith,
          c.one_row j,
          count-update_where (has_id key) (has_id j) touched (λ x. refl) t.alerts,
        );
        statuses =
            rw (add_note-alerts alert_id body now t t' e)
              (touched-statuses (has_id key) now t.alerts c.statuses);
        few_tags = λ j. ground (arith, c.few_tags j);
        few_notes = λ j.
            ground (arith, c.few_notes j, count-append (of_alert j) t.notes note, eq_test key j);
      }

  -- The alerts after a change of status.
  abbrev pub moved : String → Option String → ℕ → Tables → List Alert
  moved key none now t = t.alerts
  moved key (some s) now t =
      update_where (has_id key) (λ a. record a { status = s; updated_at = now }) t.alerts

  pub update-cases :
      (alert_id : String) (status : Option String) (tags : Option (List String)) (now : ℕ)
      (t t' : Tables)
      → update lib alert_id status tags now t ≡ done t'
      → (elim status [ none ↦ true | some s ↦ is_status s ] ≡ true)
        × (t'.notes ≡ t.notes)
        × (((t'.alerts ≡ moved (lib.slice 128 alert_id) status now t) × (t'.tags ≡ t.tags))
            ⊎ ((names : List String) × (t'.alerts
                  ≡ update_where
                      (has_id (lib.slice 128 alert_id))
                      (λ a. record a { updated_at = now })
                      (moved (lib.slice 128 alert_id) status now t))
                × (t'.tags ≡ set_tags lib (lib.slice 128 alert_id) names t.tags)))
  unfolding update
  update-cases alert_id none none now t t' e = (refl, ground arith, inl (ground arith))
  update-cases alert_id none (some names) now t t' e =
      (refl, ground arith, inr (names, ground arith, ground arith))
  update-cases alert_id (some s) none now t t' e = (ground arith, ground arith, inl (ground arith))
  update-cases alert_id (some s) (some names) now t t' e =
      (ground arith, ground arith, inr (names, ground arith, ground arith))

  count-moved :
      (key : String) (status : Option String) (now : ℕ) (t : Tables) (j : String)
      → count (has_id j) (moved key status now t) ≡ count (has_id j) t.alerts
  count-moved key none now t j = refl
  count-moved key (some s) now t j =
      count-update_where (has_id key) (has_id j) (λ a. record a { status = s; updated_at = now })
        (λ x. refl) t.alerts

  moved-statuses :
      (key : String) (status : Option String) (now : ℕ) (t : Tables)
      → (elim status [ none ↦ true | some s ↦ is_status s ] ≡ true)
      → All (λ a. is_status a.status ≡ true) t.alerts
      → All (λ a. is_status a.status ≡ true) (moved key status now t)
  moved-statuses key none now t valid h = h
  moved-statuses key (some s) now t valid h =
      All-update_where (λ a. is_status a.status ≡ true) (has_id key)
        (λ a. record a { status = s; updated_at = now }) (λ x h'. valid) t.alerts h

  update-IsConsistent :
      (alert_id : String) (status : Option String) (tags : Option (List String)) (now : ℕ)
      (t t' : Tables)
      → IsConsistent lib t
      → update lib alert_id status tags now t ≡ done t'
      → IsConsistent lib t'
  update-IsConsistent alert_id status tags now t t' c e =
      let key = lib.slice 128 alert_id in
      let (valid, same_notes, change) = update-cases alert_id status tags now t t' e in
      elim change [
        | inl (changed, same_tags) ↦ record {
          one_row = λ j. rw (changed, count-moved key status now t j) (c.one_row j);
          statuses = rw changed (moved-statuses key status now t valid c.statuses);
          few_tags = λ j. rw same_tags (c.few_tags j);
          few_notes = λ j. rw same_notes (c.few_notes j);
        }
        | inr (names, changed, tagged) ↦ record {
          one_row = λ j.
              rw
                (
                  changed,
                  count-update_where (has_id key) (has_id j) (λ a. record a { updated_at = now })
                      (λ x. refl) (moved key status now t),
                  count-moved key status now t j,
                )
                (c.one_row j);
          statuses = rw changed (
              touched-statuses (has_id key) now (moved key status now t)
                (moved-statuses key status now t valid c.statuses));
          few_tags = λ j. rw tagged (count-set_tags key j names t.tags (c.few_tags j));
          few_notes = λ j. rw same_notes (c.few_notes j);
        }
      ]

  -- In every state that calls one after another reach, none of which comes between the reads and the
  -- writes of another: no identifier has two alerts, every status is one of the four, and no alert has
  -- more than 32 tags or 500 notes.
  pub reachable-IsConsistent : (t : Tables) → IsReachable lib t → IsConsistent lib t
  reachable-IsConsistent t start = record {
    one_row = λ id. omega arith;
    statuses = tt;
    few_tags = λ id. omega arith;
    few_notes = λ id. omega arith;
  }
  reachable-IsConsistent t' (next {t} r (recorded f event_timestamp fresh id now e)) =
      record-IsConsistent f event_timestamp fresh id now t t' (reachable-IsConsistent t r) e
  reachable-IsConsistent t' (next {t} r (updated alert_id status tags now e)) =
      update-IsConsistent alert_id status tags now t t' (reachable-IsConsistent t r) e
  reachable-IsConsistent t' (next {t} r (noted alert_id body now e)) =
      note-IsConsistent alert_id body now t t' (reachable-IsConsistent t r) e
