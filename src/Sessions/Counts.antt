-- ===== src/Sessions/Counts.antt =====
-- The event counts of the sessions against the number of events.
use aegis_nexus.Common.{
  ℕ, ◌+◌, ◌≤◌, Bool, true, false, Option, none, some, List, [], ◌∷◌, ◌++◌, keep, any, first, length,
  String, string_eq, eq_test, ==_self, ◌≡◌, refl, sym, ◌∙◌, arith, ◌⊎◌, inl, inr, Option-cases,
}
use aegis_nexus.Common.Order.{order_by, any-order_by}
use aegis_nexus.Common.Rows.{count, update_where, count-append, count-update_where, count-any}
use aegis_nexus.Sessions.{
  Library, Session, Event, has_id, same_identity, last_seen_desc, new_session, widened, joined,
  newest, should_join, select_or_create_session,
}

abbrev pub total : List Session → ℕ
total [] = 0
total (s ∷ sessions) = s.event_count + total sessions

total-append :
    (sessions : List Session) (s : Session)
    → total (sessions ++ s ∷ []) ≡ total sessions + s.event_count
total-append [] s = omega arith
total-append (x ∷ sessions) s = omega (arith, total-append sessions s)

total-counted :
    (p : Session → Bool) (f : Session → Session)
    → ((s : Session) → (f s).event_count ≡ s.event_count + 1)
    → (sessions : List Session)
    → total (update_where p f sessions) ≡ total sessions + count p sessions
unfolding update_where
total-counted p f more [] = omega arith
total-counted p f more (s ∷ sessions) = ground (arith, total-counted p f more sessions, more s)

first-any :
    (p q : Session → Bool) (sessions : List Session) (s : Session)
    → first q sessions ≡ some s
    → p s ≡ true
    → any p sessions ≡ true
first-any p q [] s e h = absurd (cc)
first-any p q (x ∷ sessions) s e h = ground (arith, first-any p q sessions s)

any-keep :
    (p q : Session → Bool) (sessions : List Session)
    → any p (keep q sessions) ≡ true
    → any p sessions ≡ true
any-keep p q [] h = h
any-keep p q (x ∷ sessions) h = ground (arith, any-keep p q sessions)

any-count :
    (p : Session → Bool) (sessions : List Session) → any p sessions ≡ true → 1 ≤ count p sessions
any-count p [] h = absurd (cc)
any-count p (x ∷ sessions) h = ground (arith, any-count p sessions)

newest-any :
    (e : Event) (sessions : List Session) (s : Session)
    → newest e.identity sessions ≡ some s
    → any (has_id s.id) sessions ≡ true
unfolding newest
newest-any e sessions s h = any-keep (has_id s.id) (same_identity e.identity) sessions (
    sym (any-order_by last_seen_desc (has_id s.id) (keep (same_identity e.identity) sessions))
    ∙ first-any (has_id s.id) (λ x. true)
        (order_by last_seen_desc (keep (same_identity e.identity) sessions)) s h (==_self s.id))

-- No identifier has two sessions.
abbrev pub AreDistinct : List Session → Type 0
AreDistinct sessions = (id : String) → count (has_id id) sessions ≤ 1

module _ (lib : Library) (gap : ℕ) where
  -- A session is added under a new identifier, or the one of the identifier counts one more.
  select-cases :
      (e : Event) (sessions sessions' : List Session) (id : String)
      → select_or_create_session lib gap e sessions ≡ some (sessions', id)
      → ((any (has_id id) sessions ≡ false) × (sessions' ≡ sessions ++ new_session id e ∷ []))
        ⊎ ((any (has_id id) sessions ≡ true)
            × ((sessions' ≡ update_where (has_id id) (widened e) sessions)
                ⊎ (sessions' ≡ update_where (has_id id) (joined e) sessions)))
  unfolding select_or_create_session
  select-cases e sessions sessions' id h = elim (Option-cases e.explicit) [
    | inr (token, x) ↦ ground arith
    | inl x ↦ elim (Option-cases (newest e.identity sessions)) [
      | inl y ↦ ground arith
      | inr (s, y) ↦ elim (Option-cases (should_join lib gap s.last_seen e.timestamp)) [
        | inl z ↦ absurd (ground arith)
        | inr (true, z) ↦ ground (arith, newest-any e sessions s y)
        | inr (false, z) ↦ ground arith
      ]
    ]
  ]

  module _ (e : Event) (sessions sessions' : List Session) (id : String) where
    select-AreDistinct :
        AreDistinct sessions
        → select_or_create_session lib gap e sessions ≡ some (sessions', id)
        → AreDistinct sessions'
    select-AreDistinct d h j = elim (select-cases e sessions sessions' id h) [
      | inl (is_new, added) ↦ rw added (
          ground (
            arith,
            d j,
            count-any (has_id id) sessions is_new,
            eq_test id j,
            count-append (has_id j) sessions (new_session id e),
          ))
      | inr (there, inl changed) ↦
          rw (changed, count-update_where (has_id id) (has_id j) (widened e) (λ s. refl) sessions)
            (d j)
      | inr (there, inr changed) ↦
          rw (changed, count-update_where (has_id id) (has_id j) (joined e) (λ s. refl) sessions)
            (d j)
    ]

    total-select :
        AreDistinct sessions
        → select_or_create_session lib gap e sessions ≡ some (sessions', id)
        → total sessions' ≡ total sessions + 1
    total-select d h = elim (select-cases e sessions sessions' id h) [
      | inl (is_new, added) ↦ rw added (total-append sessions (new_session id e))
      | inr (there, inl changed) ↦
          rw (changed, total-counted (has_id id) (widened e) (λ s. refl) sessions)
            (omega (arith, d id, any-count (has_id id) sessions there))
      | inr (there, inr changed) ↦
          rw (changed, total-counted (has_id id) (joined e) (λ s. refl) sessions)
            (omega (arith, d id, any-count (has_id id) sessions there))
    ]

  -- A run over events; it ends at one that fails.
  abbrev pub select_all : List Event → List Session → Option (List Session)
  select_all [] sessions = some sessions
  select_all (e ∷ events) sessions = elim (select_or_create_session lib gap e sessions) [
    | none ↦ none
    | some answer ↦ select_all events answer.0
  ]

  -- From sessions with different identifiers, such as none: after any events, in any order of time,
  -- that all find a session, the identifiers are different and the event counts have grown by
  -- exactly the number of the events.
  pub select_all-counts :
      (events : List Event) (sessions sessions' : List Session)
      → AreDistinct sessions
      → select_all events sessions ≡ some sessions'
      → AreDistinct sessions' × (total sessions' ≡ total sessions + length events)
  select_all-counts [] sessions sessions' d h =
      let same : sessions' ≡ sessions = ground arith in (λ j. rw same (d j), rw same (omega arith))
  select_all-counts (e ∷ events) sessions sessions' d h =
      elim (Option-cases (select_or_create_session lib gap e sessions)) [
        | inl failed ↦ absurd (ground arith)
        | inr ((next, id), found) ↦
            let later : select_all events next ≡ some sessions' = ground arith in
            let rest =
              select_all-counts events next sessions'
                (select-AreDistinct e sessions next id d found) later in
            (rest.0, omega (arith, rest.1, total-select e sessions next id d found))
      ]
