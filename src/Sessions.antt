-- ===== src/Sessions.antt =====
-- The sessions that events are put into: Store._select_or_create_session of aegis_nexus/store.py with
-- aegis_nexus/correlation.py. Times are texts, as the events carry them.
use text.Mathlib.Text.{is_lt}
use Prim.Native.String.{compare}
use aegis_nexus.Common.{
  ℕ, ◌+◌, ◌-◌, Bool, true, false, ◌&&◌, leb, nat_beq, if◌then◌else◌, Option, none, some, List, [],
  ◌∷◌, ◌++◌, keep, any, first, String, ◌==◌, string_eq,
}
use aegis_nexus.Common.Order.{order_by, insert_by}
use aegis_nexus.Common.Rows.{update_where}
pub mod Counts
mod Tests

pub record Identity : Type 0 where
  pub source_ip : String
  pub honeypot : String
  pub service : String
  pub protocol : String
  pub destination_port : ℕ

pub record Session : Type 0 where
  pub id : String
  pub identity : Identity
  pub started_at : String
  pub last_seen : String
  pub event_count : ℕ

-- An event: `explicit` is the token of a sensor session or of a flow.
pub record Event : Type 0 where
  pub identity : Identity
  pub explicit : Option String
  pub timestamp : String

-- SHA-256 over the joined texts, and the microseconds of a timestamp; `none` is an exception.
pub record Library : Type 0 where
  pub session_id_for : Identity → String → String
  pub session_id_for_explicit : Identity → String → String
  pub parse_ts : String → Option ℕ

abbrev pub has_id : String → Session → Bool
has_id id s = s.id == id

abbrev pub same_identity : Identity → Session → Bool
same_identity i s =
    s.identity.source_ip == i.source_ip
    && (s.identity.honeypot == i.honeypot
        && (s.identity.service == i.service
            && (s.identity.protocol == i.protocol
                && nat_beq s.identity.destination_port i.destination_port)))

abbrev pub last_seen_desc : Session → Session → Bool
last_seen_desc a b = is_lt (compare b.last_seen a.last_seen)

abbrev pub new_session : String → Event → Session
new_session id e = record {
  id = id;
  identity = e.identity;
  started_at = e.timestamp;
  last_seen = e.timestamp;
  event_count = 1;
}

-- The update of an explicit session widens its span.
abbrev pub widened : Event → Session → Session
widened e s = record s {
  started_at = if is_lt (compare e.timestamp s.started_at) then e.timestamp else s.started_at;
  last_seen = if is_lt (compare s.last_seen e.timestamp) then e.timestamp else s.last_seen;
  event_count = s.event_count + 1;
}

abbrev pub joined : Event → Session → Session
joined e s = record s { last_seen = e.timestamp; event_count = s.event_count + 1 }

-- The insertion, which fails on an identifier that is taken.
abbrev pub insert_session : String → Event → List Session → Option (List Session × String)
insert_session id e sessions =
    if any (has_id id) sessions then none else some (sessions ++ new_session id e ∷ [], id)

unfoldable pub newest : Identity → List Session → Option Session
unfolding order_by insert_by
newest i sessions = first (λ s. true) (order_by last_seen_desc (keep (same_identity i) sessions))

-- `gap` is SESSION_GAP in microseconds.
module _ (lib : Library) (gap : ℕ) where
  unfoldable pub should_join : String → String → Option Bool
  should_join last_seen event_ts = elim (lib.parse_ts event_ts) [
    | none ↦ none
    | some at ↦ elim (lib.parse_ts last_seen) [
      | none ↦ none
      | some last ↦ some (leb last at && leb (at - last) gap)
    ]
  ]

  unfoldable pub select_or_create_session : Event → List Session → Option (List Session × String)
  unfolding newest should_join update_where
  select_or_create_session e sessions = elim e.explicit [
    | some token ↦
        if any (has_id (lib.session_id_for_explicit e.identity token)) sessions
        then some (
          update_where (has_id (lib.session_id_for_explicit e.identity token)) (widened e) sessions,
          lib.session_id_for_explicit e.identity token,
        )
        else insert_session (lib.session_id_for_explicit e.identity token) e sessions
    | none ↦ elim (newest e.identity sessions) [
      | none ↦ insert_session (lib.session_id_for e.identity e.timestamp) e sessions
      | some s ↦ elim (should_join s.last_seen e.timestamp) [
        | none ↦ none
        | some true ↦ some (update_where (has_id s.id) (joined e) sessions, s.id)
        | some false ↦ insert_session (lib.session_id_for e.identity e.timestamp) e sessions
      ]
    ]
  ]
