-- ===== src/Sessions/Tests.antt =====
-- Sessions on concrete events, and an instance of the theorem.
use aegis_nexus.Common.{
  ◌+◌, none, some, List, [], ◌∷◌, ◌≡◌, refl, arith, String, ◌==◌, string_eq, if◌then◌else◌,
}
use aegis_nexus.Common.Order.{order_by, insert_by}
use aegis_nexus.Common.Rows.{update_where}
use aegis_nexus.Sessions.{
  Library, Session, Event, new_session, joined, newest, should_join, select_or_create_session,
}
use aegis_nexus.Sessions.Counts.{AreDistinct, total, select_all, select_all-counts}

program : Unit {0}
unfolding order_by insert_by update_where newest should_join select_or_create_session
program = tt

abbrev plain : Library
plain = record {
  session_id_for = λ i text. text;
  session_id_for_explicit = λ i token. token;
  parse_ts = λ text. some (if text == "10:00" then 600 else if text == "10:05" then 605 else 700);
}

abbrev at : String → Event
at time = record {
  identity = record {
    source_ip = "10.0.0.9";
    honeypot = "ssh";
    service = "ssh";
    protocol = "tcp";
    destination_port = 22;
  };
  explicit = none;
  timestamp = time;
}

abbrev one_session : List Session
one_session = joined (at "10:05") (new_session "10:00" (at "10:00")) ∷ []

two_events : select_all plain 15 (at "10:00" ∷ at "10:05" ∷ []) [] ≡ some one_session
unfolding program
two_events = refl

-- A late event of the time at which an older session started gets the identifier of that session,
-- and its insertion fails.
late_event : select_all plain 15 (at "10:00" ∷ at "11:40" ∷ at "10:00" ∷ []) [] ≡ none
unfolding program
late_event = refl

select_all-counts_example : AreDistinct one_session × (total one_session ≡ 0 + 2)
select_all-counts_example =
    select_all-counts plain 15 (at "10:00" ∷ at "10:05" ∷ []) [] one_session (λ id. omega arith)
      two_events
