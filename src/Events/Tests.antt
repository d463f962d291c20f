-- ===== src/Events/Tests.antt =====
-- Normalization on concrete events, and instances of the theorems.
use aegis_nexus.Common.{
  true, false, none, some, [], ◌∷◌, ◌==◌, string_eq, ◌≡◌, ◌↔◌, refl, if◌then◌else◌,
}
use aegis_nexus.Common.Json.{
  pos, Json, null, int, str, object, array, nil, Fields, end, field, lookup, has_key, set_key,
}
use aegis_nexus.Common.Text.{any_char, slice}
use aegis_nexus.Common.Result.{ok, raise}
use aegis_nexus.Sequence.Validate.{
  sequence_number, stream_id, validate_event_sequence, last_sequence, validate_heartbeat_sequence,
  out_of_range,
}
use aegis_nexus.Events.{Audit, bounded, normalization_summary, payload_nesting_too_deep, invalid}
use aegis_nexus.Events.Credentials.{sensor_credential_truncation, redact_credentials}
use aegis_nexus.Events.Network.{non_negative_int, set_counts, validate_network_evidence, unhashable}
use aegis_nexus.Events.Claims.{
  no_number, check_entries, validate_derived, check_sources, validate_enrichment,
}
use aegis_nexus.Events.Normalize.{
  Library, Environment, Event, no_audit, normalize_ip, normalize_port, set_ip, set_port,
  normalize_observed, utc_iso, checked_event, normalize_event,
}
use aegis_nexus.Events.Bounds.{fits, bounded-fits}
use aegis_nexus.Events.Losses.{bounded-normalization_summary}
use aegis_nexus.Events.Normalized.{IsNormalized, normalize_event-IsNormalized}

program : Unit {0}
unfolding lookup has_key set_key any_char slice sequence_number stream_id validate_event_sequence
    last_sequence validate_heartbeat_sequence bounded normalization_summary
    sensor_credential_truncation redact_credentials non_negative_int set_counts
    validate_network_evidence check_entries validate_derived check_sources validate_enrichment
    normalize_ip normalize_port set_ip set_port normalize_observed utc_iso checked_event
    normalize_event fits
program = tt

-- One key that is not safe, and one that is.
abbrev mixed : Json
mixed = object (field "a b" null (field "x" (str "y") end))

abbrev kept : Json
kept = object (field "x" (str "y") end)

abbrev one_dropped : Audit
one_dropped = record no_audit { dropped_keys = record { occurrences = 1; paths = "observed" ∷ [] } }

bounded-fits_example : fits 0 kept ≡ true
unfolding program
bounded-fits_example = bounded-fits 0 "observed" mixed kept no_audit one_dropped refl

bounded-normalization_summary_example :
    ((normalization_summary one_dropped).lossy ≡ false) ↔ (kept ≡ mixed)
unfolding program
bounded-normalization_summary_example =
    bounded-normalization_summary 0 "observed" mixed kept no_audit one_dropped refl refl

deep_test : bounded 7 "observed" null no_audit ≡ raise payload_nesting_too_deep
unfolding program
deep_test = refl

abbrev plain : Library
plain = record {
  python = record {
    repr_of = λ v. "";
    int_of = λ v. elim v [ int n ↦ some n | _ ↦ none ];
    strip = λ s. s;
    lower = λ s. s;
    casefold = λ s. s;
    timestamp = λ s. none;
    decimal = λ n. "";
  };
  numbers = record { is_digit = λ c. true; float_of = λ v. no_number; within = λ n r. true };
  sha256 = λ s. "digest";
  ip_address = λ s. if s == "::ffff:10.0.0.1" then some (s, some "10.0.0.1") else some (s, none);
  is_uuid = λ s. s == "uuid";
  utc_iso = λ s. some s;
}

abbrev environment : Environment
environment = record { secrets = false; now = "now"; fresh = "uuid" }

abbrev observed : Fields
observed = field "source_ip" (str "::ffff:10.0.0.1") (
    field "source_port" (int (pos 22))
      (field "credential" (object (field "password" (str "hunter2") end)) end))

abbrev shown : Fields
shown = field "source_ip" (str "10.0.0.1") (
    field "source_port" (int (pos 22)) (
      field "credential"
        (object (
          field "password" (str "[redacted]") (
            field "password_length" (int (pos 7)) (
              field "password_sha256" (str "digest")
                (field "password_complete" (Json.bool true) end)))))
        end))

abbrev event : Event
event = record {
  id = "uuid";
  timestamp = "now";
  honeypot = "ssh-1";
  event_type = "unknown";
  severity = "info";
  observed = shown;
  enrichment = end;
  derived = end;
  hypotheses = array nil;
  normalization = record {
    lossy = false;
    truncated = false;
    redacted = true;
    audit = record no_audit {
      credential_secrets_redacted = record {
        occurrences = 1;
        paths = "observed.credential.password" ∷ [];
      };
    };
  };
}

normalize_event-IsNormalized_example : IsNormalized plain environment event
unfolding program
normalize_event-IsNormalized_example =
    normalize_event-IsNormalized plain environment
      (object (field "honeypot" (str "ssh-1") (field "observed" (object observed) end))) event refl

port_test :
    normalize_event plain environment
      (object (field "observed" (object (field "source_port" (int (pos 70000)) end)) end))
    ≡ raise (invalid "source_port")
unfolding program
port_test = refl

-- A list where a text is looked up in a set is not a validation error.
unhashable_test :
    validate_network_evidence plain.python
      (object (field "schema_version" (str "1.0") (field "source" (array nil) end)))
    ≡ raise unhashable
unfolding program
unhashable_test = refl

sequence_test :
    validate_event_sequence
      (object (field "stream_id" (str "abcdefghijklmnop") (field "sequence" (int (pos 0)) end)))
    ≡ raise (out_of_range "sequence")
unfolding program
sequence_test = refl

-- False is taken for the sequence 0.
heartbeat_test :
    validate_heartbeat_sequence (
      object
        (field "stream_id" (str "abcdefghijklmnop") (field "last_sequence" (Json.bool false) end)))
    ≡ ok (some ("abcdefghijklmnop", Json.bool false))
unfolding program
heartbeat_test = refl
