-- ===== src/Events/Normalize.antt =====
-- The normalization of an event: normalize_event of aegis_nexus/model.py.
use aegis_nexus.Common.{
  ℕ, Bool, ◌&&◌, leb, if◌then◌else◌, Option, none, some, List, [], ◌∷◌, String, ◌==◌, string_eq,
}
use aegis_nexus.Common.Json.{
  ℤ, pos, Json, null, bool, int, str, array, object, nil, Fields, end, field, lookup, has_key,
  truthy, set_key, is_null,
}
use aegis_nexus.Common.Text.{slice}
use aegis_nexus.Common.Python.{Python, str_of}
use aegis_nexus.Common.Result.{Result, ok, raise, ◌>>=◌, ◌>>◌, need}
use aegis_nexus.Common.Sets.{elem}
use aegis_nexus.Sequence.Validate.{SensorSequenceError, validate_event_sequence}
use aegis_nexus.Events.{
  EventValidationError, invalid, must_be_a_list, must_be_an_object, invalid_network,
  invalid_sequence, Audit, Summary, Bounded, is_safe_key, bounded, normalization_summary,
}
use aegis_nexus.Events.Credentials.{redact_credentials}
use aegis_nexus.Events.Network.{NetworkError, is_given, validate_network_evidence}
use aegis_nexus.Events.Claims.{Numbers, validate_derived, validate_enrichment}

-- `ip_address` gives the text of an address and that of the IPv4 address mapped in it; `utc_iso` is
-- the text in UTC of a timestamp that `fromisoformat` reads.
pub record Library : Type 0 where
  pub python : Python
  pub numbers : Numbers
  pub sha256 : String → String
  pub ip_address : String → Option (String × Option String)
  pub is_uuid : String → Bool
  pub utc_iso : String → Option String

-- The environment: whether secrets are stored, the present time, and a fresh identifier.
pub record Environment : Type 0 where
  pub secrets : Bool
  pub now : String
  pub fresh : String

pub record Event : Type 0 where
  pub id : String
  pub timestamp : String
  pub honeypot : String
  pub event_type : String
  pub severity : String
  pub observed : Fields
  pub enrichment : Fields
  pub derived : Fields
  pub hypotheses : Json
  pub normalization : Summary

abbrev pub Checked : Type 0 → Type 0
Checked A = Result EventValidationError A

abbrev pub allowed_severities : List String
allowed_severities = "info" ∷ "low" ∷ "medium" ∷ "high" ∷ "critical" ∷ []

abbrev pub as_object : String → Json → Checked Fields
as_object name null = ok end
as_object name (object fs) = ok fs
as_object name _ = raise (must_be_an_object name)

abbrev pub as_list : String → Json → Checked Json
as_list name null = ok (array nil)
as_list name (array vs) = ok (array vs)
as_list name _ = raise (must_be_a_list name)

-- The dictionary that `bounded` makes of one.
abbrev pub bounded_object : String → Fields → Audit → Bounded Fields
bounded_object name fs a =
    bounded 0 name (object fs) a >>= λ r. as_object name r.0 >>= λ gs. ok (gs, r.1)

abbrev pub from_network : Result NetworkError Json → Checked Json
from_network (ok v) = ok v
from_network (raise e) = raise (invalid_network e)

abbrev pub from_sequence : Result SensorSequenceError (String × ℕ) → Checked Json
from_sequence (ok (id, n)) =
    ok (object (field "stream_id" (str id) (field "sequence" (int (pos n)) end)))
from_sequence (raise e) = raise (invalid_sequence e)

-- The audit before anything was recorded.
abbrev pub no_audit : Audit
no_audit = record {
  truncated_strings = record { occurrences = 0; paths = [] };
  truncated_collections = record { occurrences = 0; paths = [] };
  dropped_keys = record { occurrences = 0; paths = [] };
  credential_secrets_redacted = record { occurrences = 0; paths = [] };
}

module _ (lib : Library) where
  -- `none` where no address is given.
  unfoldable pub normalize_ip : Json → String → Checked (Option String)
  normalize_ip value name =
      if truthy value
      then elim (lib.ip_address (str_of lib.python value)) [
        | none ↦ raise (invalid name)
        | some (text, none) ↦ ok (some text)
        | some (text, some mapped) ↦ ok (some mapped)
      ]
      else ok none

  -- `port` is the value of `int(value)`.
  abbrev pub in_port_range : Option ℤ → String → Checked (Option ℕ)
  in_port_range (some (pos port)) name =
      need (leb 1 port && leb port 65535) (invalid name) >> ok (some port)
  in_port_range _ name = raise (invalid name)

  abbrev pub port_number : Json → String → Checked (Option ℕ)
  port_number (bool b) name = raise (invalid name)
  port_number value name = in_port_range (lib.python.int_of value) name

  unfoldable pub normalize_port : Json → String → Checked (Option ℕ)
  normalize_port value name = if is_given value then port_number value name else ok none

  abbrev pub put_text : String → Option String → Fields → Fields
  put_text key none fs = fs
  put_text key (some s) fs = if s == "" then fs else set_key key (str s) fs

  abbrev pub put_number : String → Option ℕ → Fields → Fields
  put_number key none fs = fs
  put_number key (some n) fs = set_key key (int (pos n)) fs

  unfoldable pub set_ip : String → Fields → Checked Fields
  set_ip key fs = normalize_ip (lookup key fs) key >>= λ ip. ok (put_text key ip fs)

  unfoldable pub set_port : String → Fields → Checked Fields
  set_port key fs = normalize_port (lookup key fs) key >>= λ port. ok (put_number key port fs)

  -- A value that is there is validated and written back.
  abbrev pub set_checked : String → (Json → Checked Json) → Fields → Checked Fields
  set_checked key check fs =
      if is_null (lookup key fs)
      then ok fs
      else (check (lookup key fs) >>= λ v. ok (set_key key v fs))

  unfoldable pub normalize_observed : Fields → Checked Fields
  normalize_observed observed = set_ip "source_ip" observed >>= λ o1.
      set_ip "destination_ip" o1 >>= λ o2. set_port "source_port" o2 >>= λ o3.
      set_port "destination_port" o3 >>= λ o4.
      set_checked "network" (λ v. from_network (validate_network_evidence lib.python v)) o4
      >>= λ o5. set_checked "sensor_sequence" (λ v. from_sequence (validate_event_sequence v)) o5

  -- `str(payload.get(key, default))`
  abbrev pub text_or : String → String → Fields → String
  text_or key default fs = if has_key key fs then str_of lib.python (lookup key fs) else default

  abbrev pub event_id : Json → String → String
  event_id given fresh = if truthy given then str_of lib.python given else fresh

  unfoldable pub utc_iso : String → Json → Checked String
  utc_iso now null = ok now
  utc_iso now (str s) = elim (lib.utc_iso s) [
    | none ↦ raise (invalid "timestamp")
    | some text ↦ ok text
  ]
  utc_iso now _ = raise (invalid "timestamp")

  -- What is left once the parts are bounded and the claims validated; `hypotheses` comes with the
  -- audit at the end.
  unfoldable pub checked_event :
      Environment → Fields → Fields → Fields → Fields → Json × Audit → Checked Event
  checked_event env payload observed enrichment derived hypotheses =
      let severity = lib.python.lower (text_or "severity" "info" payload) in
      let honeypot = slice 96 (text_or "honeypot" "unknown" payload) in
      let event_type = slice 96 (text_or "event_type" "unknown" payload) in
      let id = event_id (lookup "id" payload) env.fresh in
      need (elem severity allowed_severities) (invalid "severity")
      >> (need (is_safe_key honeypot && is_safe_key event_type) (invalid "honeypot or event_type")
          >> (normalize_observed observed >>= λ shown.
              need (lib.is_uuid id) (invalid "id")
              >> (utc_iso env.now (lookup "timestamp" payload) >>= λ timestamp. ok (record {
                id = id;
                timestamp = timestamp;
                honeypot = honeypot;
                event_type = event_type;
                severity = severity;
                observed = shown;
                enrichment = enrichment;
                derived = derived;
                hypotheses = hypotheses.0;
                normalization = normalization_summary hypotheses.1;
              }))))

  unfoldable pub normalize_event : Environment → Json → Checked Event
  normalize_event env (object payload) =
      as_object "observed" (lookup "observed" payload) >>= λ raw_observed.
      as_object "enrichment" (lookup "enrichment" payload) >>= λ raw_enrichment.
      as_object "derived" (lookup "derived" payload) >>= λ raw_derived.
      as_list "hypotheses" (lookup "hypotheses" payload) >>= λ raw_hypotheses.
      let redacted = redact_credentials lib.python lib.sha256 env.secrets raw_observed no_audit in
      bounded_object "observed" redacted.0 redacted.1 >>= λ observed.
      bounded_object "enrichment" raw_enrichment observed.1 >>= λ enrichment.
      bounded_object "derived" raw_derived enrichment.1 >>= λ derived.
      bounded 0 "hypotheses" raw_hypotheses derived.1 >>= λ hypotheses.
      validate_enrichment lib.python lib.numbers enrichment.0 >>= λ checked.
      validate_derived lib.python lib.numbers derived.0
      >> checked_event env payload observed.0 checked derived.0 hypotheses
  normalize_event env _ = raise (must_be_an_object "event")
