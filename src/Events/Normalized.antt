-- ===== src/Events/Normalized.antt =====
-- What holds of every event that is accepted.
use aegis_nexus.Common.{
  ℕ, Bool, true, false, ◌&&◌, leb, Option, none, some, String, ◌==◌, string_eq, ==_self, ◌≤◌, ◌≡◌,
  refl, sym, ◌∙◌, ◌⊎◌, inl, inr, Bool-cases, arith,
}
use aegis_nexus.Common.Json.{
  ℤ, pos, Json, null, bool, int, str, object, Fields, end, lookup, set_key, is_null, get_key,
  lookup-set_key,
}
use aegis_nexus.Common.Text.{slice}
use aegis_nexus.Common.Result.{ok, >>=_ok, need_ok}
use aegis_nexus.Common.Sets.{elem}
use aegis_nexus.Sequence.Validate.{validate_event_sequence}
use aegis_nexus.Events.{invalid, Audit, is_safe_key, bounded, normalization_summary}
use aegis_nexus.Events.Credentials.{redact_credentials}
use aegis_nexus.Events.Network.{is_given, validate_network_evidence}
use aegis_nexus.Events.Claims.{validate_derived, validate_enrichment}
use aegis_nexus.Events.Normalize.{
  Library, Environment, Event, Checked, allowed_severities, as_object, as_list, bounded_object,
  from_network, from_sequence, no_audit, normalize_ip, in_port_range, port_number, normalize_port,
  put_text, put_number, set_ip, set_port, set_checked, normalize_observed, text_or, event_id,
  utc_iso, checked_event, normalize_event,
}
use aegis_nexus.Events.Credentials.{IsRedacted, redact_credentials-IsRedacted}
use aegis_nexus.Events.Redacted.{bounded-credential}

abbrev pub checked : {A : Type 0} → A → Checked A
checked v = ok v

checked_inj : {A : Type 0} (v w : A) → checked v ≡ ok w → w ≡ v
checked_inj v w h = cc

-- No port is given, or one between 1 and 65535.
abbrev pub IsPort : Json → Type 0
IsPort v = (is_given v ≡ false) ⊎ ((port : ℕ) × (v ≡ int (pos port)) × (1 ≤ port) × (port ≤ 65535))

set_key-other :
    (key other : String) (v : Json) (fs : Fields)
    → (key == other) ≡ false
    → lookup other (set_key key v fs) ≡ lookup other fs
set_key-other key other v fs apart = lookup-set_key key other v fs ∙ rw apart refl

put_text-other :
    (lib : Library) (key other : String) (text : Option String) (fs : Fields)
    → (key == other) ≡ false
    → lookup other (put_text lib key text fs) ≡ lookup other fs
put_text-other lib key other none fs apart = refl
put_text-other lib key other (some s) fs apart = elim (Bool-cases (s == "")) [
  | inl empty ↦ rw empty refl
  | inr text ↦ rw text (set_key-other key other (str s) fs apart)
]

put_number-other :
    (lib : Library) (key other : String) (n : Option ℕ) (fs : Fields)
    → (key == other) ≡ false
    → lookup other (put_number lib key n fs) ≡ lookup other fs
put_number-other lib key other none fs apart = refl
put_number-other lib key other (some n) fs apart = set_key-other key other (int (pos n)) fs apart

set_ip-other :
    (lib : Library) (key other : String) (fs gs : Fields)
    → (key == other) ≡ false
    → set_ip lib key fs ≡ ok gs
    → lookup other gs ≡ lookup other fs
unfolding set_ip
set_ip-other lib key other fs gs apart h =
    let (ip, found, done) = >>=_ok (normalize_ip lib (lookup key fs) key) _ gs h in
    rw (checked_inj (put_text lib key ip fs) gs done) (put_text-other lib key other ip fs apart)

set_port-other :
    (lib : Library) (key other : String) (fs gs : Fields)
    → (key == other) ≡ false
    → set_port lib key fs ≡ ok gs
    → lookup other gs ≡ lookup other fs
unfolding set_port
set_port-other lib key other fs gs apart h =
    let (port, found, done) = >>=_ok (normalize_port lib (lookup key fs) key) _ gs h in
    rw (checked_inj (put_number lib key port fs) gs done)
      (put_number-other lib key other port fs apart)

set_checked-other :
    (lib : Library) (key other : String) (check : Json → Checked Json) (fs gs : Fields)
    → (key == other) ≡ false
    → set_checked lib key check fs ≡ ok gs
    → lookup other gs ≡ lookup other fs
set_checked-other lib key other check fs gs apart h = elim (Bool-cases (is_null (lookup key fs))) [
  | inl missing ↦ rw (checked_inj fs gs (rw missing at h)) refl
  | inr given ↦
      let (v, passed, done) = >>=_ok (check (lookup key fs)) _ gs (rw given at h) in
      rw (checked_inj (set_key key v fs) gs done) (set_key-other key other v fs apart)
]

in_port_range-bounds :
    (lib : Library) (number : Option ℤ) (name : String) (port : Option ℕ)
    → in_port_range lib number name ≡ ok port
    → (n : ℕ) × (port ≡ some n) × (1 ≤ n) × (n ≤ 65535)
in_port_range-bounds lib (some (pos n)) name port h =
    let (within, done) =
      need_ok (leb 1 n && leb n 65535) (invalid name) (checked (some n)) port h in
    (n, checked_inj (some n) port done, (ground arith), (ground arith))
in_port_range-bounds lib _ name port h = absurd (cc)

port_number-bounds :
    (lib : Library) (value : Json) (name : String) (port : Option ℕ)
    → port_number lib value name ≡ ok port
    → (n : ℕ) × (port ≡ some n) × (1 ≤ n) × (n ≤ 65535)
port_number-bounds lib (bool b) name port h = absurd (cc)
port_number-bounds lib value name port h =
    in_port_range-bounds lib (lib.python.int_of value) name port h

set_port-IsPort :
    (lib : Library) (key : String) (fs gs : Fields)
    → set_port lib key fs ≡ ok gs
    → IsPort (lookup key gs)
unfolding set_port normalize_port
set_port-IsPort lib key fs gs h =
    let (port, found, done) = >>=_ok (normalize_port lib (lookup key fs) key) _ gs h in
    elim (Bool-cases (is_given (lookup key fs))) [
      | inr missing ↦
          let nothing : port ≡ none = checked_inj none port (rw missing at found) in
          inl (rw (checked_inj (put_number lib key port fs) gs done, nothing) missing)
      | inl given ↦
          let (n, is_n, low, high) =
            port_number-bounds lib (lookup key fs) key port (rw given at found) in
          inr (
            n,
            rw (checked_inj (put_number lib key port fs) gs done, is_n)
                (lookup-set_key key key (int (pos n)) fs ∙ rw (==_self key) refl),
            low,
            high,
          )
    ]

-- The ports and the credential after the fields of what was observed are normalized.
normalize_observed-lem :
    (lib : Library) (o : Fields) (r : Fields)
    → normalize_observed lib o ≡ ok r
    → IsPort (lookup "source_port" r)
      × IsPort (lookup "destination_port" r)
      × (lookup "credential" r ≡ lookup "credential" o)
unfolding normalize_observed
normalize_observed-lem lib o r h =
    let network = λ (v : Json). from_network (validate_network_evidence lib.python v) in
    let sequence = λ (v : Json). from_sequence (validate_event_sequence v) in
    let (o1, h1, k1) = >>=_ok (set_ip lib "source_ip" o) _ r h in
    let (o2, h2, k2) = >>=_ok (set_ip lib "destination_ip" o1) _ r k1 in
    let (o3, h3, k3) = >>=_ok (set_port lib "source_port" o2) _ r k2 in
    let (o4, h4, k4) = >>=_ok (set_port lib "destination_port" o3) _ r k3 in
    let (o5, h5, k5) = >>=_ok (set_checked lib "network" network o4) _ r k4 in
    let late : (j : String)
        → ("network" == j) ≡ false
        → ("sensor_sequence" == j) ≡ false
        → lookup j r ≡ lookup j o4 =
      λ j n s.
        set_checked-other lib "sensor_sequence" j sequence o5 r s k5
        ∙ set_checked-other lib "network" j network o4 o5 n h5 in
    (
      rw
          (late "source_port" refl refl
            ∙ set_port-other lib "destination_port" "source_port" o3 o4 refl h4)
          (set_port-IsPort lib "source_port" o2 o3 h3),
      rw (late "destination_port" refl refl) (set_port-IsPort lib "destination_port" o3 o4 h4),
      late "credential" refl refl
          ∙ set_port-other lib "destination_port" "credential" o3 o4 refl h4
          ∙ set_port-other lib "source_port" "credential" o2 o3 refl h3
          ∙ set_ip-other lib "destination_ip" "credential" o1 o2 refl h2
          ∙ set_ip-other lib "source_ip" "credential" o o1 refl h1,
    )

and_both : (a b : Bool) → (a && b) ≡ true → (a ≡ true) × (b ≡ true)
and_both a b h = ((ground arith), (ground arith))

pub record IsNormalized (lib : Library) (env : Environment) (e : Event) : Type 0 where
  pub severity : elem e.severity allowed_severities ≡ true
  pub honeypot : is_safe_key e.honeypot ≡ true
  pub event_type : is_safe_key e.event_type ≡ true
  pub id : lib.is_uuid e.id ≡ true
  pub source_port : IsPort (lookup "source_port" e.observed)
  pub destination_port : IsPort (lookup "destination_port" e.observed)
  pub password :
      env.secrets ≡ false → IsRedacted (get_key "password" (lookup "credential" e.observed))

checked_event-IsNormalized :
    (lib : Library) (env : Environment) (payload observed enrichment derived : Fields)
    (hypotheses : Json × Audit) (e : Event)
    → (env.secrets ≡ false → IsRedacted (get_key "password" (lookup "credential" observed)))
    → checked_event lib env payload observed enrichment derived hypotheses ≡ ok e
    → IsNormalized lib env e
unfolding checked_event
checked_event-IsNormalized lib env payload observed enrichment derived hypotheses e redacted h =
    let id = event_id lib (lookup "id" payload) env.fresh in
    let severity = lib.python.lower (text_or lib "severity" "info" payload) in
    let honeypot = slice 96 (text_or lib "honeypot" "unknown" payload) in
    let event_type = slice 96 (text_or lib "event_type" "unknown" payload) in
    let (severe, h1) = need_ok (elem severity allowed_severities) (invalid "severity") _ e h in
    let (safe, h2) =
      need_ok (is_safe_key honeypot && is_safe_key event_type) (invalid "honeypot or event_type") _
        e h1 in
    let (shown, observing, h3) = >>=_ok (normalize_observed lib observed) _ e h2 in
    let (unique, h4) = need_ok (lib.is_uuid id) (invalid "id") _ e h3 in
    let (timestamp, read, h5) = >>=_ok (utc_iso lib env.now (lookup "timestamp" payload)) _ e h4 in
    let (source, destination, credential) = normalize_observed-lem lib observed shown observing in
    let built : Event = record {
      id = id;
      timestamp = timestamp;
      honeypot = slice 96 (text_or lib "honeypot" "unknown" payload);
      event_type = slice 96 (text_or lib "event_type" "unknown" payload);
      severity = lib.python.lower (text_or lib "severity" "info" payload);
      observed = shown;
      enrichment = enrichment;
      derived = derived;
      hypotheses = hypotheses.0;
      normalization = normalization_summary hypotheses.1;
    } in
    rw (checked_inj built e h5) (record {
      severity = severe;
      honeypot = (and_both _ _ safe).0;
      event_type = (and_both _ _ safe).1;
      id = unique;
      source_port = source;
      destination_port = destination;
      password = λ off. rw credential (redacted off);
    })

pair_fst : (v w : Fields) (a b : Audit) → checked {A = Fields × Audit} (v, a) ≡ ok (w, b) → w ≡ v
pair_fst v w a b h = cc

as_object-lookup :
    (name key : String) (v : Json) (fs : Fields)
    → as_object name v ≡ ok fs
    → get_key key v ≡ lookup key fs
unfolding lookup
as_object-lookup name key null fs h = rw (checked_inj end fs h) refl
as_object-lookup name key (object gs) fs h = rw (checked_inj gs fs h) refl
as_object-lookup name key _ fs h = absurd (cc)

-- What is bounded keeps its redacted password.
bounded_object-IsRedacted :
    (fs gs : Fields) (a b : Audit)
    → IsRedacted (get_key "password" (lookup "credential" fs))
    → bounded_object "observed" fs a ≡ ok (gs, b)
    → IsRedacted (get_key "password" (lookup "credential" gs))
bounded_object-IsRedacted fs gs a b redacted h =
    let (r, h1, k1) = >>=_ok (bounded 0 "observed" (object fs) a) _ (gs, b) h in
    let (shown, h2, k2) = >>=_ok (as_object "observed" r.0) _ (gs, b) k1 in
    let same = pair_fst shown gs r.1 b k2 in
    rw (same, sym (as_object-lookup "observed" "credential" r.0 shown h2))
      (bounded-credential fs r.0 0 "observed" a r.1 redacted h1)

-- An event that is accepted has a severity of the list, a honeypot and a type that are safe keys, a
-- UUID, ports that are not given or between 1 and 65535, and, unless the environment asks to store
-- secrets, no password in its credential but the text that stands for one.
pub normalize_event-IsNormalized :
    (lib : Library) (env : Environment) (payload : Json) (e : Event)
    → normalize_event lib env payload ≡ ok e
    → IsNormalized lib env e
unfolding normalize_event
normalize_event-IsNormalized lib env (object payload) e h =
    let (raw, h1, k1) = >>=_ok (as_object "observed" (lookup "observed" payload)) _ e h in
    let (raw_enrichment, h2, k2) =
      >>=_ok (as_object "enrichment" (lookup "enrichment" payload)) _ e k1 in
    let (raw_derived, h3, k3) = >>=_ok (as_object "derived" (lookup "derived" payload)) _ e k2 in
    let (raw_hypotheses, h4, k4) =
      >>=_ok (as_list "hypotheses" (lookup "hypotheses" payload)) _ e k3 in
    let redacted = redact_credentials lib.python lib.sha256 env.secrets raw no_audit in
    let (observed, h5, k5) = >>=_ok (bounded_object "observed" redacted.0 redacted.1) _ e k4 in
    let (enrichment, h6, k6) =
      >>=_ok (bounded_object "enrichment" raw_enrichment observed.1) _ e k5 in
    let (derived, h7, k7) = >>=_ok (bounded_object "derived" raw_derived enrichment.1) _ e k6 in
    let (hypotheses, h8, k8) = >>=_ok (bounded 0 "hypotheses" raw_hypotheses derived.1) _ e k7 in
    let (enriched, h9, k9) =
      >>=_ok (validate_enrichment lib.python lib.numbers enrichment.0) _ e k8 in
    let (done, h10, k10) = >>=_ok (validate_derived lib.python lib.numbers derived.0) _ e k9 in
    checked_event-IsNormalized lib env payload observed.0 enriched derived.0 hypotheses e
      (λ off.
        bounded_object-IsRedacted redacted.0 observed.0 redacted.1 observed.1
          (rw off (
            redact_credentials-IsRedacted lib.python lib.sha256 raw (lookup "credential" raw)
              no_audit refl))
          h5)
      k10
normalize_event-IsNormalized lib env _ e h = absurd (cc)
