-- ===== src/Admission/Tests.antt =====
-- Sensor requests on a concrete library of functions, and instances of the theorems.
use aegis_nexus.Common.{
  ℕ, ◌≤◌, true, none, some, [], ◌∷◌, ◌≡◌, ◌≢◌, refl, arith, any, String, ◌==◌, string_eq,
  if◌then◌else◌, ◌⊎◌,
}
use aegis_nexus.Common.Dict.{get}
use aegis_nexus.Common.Json.{pos}
use aegis_nexus.Admission.{
  Library, Config, Request, single, skew_window, clock_skew, nonce_capacity, verify_signed_payload,
  sign_payload, reserve_sensor_nonce, sensor_secrets, sensor_source_allowed, matching,
  authorize_signature, sensor_authorization_error, secret_candidates, remote_ip_address,
  sensor_replay_rejected,
}
use aegis_nexus.Admission.Nonces.{of}
use aegis_nexus.Admission.Replay.{
  Arrival, authorize, serve, IsSigned, authorize-IsSigned, replay_window, replay_refused,
  serve_capacity,
}

program : Unit {0}
unfolding clock_skew reserve_sensor_nonce secret_candidates get sign_payload verify_signed_payload
    sensor_secrets remote_ip_address sensor_source_allowed matching authorize_signature
    sensor_authorization_error serve
program = tt

-- Every text encodes as one byte, and every digest is the same text.
abbrev toy : Library
toy = record {
  Address = Unit;
  Network = Unit;
  hmac_sha256 = λ key message. "digest";
  encode_utf8 = λ text. 1 ∷ [];
  encode_ascii = λ text. some (1 ∷ []);
  parse_int = λ text. if text == "1000" then some (pos 1000) else none;
  fullmatch = λ pattern text. true;
  compare_digest = λ a b. some (a == b);
  ip_address = λ text. some tt;
  ipv4_mapped = λ address. none;
  ip_network = λ text. some tt;
  address_version = λ address. 4;
  network_version = λ network. 4;
  contains = λ network address. true;
}

abbrev config : Config toy
config = record {
  require_sensor_signature = true;
  sensor_signature_max_skew = 300;
  sensor_replay_max_nonces = 4096;
  sensor_keys = ("ssh", single "key") ∷ [];
  ingest_api_key = "";
  ingest_api_key_previous = "";
  sensor_source_cidrs = [];
}

abbrev request : Request
request = record {
  remote_addr = "10.0.0.2";
  key = "key";
  sensor = "ssh";
  nonce = "n-0123456789-0123456789";
  timestamp = "1000";
  signature = "digest";
  body = 7 ∷ [];
}

abbrev at : ℕ → Arrival
at now = record { sensor_id = "ssh"; request = request; verified_at = now; reserved_at = now }

-- Signed at 1000 and received at 1000: a copy within the window is refused.
copy_refused :
    (authorize toy config (at 1299) (serve toy config (at 1000 ∷ []) [])).0
    ≡ some (some sensor_replay_rejected)
unfolding program
copy_refused = refl

-- A copy at the end of the window finds the nonce deleted and the timestamp still fresh.
copy_accepted : (authorize toy config (at 1300) (serve toy config (at 1000 ∷ []) [])).0 ≡ some none
unfolding program
copy_accepted = refl

-- The same for a sensor whose clock is ahead, for as long as it is ahead.
early_copy_accepted :
    (authorize toy config (at 1100) (serve toy config (at 800 ∷ []) [])).0 ≡ some none
unfolding program
early_copy_accepted = refl

authorize-IsSigned_example :
    (key : String) × (any (λ c. c == key) (sensor_secrets toy config "ssh") ≡ true)
    × (toy.compare_digest key "key" ≡ some true)
    × (sensor_source_allowed toy config "ssh" request ≡ true)
    × ((request.sensor ≡ "") ⊎ (request.sensor ≡ "ssh"))
    × IsSigned toy config key request 1000
    × ((reserve_sensor_nonce "ssh" request.nonce 300 4096 1000 []).1 ≡ true)
unfolding program
authorize-IsSigned_example = authorize-IsSigned toy config (at 1000) [] refl refl

replay_window_example : (1100 ≤ 1100) × (clock_skew 1100 (pos 1000) ≤ skew_window 300)
unfolding program
replay_window_example =
    replay_window toy config (at 800) (at 1100) (at 900 ∷ []) [] (pos 1000) refl refl refl refl
      (omega arith, tt) refl refl

replay_refused_example :
    (authorize toy config
      (at 1250)
      (serve toy config (at 1200 ∷ []) (authorize toy config (at 1010) []).1)).0
    ≢ some none
unfolding program
replay_refused_example =
    replay_refused toy config (at 1010) (at 1250) (at 1200 ∷ []) [] 1000 5 refl refl refl refl
      (omega arith, tt) (omega arith) (omega arith) refl

serve_capacity_example :
    of "ssh" (serve toy config (at 1000 ∷ at 1001 ∷ []) []) ≤ nonce_capacity 4096
serve_capacity_example = serve_capacity toy config "ssh" (at 1000 ∷ at 1001 ∷ []) [] (omega arith)
