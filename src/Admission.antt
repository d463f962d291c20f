-- ===== src/Admission.antt =====
-- Sensor requests: aegis_nexus/security.py (signatures), the authorization of sensors in
-- aegis_nexus/app.py and Store.reserve_sensor_nonce of aegis_nexus/store.py.
use aegis_nexus.Common.{
  ℕ, suc, ◌+◌, ◌-◌, min, max, Bool, true, false, not, ◌&&◌, ◌||◌, ltb, leb, nat_beq, if◌then◌else◌,
  Option, none, some, List, [], ◌∷◌, ◌++◌, keep, any, length, take, String, ◌==◌, string_eq,
}
use aegis_nexus.Common.Json.{ℤ, pos, negsuc}
use aegis_nexus.Common.Dict.{Dict, get}
pub mod Nonces
pub mod Replay
mod Tests

abbrev pub Bytes : Type 0
Bytes = List ℕ

-- What the code calls of hmac, re, ipaddress, `int` and `str.encode`; `none` is an exception.
pub record Library : Type 1 where
  pub Address : Type 0
  pub Network : Type 0
  pub hmac_sha256 : Bytes → Bytes → String
  pub encode_utf8 : String → Bytes
  pub encode_ascii : String → Option Bytes
  pub parse_int : String → Option ℤ
  pub fullmatch : String → String → Bool
  pub compare_digest : String → String → Option Bool
  pub ip_address : String → Option Address
  pub ipv4_mapped : Address → Option Address
  pub ip_network : String → Option Network
  pub address_version : Address → ℕ
  pub network_version : Network → ℕ
  pub contains : Network → Address → Bool

abbrev pub nonce_pattern : String
nonce_pattern = "^[A-Za-z0-9_-]{20,128}$"

-- `max(1, min(seconds, 3600))`; a negative setting acts as 0 does.
abbrev pub skew_window : ℕ → ℕ
skew_window seconds = max 1 (min seconds 3600)

-- `abs(now - sent_at)`
unfoldable pub clock_skew : ℕ → ℤ → ℕ
clock_skew now (pos sent) = (now - sent) + (sent - now)
clock_skew now (negsuc below) = now + suc below

-- A row of sensor_replay_nonces.
pub record Nonce : Type 0 where
  pub sensor_id : String
  pub nonce : String
  pub expires_at : ℕ

abbrev pub new_nonce : String → String → ℕ → Nonce
new_nonce sensor_id nonce expires_at = record {
  sensor_id = sensor_id;
  nonce = nonce;
  expires_at = expires_at;
}

abbrev pub of_sensor : String → Nonce → Bool
of_sensor sensor_id row = row.sensor_id == sensor_id

abbrev pub same_nonce : String → String → Nonce → Bool
same_nonce sensor_id nonce row = row.sensor_id == sensor_id && row.nonce == nonce

-- The rows left by the deletion of expired nonces.
abbrev pub unexpired : ℕ → List Nonce → List Nonce
unexpired now rows = keep (λ row. ltb now row.expires_at) rows

abbrev pub nonce_capacity : ℕ → ℕ
nonce_capacity most = max 1 (min most 100000)

unfoldable pub reserve_sensor_nonce : String → String → ℕ → ℕ → ℕ → List Nonce → List Nonce × Bool
reserve_sensor_nonce sensor_id nonce window_seconds max_nonces now rows =
    let left = unexpired now rows in
    let count = length (keep (of_sensor sensor_id) left) in
    let row = new_nonce sensor_id nonce (now + skew_window window_seconds) in
    if leb (nonce_capacity max_nonces) count
    then (left, false)
    else if any (same_nonce sensor_id nonce) left
    then (left, false)
    else (left ++ row ∷ [], true)

pub data Secret : Type 0 where
  single : String → Secret
  rotation : List String → Secret

abbrev pub max_overlapping_keys : ℕ
max_overlapping_keys = 4

unfoldable pub secret_candidates : Option Secret → List String
secret_candidates none = []
secret_candidates (some (single key)) = if key == "" then [] else key ∷ []
secret_candidates (some (rotation keys)) =
    take max_overlapping_keys (keep (λ key. not (key == "")) keys)

pub data Denial : Type 0 where
  unauthorized : Denial
  sensor_replay_rejected : Denial

pub record Request : Type 0 where
  pub remote_addr : String
  pub key : String
  pub sensor : String
  pub nonce : String
  pub timestamp : String
  pub signature : String
  pub body : Bytes

module _ (lib : Library) where
  unfoldable pub sign_payload : String → String → Bytes → String → Option String
  sign_payload secret timestamp body nonce = elim (lib.encode_ascii timestamp) [
    | none ↦ none
    | some stamp ↦
        if nonce == ""
        then some (lib.hmac_sha256 (lib.encode_utf8 secret) ((stamp ++ 46 ∷ []) ++ body))
        else elim (lib.encode_ascii nonce) [
          | none ↦ none
          | some once ↦ some (
              lib.hmac_sha256 (lib.encode_utf8 secret)
                (((stamp ++ 46 ∷ []) ++ (once ++ 46 ∷ [])) ++ body))
        ]
  ]

  unfoldable pub verify_signed_payload :
      String → String → String → Bytes → ℕ → String → ℕ → Option Bool
  unfolding sign_payload
  verify_signed_payload secret timestamp signature body max_skew nonce now =
      let expected = sign_payload secret timestamp body nonce in
      if secret == "" || (timestamp == "" || signature == "")
      then some false
      else elim (lib.parse_int timestamp) [
        | none ↦ some false
        | some sent_at ↦
            if ltb (skew_window max_skew) (clock_skew now sent_at)
            then some false
            else if not (nonce == "") && not (lib.fullmatch nonce_pattern nonce)
            then some false
            else elim expected [ none ↦ none | some digest ↦ lib.compare_digest digest signature ]
      ]

  pub data Cidr : Type 0 where
    text : String → Cidr
    network : lib.Network → Cidr

  pub record Config : Type 0 where
    pub require_sensor_signature : Bool
    pub sensor_signature_max_skew : ℕ
    pub sensor_replay_max_nonces : ℕ
    pub sensor_keys : Dict String Secret
    pub ingest_api_key : String
    pub ingest_api_key_previous : String
    pub sensor_source_cidrs : Dict String Cidr

  unfoldable pub sensor_secrets : Config → String → List String
  unfolding secret_candidates get
  sensor_secrets config sensor_id = elim config.sensor_keys [
    | [] ↦
        secret_candidates
          (some (rotation (config.ingest_api_key ∷ config.ingest_api_key_previous ∷ [])))
    | k ∷ ks ↦ secret_candidates (get (k ∷ ks) sensor_id)
  ]

  unfoldable pub remote_ip_address : Request → Option lib.Address
  remote_ip_address request = elim (lib.ip_address request.remote_addr) [
    | none ↦ none
    | some remote ↦ elim (lib.ipv4_mapped remote) [ none ↦ some remote | some v4 ↦ some v4 ]
  ]

  abbrev pub network_of : Cidr → Option lib.Network
  network_of (text cidr) = lib.ip_network cidr
  network_of (network n) = some n

  unfoldable pub sensor_source_allowed : Config → String → Request → Bool
  unfolding get remote_ip_address
  sensor_source_allowed config sensor_id request = elim (get config.sensor_source_cidrs sensor_id) [
    | none ↦ true
    | some cidr ↦ elim (network_of cidr) [
      | none ↦ false
      | some allowed ↦ elim (remote_ip_address request) [
        | none ↦ false
        | some remote ↦
            nat_beq (lib.address_version remote) (lib.network_version allowed)
            && lib.contains allowed remote
      ]
    ]
  ]

  -- The accepted keys that the supplied one equals; every one is compared.
  unfoldable pub matching : List String → String → Option (List String)
  matching [] supplied = some []
  matching (candidate ∷ rest) supplied =
      let others = matching rest supplied in
      elim (lib.compare_digest candidate supplied) [
        | none ↦ none
        | some same ↦ elim others [
          | none ↦ none
          | some keys ↦ some (if same then candidate ∷ keys else keys)
        ]
      ]

  -- The part of the authorization that follows a matching key. `now` is the clock of the signature
  -- check and `later` that of the reservation. Outside `none` is an exception, inside a passed check.
  unfoldable pub authorize_signature :
      Config → String → String → Request → ℕ → ℕ → List Nonce → Option (Option Denial) × List Nonce
  unfolding verify_signed_payload reserve_sensor_nonce
  authorize_signature config expected sensor_id request now later rows =
      let reserved =
        reserve_sensor_nonce sensor_id request.nonce config.sensor_signature_max_skew
          config.sensor_replay_max_nonces later rows in
      if request.nonce == ""
      then (some (some unauthorized), rows)
      else elim (verify_signed_payload expected request.timestamp request.signature request.body
          config.sensor_signature_max_skew request.nonce now) [
            | none ↦ (none, rows)
            | some false ↦ (some (some unauthorized), rows)
            | some true ↦
                (some (if reserved.1 then none else some sensor_replay_rejected), reserved.0)
          ]

  unfoldable pub sensor_authorization_error :
      Config → String → Request → ℕ → ℕ → List Nonce → Option (Option Denial) × List Nonce
  unfolding sensor_secrets matching sensor_source_allowed authorize_signature
  sensor_authorization_error config sensor_id request now later rows =
      if not (request.sensor == "") && not (request.sensor == sensor_id)
      then (some (some unauthorized), rows)
      else if not (sensor_source_allowed config sensor_id request)
      then (some (some unauthorized), rows)
      else elim (matching (sensor_secrets config sensor_id) request.key) [
        | none ↦ (none, rows)
        | some [] ↦ (some (some unauthorized), rows)
        | some (expected ∷ others) ↦
            if config.require_sensor_signature
            then authorize_signature config expected sensor_id request now later rows
            else (some none, rows)
      ]
