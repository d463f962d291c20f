-- ===== src/Detection/Config.antt =====
-- The configuration of the rules, aegis_nexus/detection_config.py.
use aegis_nexus.Common.{
  ℕ, Bool, true, false, ◌&&◌, ◌||◌, ltb, leb, if◌then◌else◌, Option, none, some, [], ◌∷◌, String,
  ◌==◌, string_eq,
}
use aegis_nexus.Common.Dict.{Dict, get, put}
use aegis_nexus.Common.Json.{
  ℤ, pos, negsuc, Json, bool, int, object, Fields, end, field, lookup, has_key,
}
use aegis_nexus.Common.Result.{Result, ok, raise, ◌>>=◌}

pub record Rule : Type 0 where
  pub enabled : Bool
  pub thresholds : Dict String ℕ

abbrev pub Config : Type 0
Config = Dict String Rule

abbrev pub rule : Dict String ℕ → Rule
rule thresholds = record { enabled = true; thresholds = thresholds }

abbrev pub rule_defaults : Config
rule_defaults =
    ("download_attempt", rule [])
    ∷ ("command_staging_detected", rule [])
    ∷ ("suricata_high_severity", rule [])
    ∷ ("honeytoken_reuse", rule [])
    ∷ ("multiple_auth_failures", rule (("attempts", 5) ∷ ("window_seconds", 300) ∷ []))
    ∷ (
      "credential_bruteforce",
      rule (("attempts", 10) ∷ ("usernames", 5) ∷ ("window_seconds", 600) ∷ []),
    )
    ∷ ("credential_reuse", rule (("events", 2) ∷ ("sources", 2) ∷ ("window_seconds", 86400) ∷ []))
    ∷ ("web_scanning", rule (("paths", 8) ∷ ("window_seconds", 300) ∷ []))
    ∷ ("path_traversal_sequence", rule (("events", 3) ∷ ("window_seconds", 300) ∷ []))
    ∷ ("rapid_port_sequence", rule (("ports", 5) ∷ ("window_seconds", 120) ∷ []))
    ∷ (
      "recon_burst",
      rule (("events", 15) ∷ ("services", 3) ∷ ("ports", 5) ∷ ("window_seconds", 300) ∷ []),
    )
    ∷ []

abbrev pub threshold_limits : Dict String (ℕ × ℕ)
threshold_limits =
    ("attempts", (2, 10000))
    ∷ ("usernames", (2, 10000))
    ∷ ("events", (2, 10000))
    ∷ ("sources", (2, 10000))
    ∷ ("paths", (2, 10000))
    ∷ ("ports", (2, 65535))
    ∷ ("services", (2, 10000))
    ∷ ("window_seconds", (30, 86400))
    ∷ []

-- The exceptions of `from_json`; `key_error` is a threshold without limits.
pub data ConfigError : Type 0 where
  detection_config_too_large : ConfigError
  invalid_detection_config_json : ConfigError
  detection_config_requires_rules_object : ConfigError
  detection_config_rules_must_be_object : ConfigError
  unknown_detection_rule : String → ConfigError
  invalid_detection_rule_config : String → ConfigError
  invalid_detection_rule_enabled : String → ConfigError
  invalid_detection_thresholds : String → ConfigError
  unknown_detection_threshold : String → ConfigError
  invalid_detection_threshold : String → String → ConfigError
  detection_threshold_out_of_range : String → String → ConfigError
  key_error : String → ConfigError
  missing_detection_threshold : String → String → ConfigError

-- `not (set(fs) - keys)`
unfoldable pub only_keys : (String → Bool) → Fields → Bool
only_keys allowed end = true
only_keys allowed (field k v fs) = allowed k && only_keys allowed fs

-- `minimum <= value <= maximum`
unfoldable pub within : ℕ × ℕ → ℤ → Option ℕ
within limits (pos n) = if leb limits.0 n && leb n limits.1 then some n else none
within limits (negsuc n) = none

unfoldable pub check_threshold : String → String → Json → Result ConfigError ℕ
unfolding within get
check_threshold rule_id key (int value) = elim (get threshold_limits key) [
  | none ↦ raise (key_error key)
  | some limits ↦ elim (within limits value) [
    | none ↦ raise (detection_threshold_out_of_range rule_id key)
    | some n ↦ ok n
  ]
]
check_threshold rule_id key _ = raise (invalid_detection_threshold rule_id key)

-- The loop over the overriding thresholds.
unfoldable pub set_thresholds : String → Fields → Dict String ℕ → Result ConfigError (Dict String ℕ)
unfolding check_threshold put
set_thresholds rule_id end thresholds = ok thresholds
set_thresholds rule_id (field key value rest) thresholds =
    check_threshold rule_id key value >>= λ n. set_thresholds rule_id rest (put thresholds key n)

abbrev pub in_dict {ℓ} : {V : Type ℓ} → Dict String V → String → Bool
in_dict d key = elim (get d key) [ none ↦ false | some v ↦ true ]

abbrev pub in_override : String → Bool
in_override key = key == "enabled" || key == "thresholds"

unfoldable pub set_enabled : String → Fields → Rule → Result ConfigError Rule
unfolding lookup has_key
set_enabled rule_id override r =
    if has_key "enabled" override
    then elim (lookup "enabled" override) [
      | bool b ↦ ok (record r { enabled = b })
      | _ ↦ raise (invalid_detection_rule_enabled rule_id)
    ]
    else ok r

unfoldable pub override_thresholds : String → Fields → Rule → Result ConfigError Rule
unfolding lookup has_key only_keys set_thresholds get
override_thresholds rule_id override r =
    if has_key "thresholds" override
    then elim (lookup "thresholds" override) [
      | object given ↦
          if only_keys (in_dict r.thresholds) given
          then (set_thresholds rule_id given r.thresholds >>= λ thresholds.
              ok (record r { thresholds = thresholds }))
          else raise (unknown_detection_threshold rule_id)
      | _ ↦ raise (invalid_detection_thresholds rule_id)
    ]
    else ok r

unfoldable pub override_rule : String → Json → Rule → Result ConfigError Rule
unfolding only_keys set_enabled override_thresholds
override_rule rule_id (object override) r =
    if only_keys in_override override
    then set_enabled rule_id override r >>= override_thresholds rule_id override
    else raise (invalid_detection_rule_config rule_id)
override_rule rule_id _ r = raise (invalid_detection_rule_config rule_id)

-- The loop over the overriding rules.
unfoldable pub override_rules : Fields → Config → Result ConfigError Config
unfolding override_rule get put
override_rules end config = ok config
override_rules (field rule_id override rest) config = elim (get config rule_id) [
  | none ↦ raise (unknown_detection_rule rule_id)
  | some r ↦ override_rule rule_id override r >>= λ changed.
      override_rules rest (put config rule_id changed)
]

abbrev pub is_rules : String → Bool
is_rules key = key == "rules"

-- What follows `json.loads`.
unfoldable pub of_payload : Json → Result ConfigError Config
unfolding only_keys lookup override_rules
of_payload (object payload) =
    if only_keys is_rules payload
    then elim (lookup "rules" payload) [
      | object overrides ↦ override_rules overrides rule_defaults
      | _ ↦ raise detection_config_rules_must_be_object
    ]
    else raise detection_config_requires_rules_object
of_payload _ = raise detection_config_requires_rules_object

-- `bytes_of` is the length in UTF-8, `strip` Python's, and `loads` json.loads.
unfoldable pub from_json :
    (String → String)
    → (String → ℕ)
    → (String → Option Json)
    → Option String
    → Result ConfigError Config
unfolding of_payload
from_json strip bytes_of loads none = ok rule_defaults
from_json strip bytes_of loads (some raw) =
    if strip raw == ""
    then ok rule_defaults
    else if ltb 65536 (bytes_of raw)
    then raise detection_config_too_large
    else elim (loads raw) [
      | none ↦ raise invalid_detection_config_json
      | some payload ↦ of_payload payload
    ]

unfoldable pub enabled : Config → String → Bool
unfolding get
enabled config rule_id = elim (get config rule_id) [ none ↦ false | some r ↦ r.enabled ]

unfoldable pub threshold : Config → String → String → Result ConfigError ℕ
unfolding get
threshold config rule_id key = elim (get config rule_id) [
  | none ↦ raise (missing_detection_threshold rule_id key)
  | some r ↦ elim (get r.thresholds key) [
    | none ↦ raise (missing_detection_threshold rule_id key)
    | some n ↦ ok n
  ]
]

abbrev pub fields_of {ℓ} : {V : Type ℓ} → (V → Json) → Dict String V → Fields
fields_of f [] = end
fields_of f ((k, v) ∷ d) = field k (f v) (fields_of f d)

abbrev pub public_rule : Rule → Json
public_rule r = object (
    field "enabled" (bool r.enabled)
      (field "thresholds" (object (fields_of (λ n. int (pos n)) r.thresholds)) end))

unfoldable pub public : Config → Json
public config = object (field "rules" (object (fields_of public_rule config)) end)
