-- ===== src/Detection/Rules.antt =====
-- The rules, each as its list of at most one finding: aegis_nexus/detection.py. A finding has the
-- type that the alerts take.
use Prim.Native.String
use aegis_nexus.Common.{
  ℕ, Bool, true, false, not, ◌&&◌, leb, if◌then◌else◌, Option, none, some, List, [], ◌∷◌, keep, any,
  take, map, String, ◌==◌, string_eq, nat_eq,
}
use aegis_nexus.Common.Json.{ℤ, pos, negsuc, Json, null, object, lookup, get_key}
use aegis_nexus.Common.Text.{contains}
use aegis_nexus.Common.Python.{Python, str_of}
use aegis_nexus.Common.Result.{Result, ok}
use aegis_nexus.Alerts.{Finding}
use aegis_nexus.Detection.Config.{Config, ConfigError, enabled}
use aegis_nexus.Detection.Events.{
  has_type, observed, credential, command_text, text_or_empty, source_ip, credential_fingerprint,
  event_id, dedupe_events,
}

abbrev pub detection_schema_version : String
detection_schema_version = "1.1"

pub record Honeytoken : Type 0 where
  pub token_id : String
  pub username : String
  pub password_sha256 : String

-- What a rule says of itself.
pub record About : Type 0 where
  pub id : String
  pub version : String
  pub title : String
  pub severity : String
  pub confidence : ℕ
  pub description : String

-- `if b: findings.append(...)`
abbrev pub guarded : Bool → Result ConfigError (List Finding) → Result ConfigError (List Finding)
guarded true r = r
guarded false r = ok []

infixr 66 ◌<+>◌
abbrev pub ◌<+>◌ : String → String → String
s <+> t = String.◌++◌ s t

-- The ports of a list, without None.
abbrev pub ports_of : List (Option ℕ) → List ℕ
ports_of [] = []
ports_of (none ∷ ps) = ports_of ps
ports_of (some p ∷ ps) = p ∷ ports_of ps

abbrev pub without_empty : List String → List String
without_empty = keep (λ s. not (s == ""))

module _ (py : Python) where
  -- The session is a text or None in a stored event.
  abbrev pub session_of : Json → Option String
  session_of null = none
  session_of v = some (str_of py v)

  abbrev pub text_or_none : String → Option String
  text_or_none s = if s == "" then none else some s

  unfoldable pub refs : List Json → List (Option (String × String))
  unfolding dedupe_events event_id
  refs evidence =
      map (λ e. some ("event", event_id py e))
        (keep (λ e. not (event_id py e == "")) (dedupe_events py evidence))

  unfoldable pub finding : Json → About → List Json → Finding
  unfolding source_ip refs lookup
  finding event about evidence = record {
    rule_id = about.id;
    rule_version = about.version;
    schema_version = detection_schema_version;
    title = about.title;
    description = about.description;
    severity = about.severity;
    confidence = about.confidence;
    source_ip = text_or_none (source_ip py event);
    session_id = session_of (get_key "session_id" event);
    evidence = take 64 (refs evidence);
  }

  unfoldable pub is_download_attempt : Json → Bool
  unfolding command_text contains
  is_download_attempt event =
      any (λ token. contains token (command_text py event))
        ("wget " ∷ "curl " ∷ "powershell " ∷ "invoke-webrequest" ∷ "certutil " ∷ [])

  unfoldable pub is_command_staging : Json → Bool
  unfolding command_text contains
  is_command_staging event =
      any (λ marker. contains marker (command_text py event))
        ("chmod +x" ∷ "base64 -d" ∷ "base64 --decode" ∷ "python -c" ∷ "python3 -c" ∷ "sh -c"
          ∷ "bash -c" ∷ [])

  abbrev pub at_most_2 : Option ℤ → Bool
  at_most_2 none = false
  at_most_2 (some (pos n)) = leb n 2
  at_most_2 (some (negsuc n)) = true

  abbrev pub severity_at_most_2 : Json → Bool
  severity_at_most_2 (object alert) = at_most_2 (py.int_of (lookup "severity" alert))
  severity_at_most_2 _ = false

  unfoldable pub is_high_suricata : Json → Bool
  unfolding observed lookup
  is_high_suricata event =
      has_type "ids.alert" event && severity_at_most_2 (get_key "alert" (observed event))

  -- BUILTIN_RULES
  abbrev pub builtin_rules : List (About × (Json → Bool))
  builtin_rules =
      (
        record {
          id = "download_attempt";
          version = "1.0.0";
          title = "Payload download command observed";
          severity = "medium";
          confidence = 90;
          description =
              "A captured command contains a commonly used file-download utility or primitive.";
        },
        is_download_attempt,
      )
      ∷ (
        record {
          id = "command_staging_detected";
          version = "1.0.0";
          title = "Command staging behavior observed";
          severity = "high";
          confidence = 85;
          description =
              "A captured command contains an execution or decoding primitive commonly used during staging.";
        },
        is_command_staging,
      )
      ∷ (
        record {
          id = "suricata_high_severity";
          version = "1.0.0";
          title = "High-severity Suricata alert observed";
          severity = "high";
          confidence = 95;
          description =
              "Observed Suricata telemetry reports severity 1 or 2. This preserves IDS evidence without adding attribution.";
        },
        is_high_suricata,
      )
      ∷ []

  -- The loop over `self.rules`.
  unfoldable pub rule_findings : Config → List (About × (Json → Bool)) → Json → List Finding
  unfolding enabled finding
  rule_findings config [] event = []
  rule_findings config ((about, matcher) ∷ rules) event =
      let rest = rule_findings config rules event in
      if enabled config about.id && matcher event
      then finding event about (event ∷ []) ∷ rest
      else rest

  abbrev pub is_credential : Json → Bool
  is_credential event = has_type "credential" event

  unfoldable pub username : Json → String
  unfolding credential lookup
  username event = text_or_empty py (get_key "username" (credential event))

  unfoldable pub honeytoken_findings : Config → Option Honeytoken → Json → List Finding
  unfolding enabled username credential_fingerprint finding
  honeytoken_findings config none event = []
  honeytoken_findings config (some token) event =
      if enabled config "honeytoken_reuse"
        && (is_credential event
            && (username event == token.username
                && credential_fingerprint py event == token.password_sha256))
      then finding event
          (record {
            id = "honeytoken_reuse";
            version = "1.0.0";
            title = "Planted honeytoken credential reused";
            severity = "high";
            confidence = 100;
            description =
                "A credential intentionally planted in decoy content was observed in normalized "
                <+> "credential telemetry. This is high-fidelity evidence of honeytoken reuse, not actor attribution.";
          })
          (event ∷ [])
        ∷ []
      else []
