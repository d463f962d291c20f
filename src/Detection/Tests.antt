-- ===== src/Detection/Tests.antt =====
-- Detection on concrete events, and instances of the theorems.
use aegis_nexus.Common.{
  first, true, if◌then◌else◌, none, some, List, [], ◌∷◌, ◌++◌, map, String, ◌==◌, string_eq, ◌≡◌,
  refl,
}
use aegis_nexus.Common.Dict.{get, put}
use aegis_nexus.Common.Json.{pos, Json, int, str, object, Fields, end, field, lookup, has_key}
use aegis_nexus.Common.Text.{slice, contains}
use aegis_nexus.Common.Python.{Python}
use aegis_nexus.Common.Result.{ok, raise}
use aegis_nexus.Common.Order.{order_by, insert_by}
use aegis_nexus.Common.Sets.{distinct}
use aegis_nexus.Common.Rows
use aegis_nexus.Alerts.{Finding}
use aegis_nexus.Suppression
use aegis_nexus.Detection.Config.{
  Config, rule_defaults, within, check_threshold, only_keys, set_thresholds, set_enabled,
  override_thresholds, override_rule, override_rules, of_payload, enabled, threshold, public,
  detection_threshold_out_of_range,
}
use aegis_nexus.Detection.Limits.{IsValid, rule_defaults-IsValid, of_payload-IsValid}
use aegis_nexus.Detection.Public.{of_payload-public}
use aegis_nexus.Detection.Events.{
  observed, credential, command_text, source_ip, credential_fingerprint, path, payload_text,
  destination_port, service, event_id, dedupe_from, dedupe_events, in_window, window,
}
use aegis_nexus.Detection.Windows.{chosen, IsInWindow, window_exact}
use aegis_nexus.Detection.Rules.{
  refs, finding, is_download_attempt, is_command_staging, is_high_suricata, rule_findings, username,
  honeytoken_findings,
}
use aegis_nexus.Detection.Context.{
  multiple_auth_failures, credential_bruteforce, credential_reuse, web_scanning,
  path_traversal_sequence, rapid_port_sequence, recon_burst,
}
use aegis_nexus.Detection.Engine.{contextual_findings, evaluate}
use aegis_nexus.Detection.Answers.{IsAnswer, all_rules, evaluate-IsAnswer}
use aegis_nexus.Detection.Backtest.{Report, replay, run}
use aegis_nexus.Detection.Replayed.{IsReport, run-IsReport}

program : Unit {0}
unfolding get put lookup has_key slice contains order_by insert_by distinct within check_threshold
    only_keys set_thresholds set_enabled override_thresholds override_rule override_rules of_payload
    enabled threshold public observed credential command_text source_ip credential_fingerprint path
    payload_text destination_port service event_id dedupe_from dedupe_events in_window window refs
    finding is_download_attempt is_command_staging is_high_suricata rule_findings username
    honeytoken_findings multiple_auth_failures credential_bruteforce credential_reuse web_scanning
    path_traversal_sequence rapid_port_sequence recon_burst contextual_findings evaluate
program = tt

abbrev plain : Python
plain = record {
  repr_of = λ v. "";
  int_of = λ v. none;
  strip = λ s. s;
  lower = λ s. s;
  casefold = λ s. s;
  timestamp = λ s. some (if s == "t0" then 0 else if s == "t1" then 60000000 else 7200000000);
  decimal = λ n. "n";
}

abbrev override : Fields → Json
override rules = object (field "rules" (object rules) end)

abbrev thresholds : Fields → Json
thresholds given = object (field "thresholds" (object given) end)

abbrev two_attempts : Json
two_attempts =
    override (field "multiple_auth_failures" (thresholds (field "attempts" (int (pos 2)) end)) end)

abbrev changed : Config
changed =
    put rule_defaults "multiple_auth_failures"
      (record { enabled = true; thresholds = ("attempts", 2) ∷ ("window_seconds", 300) ∷ [] })

accepted : of_payload two_attempts ≡ ok changed
unfolding program
accepted = refl

-- One attempt is below the limit.
refused :
    of_payload (
      override
        (field "multiple_auth_failures" (thresholds (field "attempts" (int (pos 1)) end)) end))
    ≡ raise (detection_threshold_out_of_range "multiple_auth_failures" "attempts")
unfolding program
refused = refl

-- The rules that suppressions know are those of the defaults.
same_rules : map (λ r. r.0) rule_defaults ≡ Suppression.rules
same_rules = refl

of_payload-IsValid_example : IsValid changed
of_payload-IsValid_example = of_payload-IsValid two_attempts changed accepted

of_payload-public_example : of_payload (public rule_defaults) ≡ ok rule_defaults
of_payload-public_example = of_payload-public rule_defaults rule_defaults-IsValid

abbrev login : String → String → Json
login id time = object (
    field "id" (str id) (
      field "timestamp" (str time) (
        field "event_type" (str "credential")
          (field "source_ip" (str "10.0.0.9") (field "observed" (object end) end)))))

-- Of two earlier logins one is too old, and one is given twice.
abbrev history : List Json
history = login "e0" "t0" ∷ login "e0" "t0" ∷ []

window_of_two :
    window plain (login "e1" "t1") history 300 true ≡ login "e0" "t0" ∷ login "e1" "t1" ∷ []
unfolding program
window_of_two = refl

old_event_left_out : window plain (login "e2" "later") history 300 true ≡ login "e2" "later" ∷ []
unfolding program
old_event_left_out = refl

abbrev window_of_e1 : List Json
window_of_e1 = window plain (login "e1" "t1") history 300 true

window_exact_example :
    ((first (λ e. event_id plain e == "e0") (history ++ login "e1" "t1" ∷ []) ≡ none)
      → Rows.count (chosen plain "e0" (λ e. true)) window_of_e1 ≡ 0)
    × ((e : Json)
        → first (λ x. event_id plain x == "e0") (history ++ login "e1" "t1" ∷ []) ≡ some e
        → (IsInWindow plain (login "e1" "t1") 60000000 300 true e
            → Rows.count (chosen plain "e0" (λ e. true)) window_of_e1 ≡ (if true then 1 else 0))
          × (¬ IsInWindow plain (login "e1" "t1") 60000000 300 true e
              → Rows.count (chosen plain "e0" (λ e. true)) window_of_e1 ≡ 0))
unfolding program
window_exact_example =
    window_exact plain (login "e1" "t1") history 300 60000000 true "e0" (λ e. true) (λ h. cc) refl

evaluate-IsAnswer_example :
    (fs : List Finding) × (evaluate plain rule_defaults none (login "e1" "t1") history ≡ ok fs)
    × IsAnswer rule_defaults all_rules fs
evaluate-IsAnswer_example =
    evaluate-IsAnswer plain rule_defaults rule_defaults-IsValid (login "e1" "t1") none history

-- A download, and an event that a replay under a bound of one leaves out.
abbrev recorded : List Json
recorded =
    object
      (field "id" (str "e9") (field "observed" (object (field "command" (str "wget x") end)) end))
    ∷ object end
    ∷ []

replayed_hit :
    elim (run plain rule_defaults none none (pos 1) recorded) [
      | ok r ↦ map (λ h. h.found.rule_id) r.hits
      | raise e ↦ []
    ]
    ≡ "download_attempt" ∷ []
unfolding program run replay
replayed_hit = refl

run-IsReport_example :
    (r : Report) × (run plain rule_defaults none none (pos 1) recorded ≡ ok r)
    × IsReport plain rule_defaults none none (pos 1) recorded r
run-IsReport_example =
    run-IsReport plain rule_defaults rule_defaults-IsValid none none (pos 1) recorded
