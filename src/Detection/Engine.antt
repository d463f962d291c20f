-- ===== src/Detection/Engine.antt =====
-- DetectionEngine.evaluate of aegis_nexus/detection.py.
use aegis_nexus.Common.{true, if◌then◌else◌, Option, List, [], ◌++◌, ◌==◌, string_eq}
use aegis_nexus.Common.Json.{Json}
use aegis_nexus.Common.Python.{Python}
use aegis_nexus.Common.Result.{Result, ok, ◌>>=◌}
use aegis_nexus.Alerts.{Finding}
use aegis_nexus.Detection.Config.{Config, ConfigError, threshold}
use aegis_nexus.Detection.Events.{source_ip, window}
use aegis_nexus.Detection.Rules.{Honeytoken, builtin_rules, rule_findings, honeytoken_findings}
use aegis_nexus.Detection.Context.{
  multiple_auth_failures, credential_bruteforce, credential_reuse, web_scanning,
  path_traversal_sequence, rapid_port_sequence, recon_burst,
}

module _ (py : Python) where
  unfoldable pub contextual_findings : Config → Json → List Json → Result ConfigError (List Finding)
  contextual_findings config event context = if source_ip py event == "" then ok [] else (do
    auth_seconds ← threshold config "multiple_auth_failures" "window_seconds"
    brute_seconds ← threshold config "credential_bruteforce" "window_seconds"
    web_seconds ← threshold config "web_scanning" "window_seconds"
    traversal_seconds ← threshold config "path_traversal_sequence" "window_seconds"
    rapid_seconds ← threshold config "rapid_port_sequence" "window_seconds"
    recon_seconds ← threshold config "recon_burst" "window_seconds"
    auth ← multiple_auth_failures py config event (window py event context auth_seconds true)
    brute ← credential_bruteforce py config event (window py event context brute_seconds true)
    reuse ← credential_reuse py config event context
    web ← web_scanning py config event (window py event context web_seconds true)
    traversal ←
        path_traversal_sequence py config event (window py event context traversal_seconds true)
    rapid ← rapid_port_sequence py config event (window py event context rapid_seconds true)
    recon ← recon_burst py config event (window py event context recon_seconds true)
    ok (auth ++ brute ++ reuse ++ web ++ traversal ++ rapid ++ recon))

  unfoldable pub evaluate :
      Config → Option Honeytoken → Json → List Json → Result ConfigError (List Finding)
  evaluate config token event context = do
    contextual ← contextual_findings config event context
    ok (
        honeytoken_findings py config token event
        ++ rule_findings py config (builtin_rules py) event
        ++ contextual)
