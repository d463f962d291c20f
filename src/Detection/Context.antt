-- ===== src/Detection/Context.antt =====
-- The rules that read the window of an event: DetectionEngine._contextual_findings of
-- aegis_nexus/detection.py, one function for each.
use aegis_nexus.Common.{
  Bool, false, not, ◌&&◌, ◌||◌, leb, List, [], ◌∷◌, keep, any, map, length, ◌==◌, string_eq, nat_eq,
}
use aegis_nexus.Common.Json.{Json, lookup}
use aegis_nexus.Common.Text.{contains}
use aegis_nexus.Common.Python.{Python}
use aegis_nexus.Common.Result.{Result, ok, ◌>>=◌}
use aegis_nexus.Common.Sets.{distinct}
use aegis_nexus.Alerts.{Finding}
use aegis_nexus.Detection.Config.{Config, ConfigError, enabled, threshold}
use aegis_nexus.Detection.Events.{
  has_type, source_ip, credential_fingerprint, path, payload_text, destination_port, service,
  window,
}
use aegis_nexus.Detection.Rules.{
  guarded, ◌<+>◌, ports_of, without_empty, finding, is_credential, username,
}

module _ (py : Python) where
  unfoldable pub multiple_auth_failures :
      Config → Json → List Json → Result ConfigError (List Finding)
  unfolding enabled threshold finding lookup
  multiple_auth_failures config event auth_window =
      let auth_events = keep (is_credential py) auth_window in
      guarded (enabled config "multiple_auth_failures" && is_credential py event) (do
        attempts ← threshold config "multiple_auth_failures" "attempts"
        guarded (leb attempts (length auth_events)) (do
          seconds ← threshold config "multiple_auth_failures" "window_seconds"
          ok (
              finding py event
                (record {
                  id = "multiple_auth_failures";
                  version = "1.0.0";
                  title = "Repeated authentication failures observed";
                  severity = "medium";
                  confidence = 95;
                  description =
                      py.decimal attempts
                      <+> " or more credential attempts "
                      <+> "from the same source were observed within "
                      <+> py.decimal seconds
                      <+> " seconds.";
                })
                auth_events
              ∷ [])))

  unfoldable pub credential_bruteforce :
      Config → Json → List Json → Result ConfigError (List Finding)
  unfolding enabled threshold finding username distinct
  credential_bruteforce config event brute_window =
      let brute_events = keep (is_credential py) brute_window in
      let usernames = distinct (without_empty (map (username py) brute_events)) in
      guarded (enabled config "credential_bruteforce" && is_credential py event) (do
        attempts ← threshold config "credential_bruteforce" "attempts"
        guarded (leb attempts (length brute_events)) (do
          names ← threshold config "credential_bruteforce" "usernames"
          guarded (leb names (length usernames)) (do
            seconds ← threshold config "credential_bruteforce" "window_seconds"
            ok (
                finding py event
                  (record {
                    id = "credential_bruteforce";
                    version = "1.0.0";
                    title = "Credential brute-force pattern observed";
                    severity = "high";
                    confidence = 90;
                    description =
                        py.decimal attempts
                        <+> " or more credential attempts "
                        <+> "covering at least "
                        <+> py.decimal names
                        <+> " usernames "
                        <+> "were observed from the same source within "
                        <+> py.decimal seconds
                        <+> " seconds.";
                  })
                  brute_events
                ∷ []))))

  unfoldable pub credential_reuse : Config → Json → List Json → Result ConfigError (List Finding)
  unfolding enabled threshold finding credential_fingerprint source_ip window distinct
  credential_reuse config event context =
      let fingerprint = credential_fingerprint py event in
      guarded (is_credential py event && not (fingerprint == "")) (do
        seconds ← threshold config "credential_reuse" "window_seconds"
        let reused =
            keep (λ item. credential_fingerprint py item == fingerprint)
              (window py event context seconds false)
        let reuse_sources = distinct (without_empty (map (source_ip py) reused))
        guarded (enabled config "credential_reuse") (do
          events ← threshold config "credential_reuse" "events"
          guarded (leb events (length reused)) (do
            sources ← threshold config "credential_reuse" "sources"
            guarded (leb sources (length reuse_sources)) (
                ok (
                  finding py event
                    (record {
                      id = "credential_reuse";
                      version = "1.0.0";
                      title = "Credential secret fingerprint reused across sources";
                      severity = "medium";
                      confidence = 90;
                      description =
                          "The same complete credential-secret fingerprint was observed in at least "
                          <+> py.decimal events
                          <+> " events from at least "
                          <+> py.decimal sources
                          <+> " source IPs within "
                          <+> py.decimal seconds
                          <+> " seconds. "
                          <+> "This is evidence of reuse, not actor attribution.";
                    })
                    reused
                  ∷ [])))))

  abbrev pub is_web : Json → Bool
  is_web item =
      (has_type "web.request" item || (has_type "web.payload" item || has_type "credential" item))
      && (service py item == "http" || service py item == "https")

  unfoldable pub web_scanning : Config → Json → List Json → Result ConfigError (List Finding)
  unfolding enabled threshold finding service path distinct lookup
  web_scanning config event web_window =
      let web_events = keep is_web web_window in
      let paths = distinct (without_empty (map (path py) web_events)) in
      guarded (enabled config "web_scanning" && is_web event) (do
        most ← threshold config "web_scanning" "paths"
        guarded (leb most (length paths)) (do
          seconds ← threshold config "web_scanning" "window_seconds"
          ok (
              finding py event
                (record {
                  id = "web_scanning";
                  version = "1.0.0";
                  title = "Web path scanning pattern observed";
                  severity = "medium";
                  confidence = 85;
                  description =
                      py.decimal most
                      <+> " or more distinct HTTP paths "
                      <+> "were observed from the same source within "
                      <+> py.decimal seconds
                      <+> " seconds.";
                })
                web_events
              ∷ [])))

  abbrev pub traverses : Json → Bool
  traverses item =
      any (λ marker. contains marker (payload_text py item))
        ("../" ∷ "..\\" ∷ "%2e%2e%2f" ∷ "%2e%2e%5c" ∷ [])

  unfoldable pub path_traversal_sequence :
      Config → Json → List Json → Result ConfigError (List Finding)
  unfolding enabled threshold finding payload_text contains
  path_traversal_sequence config event traversal_window =
      let traversal_events = keep traverses traversal_window in
      guarded (enabled config "path_traversal_sequence" && traverses event) (do
        events ← threshold config "path_traversal_sequence" "events"
        guarded (leb events (length traversal_events)) (do
          seconds ← threshold config "path_traversal_sequence" "window_seconds"
          ok (
              finding py event
                (record {
                  id = "path_traversal_sequence";
                  version = "1.0.0";
                  title = "Repeated path traversal sequence observed";
                  severity = "high";
                  confidence = 95;
                  description =
                      py.decimal events
                      <+> " or more requests or payloads "
                      <+> "containing path-traversal evidence were observed from the same source within "
                      <+> py.decimal seconds
                      <+> " seconds.";
                })
                traversal_events
              ∷ [])))

  unfoldable pub rapid_port_sequence : Config → Json → List Json → Result ConfigError (List Finding)
  unfolding enabled threshold finding destination_port distinct
  rapid_port_sequence config event rapid_window =
      let ports = distinct (ports_of (map (destination_port py) rapid_window)) in
      guarded (enabled config "rapid_port_sequence") (do
        most ← threshold config "rapid_port_sequence" "ports"
        guarded (leb most (length ports)) (do
          seconds ← threshold config "rapid_port_sequence" "window_seconds"
          ok (
              finding py event
                (record {
                  id = "rapid_port_sequence";
                  version = "1.0.0";
                  title = "Rapid multi-port sequence observed";
                  severity = "medium";
                  confidence = 90;
                  description =
                      py.decimal most
                      <+> " or more distinct destination ports "
                      <+> "were observed from the same source within "
                      <+> py.decimal seconds
                      <+> " seconds.";
                })
                rapid_window
              ∷ [])))

  unfoldable pub recon_burst : Config → Json → List Json → Result ConfigError (List Finding)
  unfolding enabled threshold finding service destination_port distinct
  recon_burst config event recon_window =
      let services = distinct (without_empty (map (service py) recon_window)) in
      let recon_ports = distinct (ports_of (map (destination_port py) recon_window)) in
      guarded (enabled config "recon_burst") (do
        events ← threshold config "recon_burst" "events"
        guarded (leb events (length recon_window)) (do
          many ← threshold config "recon_burst" "services"
          most ← threshold config "recon_burst" "ports"
          guarded (leb many (length services) || leb most (length recon_ports)) (do
            seconds ← threshold config "recon_burst" "window_seconds"
            ok (
                finding py event
                  (record {
                    id = "recon_burst";
                    version = "1.0.0";
                    title = "Reconnaissance burst observed";
                    severity = "medium";
                    confidence = 85;
                    description =
                        "At least "
                        <+> py.decimal events
                        <+> " events with at least "
                        <+> py.decimal many
                        <+> " services or "
                        <+> py.decimal most
                        <+> " ports were observed from the same source "
                        <+> "within "
                        <+> py.decimal seconds
                        <+> " seconds.";
                  })
                  recon_window
                ∷ []))))
