-- ===== src/Detection/Findings.antt =====
-- What `evaluate` gives under a valid configuration: an answer, with at most one finding of each
-- rule, in a fixed order.
use aegis_nexus.Common.{
  ℕ, ◌≤◌, Bool, true, false, not, ◌&&◌, ◌||◌, leb, none, some, List, [], ◌∷◌, map, keep, length,
  String, ◌==◌, string_eq, nat_eq, ◌≡◌, refl, arith, length-take, Bool-cases, Option-cases, inl,
  inr, ◌⊎◌,
}
use aegis_nexus.Common.Json.{Json}
use aegis_nexus.Common.Python.{Python}
use aegis_nexus.Common.Dict.{get}
use aegis_nexus.Common.Result.{Result, ok}
use aegis_nexus.Common.Sets.{distinct}
use aegis_nexus.Alerts.{Finding}
use aegis_nexus.Detection.Config.{Config, rule_defaults, ConfigError, in_dict, enabled, threshold}
use aegis_nexus.Detection.Limits.{IsValid, threshold-InLimits}
use aegis_nexus.Detection.Events.{
  source_ip, credential_fingerprint, window, path, service, destination_port,
}
use aegis_nexus.Detection.Rules.{
  About, refs, finding, is_credential, username, without_empty, ports_of,
}
use aegis_nexus.Detection.Context.{
  multiple_auth_failures, credential_bruteforce, credential_reuse, web_scanning,
  path_traversal_sequence, rapid_port_sequence, recon_burst, is_web, traverses,
}

-- A finding of an enabled rule with a bounded list of evidence.
pub record IsFinding (config : Config) (f : Finding) : Type 0 where
  pub active : enabled config f.rule_id ≡ true
  pub bounded : length f.evidence ≤ 64

abbrev pub rule_ids : List Finding → List String
rule_ids = map (λ f. f.rule_id)

pub finding-IsFinding :
    (py : Python) (config : Config) (event : Json) (about : About) (evidence : List Json)
    → enabled config about.id ≡ true
    → IsFinding config (finding py event about evidence)
unfolding finding
finding-IsFinding py config event about evidence h = record {
  active = h;
  bounded = omega (arith, length-take 64 (refs py evidence));
}

abbrev has_threshold : String → String → Bool
has_threshold rule_id key = elim (get rule_defaults rule_id) [
  | none ↦ false
  | some default ↦ in_dict default.thresholds key
]

module _ (config : Config) where
  -- The answer of a rule: no finding, or one of this rule.
  abbrev pub OfRule : String → Result ConfigError (List Finding) → Type 0
  OfRule id r =
      (r ≡ ok []) ⊎ ((f : Finding) × (r ≡ ok (f ∷ [])) × (f.rule_id ≡ id) × IsFinding config f)

  pub known :
      (rule_id key : String)
      → IsValid config
      → has_threshold rule_id key ≡ true
      → (n : ℕ) × (threshold config rule_id key ≡ ok n)
  known rule_id key valid h = elim (Option-cases (get rule_defaults rule_id)) [
    | inl absent ↦ absurd (ground arith)
    | inr (default, there) ↦ elim (Option-cases (get default.thresholds key)) [
      | inl absent ↦ absurd (ground arith)
      | inr (m, here) ↦
          let (n, found, bounded) =
            threshold-InLimits config rule_id key default m valid there here in
          (n, found)
    ]
  ]

  one-OfRule :
      (py : Python) (event : Json) (about : About) (evidence : List Json)
      → enabled config about.id ≡ true
      → OfRule about.id (ok (finding py event about evidence ∷ []))
  unfolding finding
  one-OfRule py event about evidence h = inr (
    finding py event about evidence,
    refl,
    refl,
    finding-IsFinding py config event about evidence h,
  )

pub and_left : (a b : Bool) → (a && b) ≡ true → a ≡ true
and_left a b h = ground arith

module _ (py : Python) (config : Config) (valid : IsValid config) (event : Json) where
  pub auth-OfRule :
      (events : List Json)
      → OfRule config "multiple_auth_failures" (multiple_auth_failures py config event events)
  unfolding get multiple_auth_failures
  auth-OfRule events =
      let (n, attempts) = known config "multiple_auth_failures" "attempts" valid refl in
      let (s, seconds) = known config "multiple_auth_failures" "window_seconds" valid refl in
      let own = keep (is_credential py) events in
      elim (Bool-cases (enabled config "multiple_auth_failures" && is_credential py event)) [
        | inr off ↦ inl (rw (multiple_auth_failures, off) refl)
        | inl on ↦ elim (Bool-cases (leb n (length own))) [
          | inr few ↦ inl (rw (multiple_auth_failures, on, attempts, few) refl)
          | inl many ↦
              rw (multiple_auth_failures, on, attempts, many, seconds)
                (one-OfRule config py event _ own (and_left _ _ on))
        ]
      ]

  pub brute-OfRule :
      (events : List Json)
      → OfRule config "credential_bruteforce" (credential_bruteforce py config event events)
  unfolding get credential_bruteforce
  brute-OfRule events =
      let (n, attempts) = known config "credential_bruteforce" "attempts" valid refl in
      let (u, usernames) = known config "credential_bruteforce" "usernames" valid refl in
      let (s, seconds) = known config "credential_bruteforce" "window_seconds" valid refl in
      let own = keep (is_credential py) events in
      elim (Bool-cases (enabled config "credential_bruteforce" && is_credential py event)) [
        | inr off ↦ inl (rw (credential_bruteforce, off) refl)
        | inl on ↦ elim (Bool-cases (leb n (length own))) [
          | inr few ↦ inl (rw (credential_bruteforce, on, attempts, few) refl)
          | inl many ↦
              elim (Bool-cases
                (leb u (length (distinct (without_empty (map (username py) own)))))) [
                  | inr few ↦
                      inl (rw (credential_bruteforce, on, attempts, many, usernames, few) refl)
                  | inl names ↦
                      rw (credential_bruteforce, on, attempts, many, usernames, names, seconds)
                        (one-OfRule config py event _ own (and_left _ _ on))
                ]
        ]
      ]

  pub reuse-OfRule :
      (context : List Json)
      → OfRule config "credential_reuse" (credential_reuse py config event context)
  unfolding get credential_reuse
  reuse-OfRule context =
      let (n, events) = known config "credential_reuse" "events" valid refl in
      let (m, sources) = known config "credential_reuse" "sources" valid refl in
      let (s, seconds) = known config "credential_reuse" "window_seconds" valid refl in
      let fingerprint = credential_fingerprint py event in
      let own =
        keep (λ item. credential_fingerprint py item == fingerprint)
          (window py event context s false) in
      elim (Bool-cases (is_credential py event && not (fingerprint == ""))) [
        | inr off ↦ inl (rw (credential_reuse, off) refl)
        | inl on ↦ elim (Bool-cases (enabled config "credential_reuse")) [
          | inr off ↦ inl (rw (credential_reuse, on, seconds, off) refl)
          | inl active ↦ elim (Bool-cases (leb n (length own))) [
            | inr few ↦ inl (rw (credential_reuse, on, seconds, active, events, few) refl)
            | inl many ↦
                elim (Bool-cases
                  (leb m (length (distinct (without_empty (map (source_ip py) own)))))) [
                    | inr few ↦ inl (
                        rw (credential_reuse, on, seconds, active, events, many, sources, few) refl)
                    | inl wide ↦
                        rw (credential_reuse, on, seconds, active, events, many, sources, wide)
                          (one-OfRule config py event _ own active)
                  ]
          ]
        ]
      ]

  pub web-OfRule :
      (events : List Json) → OfRule config "web_scanning" (web_scanning py config event events)
  unfolding get web_scanning
  web-OfRule events =
      let (n, paths) = known config "web_scanning" "paths" valid refl in
      let (s, seconds) = known config "web_scanning" "window_seconds" valid refl in
      let own = keep (is_web py) events in
      elim (Bool-cases (enabled config "web_scanning" && is_web py event)) [
        | inr off ↦ inl (rw (web_scanning, off) refl)
        | inl on ↦
            elim (Bool-cases (leb n (length (distinct (without_empty (map (path py) own)))))) [
              | inr few ↦ inl (rw (web_scanning, on, paths, few) refl)
              | inl many ↦
                  rw (web_scanning, on, paths, many, seconds)
                    (one-OfRule config py event _ own (and_left _ _ on))
            ]
      ]

  pub traversal-OfRule :
      (items : List Json)
      → OfRule config "path_traversal_sequence" (path_traversal_sequence py config event items)
  unfolding get path_traversal_sequence
  traversal-OfRule items =
      let (n, events) = known config "path_traversal_sequence" "events" valid refl in
      let (s, seconds) = known config "path_traversal_sequence" "window_seconds" valid refl in
      let own = keep (traverses py) items in
      elim (Bool-cases (enabled config "path_traversal_sequence" && traverses py event)) [
        | inr off ↦ inl (rw (path_traversal_sequence, off) refl)
        | inl on ↦ elim (Bool-cases (leb n (length own))) [
          | inr few ↦ inl (rw (path_traversal_sequence, on, events, few) refl)
          | inl many ↦
              rw (path_traversal_sequence, on, events, many, seconds)
                (one-OfRule config py event _ own (and_left _ _ on))
        ]
      ]

  pub rapid-OfRule :
      (items : List Json)
      → OfRule config "rapid_port_sequence" (rapid_port_sequence py config event items)
  unfolding get rapid_port_sequence
  rapid-OfRule items =
      let (n, ports) = known config "rapid_port_sequence" "ports" valid refl in
      let (s, seconds) = known config "rapid_port_sequence" "window_seconds" valid refl in
      elim (Bool-cases (enabled config "rapid_port_sequence")) [
        | inr off ↦ inl (rw (rapid_port_sequence, off) refl)
        | inl on ↦
            elim (Bool-cases
              (leb n (length (distinct (ports_of (map (destination_port py) items)))))) [
                | inr few ↦ inl (rw (rapid_port_sequence, on, ports, few) refl)
                | inl many ↦
                    rw (rapid_port_sequence, on, ports, many, seconds)
                      (one-OfRule config py event _ items on)
              ]
      ]

  pub recon-OfRule :
      (items : List Json) → OfRule config "recon_burst" (recon_burst py config event items)
  unfolding get recon_burst
  recon-OfRule items =
      let (n, events) = known config "recon_burst" "events" valid refl in
      let (v, services) = known config "recon_burst" "services" valid refl in
      let (p, ports) = known config "recon_burst" "ports" valid refl in
      let (s, seconds) = known config "recon_burst" "window_seconds" valid refl in
      let seen = distinct (without_empty (map (service py) items)) in
      let targets = distinct (ports_of (map (destination_port py) items)) in
      elim (Bool-cases (enabled config "recon_burst")) [
        | inr off ↦ inl (rw (recon_burst, off) refl)
        | inl on ↦ elim (Bool-cases (leb n (length items))) [
          | inr few ↦ inl (rw (recon_burst, on, events, few) refl)
          | inl many ↦ elim (Bool-cases (leb v (length seen) || leb p (length targets))) [
            | inr narrow ↦ inl (rw (recon_burst, on, events, many, services, ports, narrow) refl)
            | inl wide ↦
                rw (recon_burst, on, events, many, services, ports, wide, seconds)
                  (one-OfRule config py event _ items on)
          ]
        ]
      ]
