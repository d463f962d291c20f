-- ===== src/Detection/Answers.antt =====
-- `evaluate` as a whole: it answers, and every rule has at most one finding.
use mathlib.Core.List.{map-append}
use aegis_nexus.Common.{
  Bool, true, ◌&&◌, Option, none, some, List, [], ◌∷◌, ◌++◌, map, All, All-append, String, ◌==◌,
  string_eq, ◌≡◌, refl, inl, inr, Bool-cases,
}
use aegis_nexus.Common.Dict.{get}
use aegis_nexus.Common.Json.{Json}
use aegis_nexus.Common.Python.{Python}
use aegis_nexus.Common.Result.{Result, ok, ◌>>=◌}
use aegis_nexus.Common.Sublist.{Sublist, done, skip, both, Sublist_nil, Sublist-append}
use aegis_nexus.Alerts.{Finding}
use aegis_nexus.Detection.Config.{Config, ConfigError, enabled}
use aegis_nexus.Detection.Limits.{IsValid}
use aegis_nexus.Detection.Events.{source_ip, credential_fingerprint, window}
use aegis_nexus.Detection.Rules.{
  About, Honeytoken, is_credential, username, finding, builtin_rules, rule_findings,
  honeytoken_findings,
}
use aegis_nexus.Detection.Engine.{contextual_findings, evaluate}
use aegis_nexus.Detection.Findings.{
  IsFinding, finding-IsFinding, rule_ids, OfRule, known, and_left, auth-OfRule, brute-OfRule,
  reuse-OfRule, web-OfRule, traversal-OfRule, rapid-OfRule, recon-OfRule,
}

-- Findings of enabled rules, each of `rules` at most once and in their order.
pub record IsAnswer (config : Config) (rules : List String) (fs : List Finding) : Type 0 where
  pub once : Sublist (rule_ids fs) rules
  pub findings : All (IsFinding config) fs

abbrev pub contextual_rules : List String
contextual_rules =
    "multiple_auth_failures" ∷ "credential_bruteforce" ∷ "credential_reuse" ∷ "web_scanning"
    ∷ "path_traversal_sequence" ∷ "rapid_port_sequence" ∷ "recon_burst" ∷ []

abbrev pub all_rules : List String
all_rules =
    "honeytoken_reuse" ∷ "download_attempt" ∷ "command_staging_detected" ∷ "suricata_high_severity"
    ∷ contextual_rules

module _ (config : Config) where
  none-IsAnswer : (rules : List String) → IsAnswer config rules []
  none-IsAnswer rules = record { once = Sublist_nil rules; findings = tt }

  append-IsAnswer :
      (a b : List String) (fs gs : List Finding)
      → IsAnswer config a fs
      → IsAnswer config b gs
      → IsAnswer config (a ++ b) (fs ++ gs)
  append-IsAnswer a b fs gs x y = record {
    once = rw (map-append (λ f. f.rule_id) fs gs) (Sublist-append x.once y.once);
    findings = All-append (IsFinding config) fs gs x.findings y.findings;
  }

  one-IsAnswer :
      (id : String) (f : Finding)
      → f.rule_id ≡ id
      → IsFinding config f
      → IsAnswer config (id ∷ []) (f ∷ [])
  one-IsAnswer id f same h = record { once = rw same (both done); findings = (h, tt) }

  -- A rule that answers.
  abbrev Part : String → Result ConfigError (List Finding) → Type 0
  Part id r = (fs : List Finding) × (r ≡ ok fs) × IsAnswer config (id ∷ []) fs

  part : (id : String) (r : Result ConfigError (List Finding)) → OfRule config id r → Part id r
  part id r (inl h) = ([], h, none-IsAnswer (id ∷ []))
  part id r (inr (f, h, same, finding)) = (f ∷ [], h, one-IsAnswer id f same finding)

  -- The rules one after the other, each of which answers.
  seven-IsAnswer :
      (a b c d e f g : Result ConfigError (List Finding))
      → Part "multiple_auth_failures" a
      → Part "credential_bruteforce" b
      → Part "credential_reuse" c
      → Part "web_scanning" d
      → Part "path_traversal_sequence" e
      → Part "rapid_port_sequence" f
      → Part "recon_burst" g
      → (fs : List Finding) × ((do
        auth ← a
        brute ← b
        reuse ← c
        web ← d
        traversal ← e
        rapid ← f
        recon ← g
        ok (auth ++ brute ++ reuse ++ web ++ traversal ++ rapid ++ recon))
          ≡ ok fs)
        × IsAnswer config contextual_rules fs
  seven-IsAnswer a b c d e f g (f1, e1, a1) (f2, e2, a2) (f3, e3, a3) (f4, e4, a4) (f5, e5, a5)
        (f6, e6, a6) (f7, e7, a7) =
      (
        f1 ++ f2 ++ f3 ++ f4 ++ f5 ++ f6 ++ f7,
        rw (e1, e2, e3, e4, e5, e6, e7) refl,
        append-IsAnswer _ _ _ f7
            (append-IsAnswer _ _ _ f6
              (append-IsAnswer _ _ _ f5
                (append-IsAnswer _ _ _ f4
                  (append-IsAnswer _ _ _ f3 (append-IsAnswer _ _ f1 f2 a1 a2) a3) a4)
                a5)
              a6)
            a7,
      )

module _ (py : Python) (config : Config) (valid : IsValid config) (event : Json) where
  contextual-IsAnswer :
      (context : List Json)
      → (fs : List Finding) × (contextual_findings py config event context ≡ ok fs)
        × IsAnswer config contextual_rules fs
  unfolding contextual_findings get
  contextual-IsAnswer context =
      let (s1, h1) = known config "multiple_auth_failures" "window_seconds" valid refl in
      let (s2, h2) = known config "credential_bruteforce" "window_seconds" valid refl in
      let (s3, h3) = known config "web_scanning" "window_seconds" valid refl in
      let (s4, h4) = known config "path_traversal_sequence" "window_seconds" valid refl in
      let (s5, h5) = known config "rapid_port_sequence" "window_seconds" valid refl in
      let (s6, h6) = known config "recon_burst" "window_seconds" valid refl in
      elim (Bool-cases (source_ip py event == "")) [
        | inl anonymous ↦
            ([], rw (contextual_findings, anonymous) refl, none-IsAnswer config contextual_rules)
        | inr known_source ↦
            rw (contextual_findings, known_source, h1, h2, h3, h4, h5, h6)
              (seven-IsAnswer config _ _ _ _ _ _ _
                (part config "multiple_auth_failures" _
                  (auth-OfRule py config valid event (window py event context s1 true)))
                (part config "credential_bruteforce" _
                  (brute-OfRule py config valid event (window py event context s2 true)))
                (part config "credential_reuse" _ (reuse-OfRule py config valid event context))
                (part config "web_scanning" _
                  (web-OfRule py config valid event (window py event context s3 true)))
                (part config "path_traversal_sequence" _
                  (traversal-OfRule py config valid event (window py event context s4 true)))
                (part config "rapid_port_sequence" _
                  (rapid-OfRule py config valid event (window py event context s5 true)))
                (part config "recon_burst" _
                  (recon-OfRule py config valid event (window py event context s6 true))))
      ]

  rules-IsAnswer :
      (rules : List (About × (Json → Bool)))
      → IsAnswer config (map (λ r. r.0.id) rules) (rule_findings py config rules event)
  unfolding rule_findings finding
  rules-IsAnswer [] = none-IsAnswer config []
  rules-IsAnswer ((about, matcher) ∷ rules) =
      let rest = rules-IsAnswer rules in
      elim (Bool-cases (enabled config about.id && matcher event)) [
        | inr off ↦ rw off (record { once = skip rest.once; findings = rest.findings })
        | inl on ↦ rw on (record {
          once = both rest.once;
          findings = (
            finding-IsFinding py config event about (event ∷ []) (and_left _ _ on),
            rest.findings,
          );
        })
      ]

  honeytoken-IsAnswer :
      (token : Option Honeytoken)
      → IsAnswer config ("honeytoken_reuse" ∷ []) (honeytoken_findings py config token event)
  unfolding honeytoken_findings finding
  honeytoken-IsAnswer none = none-IsAnswer config ("honeytoken_reuse" ∷ [])
  honeytoken-IsAnswer (some token) =
      elim (Bool-cases (
        enabled config "honeytoken_reuse"
        && (is_credential py event
            && (username py event == token.username
                && credential_fingerprint py event == token.password_sha256)))) [
                  | inr off ↦
                      rw (honeytoken_findings, off) (none-IsAnswer config ("honeytoken_reuse" ∷ []))
                  | inl on ↦
                      rw (honeytoken_findings, on)
                        (one-IsAnswer config "honeytoken_reuse" _ refl
                          (finding-IsFinding py config event _ (event ∷ []) (and_left _ _ on)))
                ]

  -- Under a valid configuration `evaluate` raises no error, and its findings are of enabled rules,
  -- each of the eleven rules at most once and in their order, with at most 64 events of evidence.
  pub evaluate-IsAnswer :
      (token : Option Honeytoken) (context : List Json)
      → (fs : List Finding) × (evaluate py config token event context ≡ ok fs)
        × IsAnswer config all_rules fs
  unfolding evaluate
  evaluate-IsAnswer token context =
      let (fs, e, a) = contextual-IsAnswer context in
      (
        honeytoken_findings py config token event
            ++ rule_findings py config (builtin_rules py) event
            ++ fs,
        rw (evaluate, e) refl,
        append-IsAnswer config _ contextual_rules _ fs
            (append-IsAnswer config ("honeytoken_reuse" ∷ []) _
              (honeytoken_findings py config token event)
              (rule_findings py config (builtin_rules py) event) (honeytoken-IsAnswer token)
              (rules-IsAnswer (builtin_rules py)))
            a,
      )
