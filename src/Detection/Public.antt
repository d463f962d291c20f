-- ===== src/Detection/Public.antt =====
-- The configuration that `public` shows, read back by `from_json`.
use mathlib.Core.Path.{subst}
use aegis_nexus.Common.{
  ℕ, true, false, none, some, [], ◌∷◌, ◌++◌, String, ◌==◌, string_eq, eq_test, ==_self, ◌≡◌, refl,
  sym, ap, ◌∙◌, arith, Option-cases, inl, inr, append_assoc,
}
use aegis_nexus.Common.Dict.{Dict, get, put, Distinct}
use aegis_nexus.Common.Json.{pos, Json, int, lookup, has_key}
use aegis_nexus.Common.Result.{ok}
use aegis_nexus.Detection.Config.{
  Rule, Config, rule_defaults, only_keys, check_threshold, set_thresholds, threshold_limits,
  in_dict, set_enabled, override_thresholds, override_rule, override_rules, of_payload, fields_of,
  public_rule, public,
}
use aegis_nexus.Detection.Limits.{
  Aligned, InLimits, in_limits, RuleFits, IsValid, only_keys-same, Distinct-Aligned,
  in_dict-Aligned,
}

module _ {ℓ} {V : Type ℓ} where
  get-late :
      (done rest : Dict String V) (j k : String) (v : V)
      → get (done ++ (k, v) ∷ rest) j ≡ none
      → (j == k) ≡ false
  unfolding get
  get-late [] rest j k v h = ground (arith, eq_test j k, eq_test k j)
  get-late ((i, w) ∷ done) rest j k v h = ground (arith, get-late done rest j k v)

  -- In a dictionary without repeated keys, a key is not among those before it.
  get-before :
      (done rest : Dict String V) (k : String) (v : V)
      → Distinct (done ++ (k, v) ∷ rest)
      → get done k ≡ none
  unfolding get
  get-before [] rest k v d = refl
  get-before ((j, w) ∷ done) rest k v d =
      let other = get-late done rest j k v d.0 in ground (arith, get-before done rest k v d.1)

  get_at :
      (done rest : Dict String V) (k j : String) (v : V)
      → k ≡ j
      → get done j ≡ none
      → get (done ++ (k, v) ∷ rest) j ≡ some v
  unfolding get
  get_at [] rest k j v same h = ground (arith, eq_test k j)
  get_at ((i, w) ∷ done) rest k j v same h = ground (arith, get_at done rest k j v same)

  put_at :
      (done rest : Dict String V) (k j : String) (v w : V)
      → k ≡ j
      → get done j ≡ none
      → put (done ++ (k, v) ∷ rest) j w ≡ done ++ (j, w) ∷ rest
  unfolding get put
  put_at [] rest k j v w same h = ground (arith, eq_test k j)
  put_at ((i, u) ∷ done) rest k j v w same h = ground (arith, put_at done rest k j v w same)

abbrev json_of : ℕ → Json
json_of n = int (pos n)

check_threshold-public :
    (rule_id key : String) (n : ℕ)
    → in_limits key n ≡ true
    → check_threshold rule_id key (json_of n) ≡ ok n
unfolding check_threshold
check_threshold-public rule_id key n h = elim (Option-cases (get threshold_limits key)) [
  | inl unknown ↦ absurd (ground arith)
  | inr (limits, known) ↦ ground arith
]

-- The loop, when it has read the thresholds `done`.
set_thresholds-public :
    (rule_id : String) (done d e : Dict String ℕ)
    → Aligned InLimits d e
    → Distinct (done ++ e)
    → set_thresholds rule_id (fields_of json_of e) (done ++ d) ≡ ok (done ++ e)
unfolding set_thresholds
set_thresholds-public rule_id done [] [] a u = refl
set_thresholds-public rule_id done [] ((j, n) ∷ e) a u = absurd a
set_thresholds-public rule_id done ((k, m) ∷ d) [] a u = absurd a
set_thresholds-public rule_id done ((k, m) ∷ d) ((j, n) ∷ e) a u =
    let next = done ++ (j, n) ∷ [] in
    let whole : next ++ e ≡ done ++ (j, n) ∷ e = append_assoc done ((j, n) ∷ []) e in
    let rest = set_thresholds-public rule_id next d e a.2 (subst (λ q. Distinct q) (sym whole) u) in
    rw
      (
        check_threshold-public rule_id j n (subst (λ q. in_limits q n ≡ true) a.0 a.1),
        put_at done d k j m n a.0 (get-before done e j n u),
        ← append_assoc done ((j, n) ∷ []) d,
      )
      (rest ∙ ap ok whole)

in_middle :
    (done rest : Dict String ℕ) (k : String) (n : ℕ) → in_dict (done ++ (k, n) ∷ rest) k ≡ true
in_middle done rest k n = elim (Option-cases (get (done ++ (k, n) ∷ rest) k)) [
  | inl absent ↦ absurd (cc (get-late done rest k k n absent, ==_self k))
  | inr (m, there) ↦ rw (in_dict, there) refl
]

-- A dictionary has all the keys that it shows.
known_keys :
    (done rest : Dict String ℕ) → only_keys (in_dict (done ++ rest)) (fields_of json_of rest) ≡ true
unfolding only_keys
known_keys done [] = refl
known_keys done ((k, n) ∷ rest) =
    let more = known_keys (done ++ (k, n) ∷ []) rest in
    rw (in_middle done rest k n) (
      subst (λ q. only_keys (in_dict q) (fields_of json_of rest) ≡ true)
        (append_assoc done ((k, n) ∷ []) rest) more)

-- The fields of a shown rule, read over a rule with the same thresholds.
override_rule-public :
    (rule_id : String) (default r : Rule)
    → RuleFits rule_id default r
    → override_rule rule_id (public_rule r) default ≡ ok r
unfolding override_rule only_keys set_enabled override_thresholds has_key lookup
override_rule-public rule_id default r fits =
    let known : only_keys (in_dict default.thresholds) (fields_of json_of r.thresholds) ≡ true =
      only_keys-same (in_dict default.thresholds) (in_dict r.thresholds)
        (λ k. in_dict-Aligned InLimits default.thresholds r.thresholds k fits.0)
        (fields_of json_of r.thresholds)
      ∙ known_keys [] r.thresholds in
    rw
      (
        override_rule,
        override_thresholds,
        known,
        set_thresholds-public rule_id [] default.thresholds r.thresholds fits.0 fits.1,
      )
      refl

override_rules-public :
    (done d e : Config)
    → Aligned RuleFits d e
    → Distinct (done ++ e)
    → override_rules (fields_of public_rule e) (done ++ d) ≡ ok (done ++ e)
unfolding override_rules
override_rules-public done [] [] a u = refl
override_rules-public done [] ((j, r) ∷ e) a u = absurd a
override_rules-public done ((k, r0) ∷ d) [] a u = absurd a
override_rules-public done ((k, r0) ∷ d) ((j, r) ∷ e) a u =
    let next = done ++ (j, r) ∷ [] in
    let whole : next ++ e ≡ done ++ (j, r) ∷ e = append_assoc done ((j, r) ∷ []) e in
    let rest = override_rules-public next d e a.2 (subst (λ q. Distinct q) (sym whole) u) in
    let free = get-before done e j r u in
    rw
      (
        override_rules,
        get_at done d k j r0 a.0 free,
        override_rule-public j r0 r (subst (λ q. RuleFits q r0 r) a.0 a.1),
        put_at done d k j r0 r a.0 free,
        ← append_assoc done ((j, r) ∷ []) d,
      )
      (rest ∙ ap ok whole)

rule_defaults-Distinct : Distinct rule_defaults
unfolding get
rule_defaults-Distinct = ground arith

-- What `public` shows of a valid configuration is read back as the same configuration.
pub of_payload-public : (config : Config) → IsValid config → of_payload (public config) ≡ ok config
unfolding of_payload public only_keys lookup
of_payload-public config valid =
    override_rules-public [] rule_defaults config valid
      (Distinct-Aligned RuleFits rule_defaults config valid rule_defaults-Distinct)
