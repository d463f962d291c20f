-- ===== src/Detection/Limits.antt =====
-- Which configurations `from_json` accepts: the rules and thresholds of the defaults, in their order,
-- with values within the limits.
use mathlib.Core.Path.{subst}
use aegis_nexus.Common.{
  ℕ, Bool, true, false, ◌&&◌, leb, none, some, [], ◌∷◌, String, ◌==◌, string_eq, eq_test, ◌≡◌, refl,
  sym, ◌∙◌, arith, Bool-cases, Option-cases, inl, inr, ◌⊎◌,
}
use aegis_nexus.Common.Dict.{Dict, get, put, Distinct, Distinct-put}
use aegis_nexus.Common.Json.{
  pos, negsuc, Json, null, bool, int, float, str, array, object, Fields, end, field, lookup,
  has_key,
}
use aegis_nexus.Common.Result.{ok, Result-cases}
use aegis_nexus.Detection.Config.{
  Rule, Config, rule_defaults, threshold_limits, only_keys, check_threshold, set_thresholds,
  in_dict, set_enabled, override_thresholds, override_rule, override_rules, of_payload, threshold,
}

-- Two dictionaries with the same keys in the same order, and `R` between their values.
abbrev pub Aligned {ℓ κ} :
    {V : Type ℓ} {W : Type κ} → (String → V → W → Type 0) → Dict String V → Dict String W → Type 0
Aligned R [] [] = Unit
Aligned R [] ((j, w) ∷ e) = ⊥
Aligned R ((k, v) ∷ d) [] = ⊥
Aligned R ((k, v) ∷ d) ((j, w) ∷ e) = (k ≡ j) × R k v w × Aligned R d e

some_inj {ℓ} : {A : Type ℓ} (a b : A) → some a ≡ some b → a ≡ b
some_inj a b h = cc

module _ {ℓ κ} {V : Type ℓ} {W : Type κ} (R : String → V → W → Type 0) where
  pub get-Aligned :
      (d : Dict String V) (e : Dict String W) (k : String) (w : W)
      → Aligned R d e
      → get e k ≡ some w
      → (v : V) × (get d k ≡ some v) × R k v w
  unfolding get
  get-Aligned [] [] k w a h = absurd (cc)
  get-Aligned [] ((j, x) ∷ e) k w a h = absurd a
  get-Aligned ((i, v) ∷ d) [] k w a h = absurd a
  get-Aligned ((i, v) ∷ d) ((j, x) ∷ e) k w a h = elim (Bool-cases (j == k)) [
    | inl same ↦
        let p : i ≡ k = a.0 ∙ (eq_test j k).0 same in
        (
          v,
          ground (arith, eq_test i k),
          subst (λ q. R q v w) p (subst (λ q. R i v q) (some_inj x w (rw same at h)) a.1),
        )
    | inr other ↦
        let found = get-Aligned d e k w a.2 (rw other at h) in
        (found.0, ground (arith, eq_test i k, eq_test j k), found.2)
  ]

  pub get-Aligned_left :
      (d : Dict String V) (e : Dict String W) (k : String) (v : V)
      → Aligned R d e
      → get d k ≡ some v
      → (w : W) × (get e k ≡ some w) × R k v w
  unfolding get
  get-Aligned_left [] [] k v a h = absurd (cc)
  get-Aligned_left [] ((j, x) ∷ e) k v a h = absurd a
  get-Aligned_left ((i, u) ∷ d) [] k v a h = absurd a
  get-Aligned_left ((i, u) ∷ d) ((j, x) ∷ e) k v a h = elim (Bool-cases (i == k)) [
    | inl same ↦ (
      x,
      ground (arith, eq_test j k),
      subst (λ q. R q v x) ((eq_test i k).0 same)
          (subst (λ q. R i q x) (some_inj u v (rw same at h)) a.1),
    )
    | inr other ↦
        let found = get-Aligned_left d e k v a.2 (rw other at h) in
        (found.0, ground (arith, eq_test i k, eq_test j k), found.2)
  ]

  pub in_dict-Aligned :
      (d : Dict String V) (e : Dict String W) (k : String)
      → Aligned R d e
      → in_dict d k ≡ in_dict e k
  unfolding get
  in_dict-Aligned [] [] k a = refl
  in_dict-Aligned [] ((j, x) ∷ e) k a = absurd a
  in_dict-Aligned ((i, v) ∷ d) [] k a = absurd a
  in_dict-Aligned ((i, v) ∷ d) ((j, x) ∷ e) k a =
      ground (arith, in_dict-Aligned d e k a.2, eq_test i k, eq_test j k)

  pub Distinct-Aligned :
      (d : Dict String V) (e : Dict String W) → Aligned R d e → Distinct d → Distinct e
  unfolding get
  Distinct-Aligned [] [] a u = tt
  Distinct-Aligned [] ((j, x) ∷ e) a u = absurd a
  Distinct-Aligned ((i, v) ∷ d) [] a u = absurd a
  Distinct-Aligned ((i, v) ∷ d) ((j, x) ∷ e) a u =
      (ground (arith, in_dict-Aligned d e j a.2), Distinct-Aligned d e a.2 u.1)

  pub put-Aligned :
      (d : Dict String V) (e : Dict String W) (k : String) (v : V) (w : W)
      → Aligned R d e
      → get d k ≡ some v
      → R k v w
      → Aligned R d (put e k w)
  unfolding get put
  put-Aligned [] [] k v w a h r = absurd (cc)
  put-Aligned [] ((j, x) ∷ e) k v w a h r = absurd a
  put-Aligned ((i, u) ∷ d) [] k v w a h r = absurd a
  put-Aligned ((i, u) ∷ d) ((j, x) ∷ e) k v w a h r = elim (Bool-cases (j == k)) [
    | inl same ↦
        let p : i ≡ k = a.0 ∙ (eq_test j k).0 same in
        let first : u ≡ v = ground (arith, eq_test i k) in
        rw same (a.0, subst (λ q. R q u w) (sym p) (subst (λ q. R k q w) (sym first) r), a.2)
    | inr other ↦
        rw other (a.0, a.1, put-Aligned d e k v w a.2 (ground (arith, eq_test i k, eq_test j k)) r)
  ]

-- A value within the limits of its threshold.
abbrev pub in_limits : String → ℕ → Bool
in_limits key n = elim (get threshold_limits key) [
  | none ↦ false
  | some limits ↦ leb limits.0 n && leb n limits.1
]

abbrev pub InLimits : String → ℕ → ℕ → Type 0
InLimits key default n = in_limits key n ≡ true

-- A rule with the thresholds of `default`, each once and within its limits.
abbrev pub RuleFits : String → Rule → Rule → Type 0
RuleFits rule_id default r =
    Aligned InLimits default.thresholds r.thresholds × Distinct r.thresholds

-- A configuration of exactly the rules of the program.
abbrev pub IsValid : Config → Type 0
IsValid config = Aligned RuleFits rule_defaults config

pub only_keys-same :
    (p q : String → Bool)
    → ((k : String) → p k ≡ q k)
    → (fs : Fields) → only_keys p fs ≡ only_keys q fs
unfolding only_keys
only_keys-same p q same end = refl
only_keys-same p q same (field k v fs) = ground (arith, same k, only_keys-same p q same fs)

check_threshold-InLimits :
    (rule_id key : String) (default : ℕ) (value : Json) (n : ℕ)
    → check_threshold rule_id key value ≡ ok n
    → InLimits key default n
unfolding check_threshold
check_threshold-InLimits rule_id key default (int (pos m)) n h =
    elim (Option-cases (get threshold_limits key)) [
      | inl unknown ↦ absurd (ground arith)
      | inr (limits, known) ↦ ground arith
    ]
check_threshold-InLimits rule_id key default (int (negsuc m)) n h =
    elim (Option-cases (get threshold_limits key)) [
      | inl unknown ↦ absurd (ground arith)
      | inr (limits, known) ↦ absurd (ground arith)
    ]
check_threshold-InLimits rule_id key default _ n h = absurd (ground arith)

-- The keys are looked up in the defaults, whose keys a dictionary in the loop keeps.
set_thresholds-Aligned :
    (rule_id : String) (default thresholds result : Dict String ℕ) (given : Fields)
    → Aligned InLimits default thresholds
    → Distinct thresholds
    → only_keys (in_dict default) given ≡ true
    → set_thresholds rule_id given thresholds ≡ ok result
    → Aligned InLimits default result × Distinct result
unfolding set_thresholds only_keys
set_thresholds-Aligned rule_id default thresholds result end a d known h =
    let same : result ≡ thresholds = ground arith in (rw same a, rw same d)
set_thresholds-Aligned rule_id default thresholds result (field key value rest) a d known h =
    elim (Result-cases (check_threshold rule_id key value)) [
      | inl (e, failed) ↦ absurd (ground arith)
      | inr (n, checked) ↦ elim (Option-cases (get default key)) [
        | inl absent ↦ absurd (ground arith)
        | inr (m, there) ↦
            set_thresholds-Aligned rule_id default (put thresholds key n) result rest
              (put-Aligned InLimits default thresholds key m n a there
                (check_threshold-InLimits rule_id key m value n checked))
              (Distinct-put thresholds key n d) (ground arith) (ground arith)
      ]
    ]

-- Either nothing is overridden, or known thresholds are.
override_thresholds-cases :
    (rule_id : String) (r r' : Rule) (override : Fields) (found : Json)
    → lookup "thresholds" override ≡ found
    → override_thresholds rule_id override r ≡ ok r'
    → (r' ≡ r)
      ⊎ ((given : Fields) × (only_keys (in_dict r.thresholds) given ≡ true)
          × (set_thresholds rule_id given r.thresholds ≡ ok r'.thresholds))
unfolding override_thresholds
override_thresholds-cases rule_id r r' override (object given) e h =
    elim (Bool-cases (has_key "thresholds" override)) [
      | inl there ↦ elim (Result-cases (set_thresholds rule_id given r.thresholds)) [
        | inl (error, failed) ↦ absurd (ground arith)
        | inr (thresholds, done) ↦ inr (given, ground arith, ground arith)
      ]
      | inr absent ↦ inl (ground arith)
    ]
override_thresholds-cases rule_id r r' override _ e h = inl (ground arith)

override_thresholds-RuleFits :
    (rule_id : String) (default r r' : Rule) (override : Fields)
    → RuleFits rule_id default r
    → override_thresholds rule_id override r ≡ ok r'
    → RuleFits rule_id default r'
override_thresholds-RuleFits rule_id default r r' override fits h =
    elim (override_thresholds-cases rule_id r r' override (lookup "thresholds" override) refl h) [
      | inl same ↦ rw same fits
      | inr (given, known, done) ↦
          set_thresholds-Aligned rule_id default.thresholds r.thresholds r'.thresholds given fits.0
            fits.1
            (only_keys-same (in_dict default.thresholds) (in_dict r.thresholds)
                (λ k. in_dict-Aligned InLimits default.thresholds r.thresholds k fits.0) given
              ∙ known)
            done
    ]

set_enabled-thresholds :
    (rule_id : String) (r s : Rule) (override : Fields) (found : Json)
    → lookup "enabled" override ≡ found
    → set_enabled rule_id override r ≡ ok s
    → s.thresholds ≡ r.thresholds
unfolding set_enabled
set_enabled-thresholds rule_id r s override (bool b) e h = ground arith
set_enabled-thresholds rule_id r s override _ e h = ground arith

override_rule-RuleFits :
    (rule_id : String) (default r r' : Rule) (override : Json)
    → RuleFits rule_id default r
    → override_rule rule_id override r ≡ ok r'
    → RuleFits rule_id default r'
unfolding override_rule
override_rule-RuleFits rule_id default r r' null fits h = absurd (cc)
override_rule-RuleFits rule_id default r r' (bool b) fits h = absurd (cc)
override_rule-RuleFits rule_id default r r' (int n) fits h = absurd (cc)
override_rule-RuleFits rule_id default r r' (float n) fits h = absurd (cc)
override_rule-RuleFits rule_id default r r' (str s) fits h = absurd (cc)
override_rule-RuleFits rule_id default r r' (array xs) fits h = absurd (cc)
override_rule-RuleFits rule_id default r r' (object override) fits h =
    elim (Result-cases (set_enabled rule_id override r)) [
      | inl (e, failed) ↦ absurd (ground arith)
      | inr (s, done) ↦
          override_thresholds-RuleFits rule_id default s r' override
            (rw (set_enabled-thresholds rule_id r s override (lookup "enabled" override) refl done)
              fits)
            (ground arith)
    ]

override_rules-IsValid :
    (overrides : Fields) (config result : Config)
    → IsValid config
    → override_rules overrides config ≡ ok result
    → IsValid result
unfolding override_rules
override_rules-IsValid end config result valid h =
    let same : result ≡ config = ground arith in rw same valid
override_rules-IsValid (field rule_id override rest) config result valid h =
    elim (Option-cases (get config rule_id)) [
      | inl unknown ↦ absurd (ground arith)
      | inr (r, there) ↦
          let (default, known, fits) =
            get-Aligned RuleFits rule_defaults config rule_id r valid there in
          elim (Result-cases (override_rule rule_id override r)) [
            | inl (e, failed) ↦ absurd (ground arith)
            | inr (changed, done) ↦
                override_rules-IsValid rest (put config rule_id changed) result
                  (put-Aligned RuleFits rule_defaults config rule_id default changed valid known
                    (override_rule-RuleFits rule_id default r changed override fits done))
                  (ground arith)
          ]
    ]

pub rule_defaults-IsValid : IsValid rule_defaults
unfolding get
rule_defaults-IsValid = ground arith

of_payload-cases :
    (payload : Fields) (found : Json) (config : Config)
    → lookup "rules" payload ≡ found
    → of_payload (object payload) ≡ ok config
    → (overrides : Fields) × (override_rules overrides rule_defaults ≡ ok config)
unfolding of_payload
of_payload-cases payload (object overrides) config e h = (overrides, ground arith)
of_payload-cases payload _ config e h = absurd (ground arith)

-- A payload that is accepted gives a configuration of exactly the rules of the program, each with
-- its own thresholds once, all within their limits.
pub of_payload-IsValid :
    (payload : Json) (config : Config) → of_payload payload ≡ ok config → IsValid config
unfolding of_payload
of_payload-IsValid (object payload) config h =
    let (overrides, done) = of_payload-cases payload (lookup "rules" payload) config refl h in
    override_rules-IsValid overrides rule_defaults config rule_defaults-IsValid done
of_payload-IsValid _ config h = absurd (cc)

-- In a valid configuration no threshold that the program defines is missing, and it is in its limits.
pub threshold-InLimits :
    (config : Config) (rule_id key : String) (default : Rule) (m : ℕ)
    → IsValid config
    → get rule_defaults rule_id ≡ some default
    → get default.thresholds key ≡ some m
    → (n : ℕ) × (threshold config rule_id key ≡ ok n) × InLimits key m n
unfolding threshold
threshold-InLimits config rule_id key default m valid known there =
    let (r, found, fits) =
      get-Aligned_left RuleFits rule_defaults config rule_id default valid known in
    let (n, present, bounded) =
      get-Aligned_left InLimits default.thresholds r.thresholds key m fits.0 there in
    (n, rw (threshold, found, present) refl, bounded)
