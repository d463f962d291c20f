-- ===== src/Suppression.antt =====
-- The detection suppressions of aegis_nexus/detection_suppression.py. A time is the microseconds that
-- its UTC text stands for; the texts of one zone sort as the times do.
use text.Mathlib.Text.{is_lt}
use Prim.Native.String.{compare}
use aegis_nexus.Common.{
  ℕ, suc, ◌+◌, ◌-◌, ◌*◌, min, max, Bool, true, false, not, ◌&&◌, ◌||◌, ltb, leb, nat_beq,
  if◌then◌else◌, Option, none, some, List, [], ◌∷◌, ◌++◌, keep, any, first, take, map, String, ◌==◌,
  string_eq,
}
use aegis_nexus.Common.Order.{order_by, insert_by}
pub mod InForce
pub mod Trail
mod Tests

-- What the code calls of str, datetime and ipaddress; `none` is an exception.
pub record Library : Type 0 where
  pub strip : String → String
  pub len : String → ℕ
  pub slice : ℕ → String → String
  pub ip_address : String → Option String
  pub parse_utc : String → Option (Option ℕ)

-- The keys of RULE_DEFAULTS.
abbrev pub rules : List String
rules =
    "download_attempt" ∷ "command_staging_detected" ∷ "suricata_high_severity" ∷ "honeytoken_reuse"
    ∷ "multiple_auth_failures" ∷ "credential_bruteforce" ∷ "credential_reuse" ∷ "web_scanning"
    ∷ "path_traversal_sequence" ∷ "rapid_port_sequence" ∷ "recon_burst" ∷ []

unfoldable pub is_rule : String → Bool
is_rule rule = any (λ r. r == rule) rules

-- 30 days in microseconds.
abbrev pub max_suppression : ℕ
max_suppression = 30 * 24 * 60 * 60 * 1000000

pub record Suppression : Type 0 where
  pub id : String
  pub rule_id : String
  pub source_ip : Option String
  pub owner : String
  pub reason : String
  pub created_at : ℕ
  pub expires_at : ℕ

pub data Action : Type 0 where
  created : Action
  deleted : Action

-- A row of the audit table, its JSON detail as the values in it.
pub record AuditRow : Type 0 where
  pub id : ℕ
  pub suppression_id : String
  pub action : Action
  pub actor : String
  pub timestamp : ℕ
  pub rule_id : String
  pub source_ip : Option String
  pub expires_at : ℕ

pub record Tables : Type 0 where
  pub suppressions : List Suppression
  pub audit : List AuditRow
  pub last_audit : ℕ

pub data Error : Type 0 where
  unknown_detection_rule : Error
  invalid_owner : Error
  invalid_reason : Error
  invalid_source_ip : Error
  invalid_expiry : Error
  expiry_timezone_required : Error
  expiry_must_be_future : Error
  expiry_exceeds_30_days : Error
  invalid_actor : Error
  taken_identifier : Error

pub data Result {ℓ} (A : Type ℓ) : Type ℓ where
  ok : A → Result A
  failed : Error → Result A

-- The arguments of `create`.
pub record Request : Type 0 where
  pub rule_id : String
  pub owner : String
  pub reason : String
  pub expires_at : String
  pub source_ip : String
  pub actor : String

abbrev pub has_id : String → Suppression → Bool
has_id id s = s.id == id

abbrev pub audit_row : Suppression → Action → String → ℕ → ℕ → AuditRow
audit_row s action actor now id = record {
  id = id;
  suppression_id = s.id;
  action = action;
  actor = actor;
  timestamp = now;
  rule_id = s.rule_id;
  source_ip = s.source_ip;
  expires_at = s.expires_at;
}

abbrev pub log : Suppression → Action → String → ℕ → Tables → Tables
log s action actor now t = record t {
  audit = t.audit ++ audit_row s action actor now (suc t.last_audit) ∷ [];
  last_audit = suc t.last_audit;
}

module _ (lib : Library) where
  -- `none` where no source is given.
  unfoldable pub clean_source : String → Result (Option String)
  clean_source source_ip =
      if lib.strip source_ip == "" then ok none else elim (lib.ip_address (lib.strip source_ip)) [
        | none ↦ failed invalid_source_ip
        | some ip ↦ ok (some ip)
      ]

  unfoldable pub check_expiry : String → ℕ → Result ℕ
  check_expiry expires_at now = elim (lib.parse_utc expires_at) [
    | none ↦ failed invalid_expiry
    | some none ↦ failed expiry_timezone_required
    | some (some expiry) ↦
        if leb expiry now
        then failed expiry_must_be_future
        else if ltb max_suppression (expiry - now)
        then failed expiry_exceeds_30_days
        else ok expiry
  ]

  abbrev pub actor_name : Request → String
  actor_name r =
      let given =
        lib.slice 128 (lib.strip (if r.actor == "" then lib.strip r.owner else r.actor)) in
      if given == "" then lib.strip r.owner else given

  abbrev pub suppression_of : Request → Option String → String → ℕ → ℕ → Suppression
  suppression_of r source_ip id now expiry = record {
    id = id;
    rule_id = lib.strip r.rule_id;
    source_ip = source_ip;
    owner = lib.strip r.owner;
    reason = lib.strip r.reason;
    created_at = now;
    expires_at = expiry;
  }

  -- The checks of `create`, and the row that it inserts.
  unfoldable pub validate : Request → String → ℕ → Result Suppression
  unfolding clean_source check_expiry
  validate r id now =
      if not (is_rule (lib.strip r.rule_id))
      then failed unknown_detection_rule
      else if lib.strip r.owner == "" || ltb 128 (lib.len (lib.strip r.owner))
      then failed invalid_owner
      else if lib.strip r.reason == "" || ltb 1000 (lib.len (lib.strip r.reason))
      then failed invalid_reason
      else elim (clean_source r.source_ip) [
        | failed e ↦ failed e
        | ok source_ip ↦ elim (check_expiry r.expires_at now) [
          | failed e ↦ failed e
          | ok expiry ↦ ok (suppression_of r source_ip id now expiry)
        ]
      ]

  -- `id` is the identifier that uuid4 gives.
  unfoldable pub create : Request → String → ℕ → Tables → Result Tables
  unfolding validate
  create r id now t = elim (validate r id now) [
    | failed e ↦ failed e
    | ok s ↦
        if any (has_id id) t.suppressions
        then failed taken_identifier
        else ok (
            log s created (actor_name r) now (record t { suppressions = t.suppressions ++ s ∷ [] }))
  ]

  -- `false` with the same tables when there is no such suppression.
  unfoldable pub delete : String → String → ℕ → Tables → Result (Tables × Bool)
  delete suppression_id actor now t =
      let key = lib.slice 128 suppression_id in
      let clean = lib.strip actor in
      if clean == "" || ltb 128 (lib.len clean)
      then failed invalid_actor
      else elim (first (has_id key) t.suppressions) [
        | none ↦ ok (t, false)
        | some s ↦ ok (
          log s deleted clean now
              (record t { suppressions = keep (λ x. not (has_id key x)) t.suppressions }),
          true,
        )
      ]

-- `source_ip IS NULL OR source_ip=''`
abbrev pub is_global : Suppression → Bool
is_global s = elim s.source_ip [ none ↦ true | some ip ↦ ip == "" ]

abbrev pub in_force : String → String → ℕ → Suppression → Bool
in_force rule source_ip now s =
    (s.rule_id == rule && (ltb now s.expires_at && is_global s))
    || (s.rule_id == rule
        && (ltb now s.expires_at && elim s.source_ip [ none ↦ false | some ip ↦ ip == source_ip ]))

-- Suppressions of a source come before those of all sources, then the earliest expiry and the id.
abbrev pub preferred : Suppression → Suppression → Bool
preferred a b =
    (not (is_global a) && is_global b)
    || ((is_global a || not (is_global b))
        && (ltb a.expires_at b.expires_at
            || (nat_beq a.expires_at b.expires_at && is_lt (compare a.id b.id))))

unfoldable pub match_finding : String → String → ℕ → Tables → Option Suppression
unfolding order_by insert_by
match_finding rule source_ip now t =
    if is_rule rule
    then first (λ s. true) (order_by preferred (keep (in_force rule source_ip now) t.suppressions))
    else none

abbrev pub expires_desc : Suppression → Suppression → Bool
expires_desc a b =
    ltb b.expires_at a.expires_at
    || (nat_beq a.expires_at b.expires_at && is_lt (compare b.id a.id))

-- The rows of `list`, each with its `active` mark.
unfoldable pub list_suppressions : Bool → ℕ → ℕ → Tables → List (Suppression × Bool)
unfolding order_by insert_by
list_suppressions active_only limit now t =
    map (λ s. (s, ltb now s.expires_at))
      (take (max 1 (min limit 500)) (
        order_by expires_desc (keep (λ s. not active_only || ltb now s.expires_at) t.suppressions)))
