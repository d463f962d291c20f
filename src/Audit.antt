-- ===== src/Audit.antt =====
-- The operator audit log of aegis_nexus/operator_audit.py. A text is the list of its code points,
-- and a timestamp the microseconds that its ISO text stands for.
use aegis_nexus.Common.{
  ℕ, suc, ◌+◌, ◌-◌, ◌*◌, Bool, true, false, not, ◌&&◌, ◌||◌, ltb, leb, nat_beq, if◌then◌else◌,
  Option, none, some, List, [], ◌∷◌, ◌++◌, map, keep, any, first, length, take, drop, is_empty, min,
  max,
}
use aegis_nexus.Common.Dict.{Dict, put}
use aegis_nexus.Common.Order.{order_by, insert_by}
use aegis_nexus.Common.{◌==◌, list_eq, nat_eq}
pub mod Retention
pub mod Sanitize
mod Tests

abbrev pub Text : Type 0
Text = List ℕ

abbrev pub is_control : ℕ → Bool
is_control c = leb c 31 || nat_beq c 127

abbrev pub strip_control : Text → Text
strip_control = keep (λ c. not (is_control c))

-- A value of a detail mapping; `other` is a value of any other type, by its `str`.
pub data Scalar : Type 0 where
  null : Scalar
  bool : Bool → Scalar
  number : Text → Scalar
  other : Text → Scalar

pub data Value : Type 0 where
  scalar : Scalar → Value
  list : List Scalar → Value

abbrev pub max_operator_len : ℕ
max_operator_len = 64

abbrev pub max_action_len : ℕ
max_action_len = 64

abbrev pub max_target_type_len : ℕ
max_target_type_len = 64

abbrev pub max_target_id_len : ℕ
max_target_id_len = 128

abbrev pub max_outcome_len : ℕ
max_outcome_len = 16

abbrev pub max_detail_keys : ℕ
max_detail_keys = 32

abbrev pub max_detail_value_len : ℕ
max_detail_value_len = 256

abbrev pub max_detail_list_items : ℕ
max_detail_list_items = 32

abbrev pub max_detail_bytes : ℕ
max_detail_bytes = 4000

-- "unknown"
abbrev pub unknown_operator : Text
unknown_operator = 117 ∷ 110 ∷ 107 ∷ 110 ∷ 111 ∷ 119 ∷ 110 ∷ []

-- "success"
abbrev pub success_outcome : Text
success_outcome = 115 ∷ 117 ∷ 99 ∷ 99 ∷ 101 ∷ 115 ∷ 115 ∷ []

-- "denied"
abbrev pub denied_outcome : Text
denied_outcome = 100 ∷ 101 ∷ 110 ∷ 105 ∷ 101 ∷ 100 ∷ []

-- "error"
abbrev pub error_outcome : Text
error_outcome = 101 ∷ 114 ∷ 114 ∷ 111 ∷ 114 ∷ []

-- "system"
abbrev pub system_operator : Text
system_operator = 115 ∷ 121 ∷ 115 ∷ 116 ∷ 101 ∷ 109 ∷ []

-- "truncated"
abbrev pub truncated_key : Text
truncated_key = 116 ∷ 114 ∷ 117 ∷ 110 ∷ 99 ∷ 97 ∷ 116 ∷ 101 ∷ 100 ∷ []

-- "pruned"
abbrev pub pruned_key : Text
pruned_key = 112 ∷ 114 ∷ 117 ∷ 110 ∷ 101 ∷ 100 ∷ []

-- "audit.retention_prune"
abbrev pub retention_prune_action : Text
retention_prune_action =
    97 ∷ 117 ∷ 100 ∷ 105 ∷ 116 ∷ 46 ∷ 114 ∷ 101 ∷ 116 ∷ 101 ∷ 110 ∷ 116 ∷ 105 ∷ 111 ∷ 110 ∷ 95 ∷ 112
    ∷ 114 ∷ 117 ∷ 110 ∷ 101 ∷ []

-- "operator_audit_log"
abbrev pub audit_target : Text
audit_target =
    111 ∷ 112 ∷ 101 ∷ 114 ∷ 97 ∷ 116 ∷ 111 ∷ 114 ∷ 95 ∷ 97 ∷ 117 ∷ 100 ∷ 105 ∷ 116 ∷ 95 ∷ 108 ∷ 111
    ∷ 103 ∷ []

-- What the code calls of str, re, json and ipaddress.
pub record Library : Type 0 where
  pub strip : Text → Text
  pub lower : Text → Text
  pub matches_action : Text → Bool
  pub ip_address : Text → Option Text
  pub dumps : Dict Text Value → Text
  pub utf8_length : Text → ℕ
  pub decimal : ℕ → Text

unfoldable pub sanitize_scalar : Scalar → Scalar
sanitize_scalar null = null
sanitize_scalar (bool b) = bool b
sanitize_scalar (number n) = number n
sanitize_scalar (other text) = other (take max_detail_value_len (strip_control text))

unfoldable pub sanitize_value : Value → Value
unfolding sanitize_scalar
sanitize_value (scalar s) = scalar (sanitize_scalar s)
sanitize_value (list items) = list (map sanitize_scalar (take max_detail_list_items items))

-- The loop over the first keys; a key that is not a text is `none`.
unfoldable pub sanitize_entries : List (Option Text × Value) → Dict Text Value → Dict Text Value
unfolding sanitize_value put
sanitize_entries [] clean = clean
sanitize_entries ((none, v) ∷ rest) clean = sanitize_entries rest clean
sanitize_entries ((some key, v) ∷ rest) clean =
    let safe_key = take 64 (strip_control key) in
    sanitize_entries rest
      (if is_empty safe_key then clean else put clean safe_key (sanitize_value v))

-- A row of operator_audit_log.
pub record Row : Type 0 where
  pub id : ℕ
  pub timestamp : ℕ
  pub operator : Text
  pub action : Text
  pub target_type : Text
  pub target_id : Text
  pub outcome : Text
  pub source_ip : Option Text
  pub detail : Text

-- The table and its AUTOINCREMENT counter.
pub record Log : Type 0 where
  pub rows : List Row
  pub last_id : ℕ

abbrev pub insert : (ℕ → Row) → Log → Log
insert row log = record { rows = log.rows ++ row (suc log.last_id) ∷ []; last_id = suc log.last_id }

-- The arguments of `record`.
pub record Entry : Type 0 where
  pub operator : Text
  pub action : Text
  pub target_type : Text
  pub target_id : Text
  pub detail : List (Option Text × Value)
  pub source_ip : Text
  pub outcome : Text

abbrev pub microseconds_per_day : ℕ
microseconds_per_day = 86400000000

module _ (lib : Library) where
  unfoldable pub sanitize_detail : List (Option Text × Value) → Dict Text Value
  unfolding sanitize_entries
  sanitize_detail detail =
      let clean = sanitize_entries (take max_detail_keys detail) [] in
      if ltb max_detail_bytes (lib.utf8_length (lib.dumps clean))
      then (truncated_key, scalar (bool true)) ∷ []
      else clean

  abbrev pub or_else : Text → Text → Text
  or_else value default = if is_empty value then default else value

  abbrev pub clean_action : Text → Text
  clean_action action = take max_action_len (lib.lower (lib.strip action))

  abbrev pub clean_operator : Text → Text
  clean_operator operator =
      or_else (take max_operator_len (strip_control (lib.strip operator))) unknown_operator

  abbrev pub clean_target : ℕ → Text → Text
  clean_target bound text = take bound (strip_control (lib.strip text))

  abbrev pub clean_outcome : Text → Text
  clean_outcome outcome =
      let clean = take max_outcome_len (lib.lower (lib.strip (or_else outcome success_outcome))) in
      if clean == success_outcome || (clean == denied_outcome || clean == error_outcome)
      then clean
      else success_outcome

  abbrev pub clean_source : Text → Option Text
  clean_source source_ip = if is_empty source_ip then none else lib.ip_address source_ip

  abbrev pub row_of : Entry → ℕ → ℕ → Row
  row_of e now id = record {
    id = id;
    timestamp = now;
    operator = clean_operator e.operator;
    action = clean_action e.action;
    target_type = clean_target max_target_type_len e.target_type;
    target_id = clean_target max_target_id_len e.target_id;
    outcome = clean_outcome e.outcome;
    source_ip = clean_source e.source_ip;
    detail = lib.dumps (sanitize_detail e.detail);
  }

  abbrev pub prune_row : ℕ → ℕ → ℕ → Row
  prune_row pruned now id = record {
    id = id;
    timestamp = now;
    operator = system_operator;
    action = retention_prune_action;
    target_type = audit_target;
    target_id = [];
    outcome = success_outcome;
    source_ip = none;
    detail = lib.dumps ((pruned_key, scalar (number (lib.decimal pruned))) ∷ []);
  }

  -- The rows that the age bound leaves.
  abbrev pub in_age : ℕ → Row → Bool
  in_age cutoff row = not (ltb row.timestamp cutoff) || row.action == retention_prune_action

  unfoldable pub expire : ℕ → ℕ → List Row → List Row
  expire retention_days now rows =
      if ltb 0 retention_days
      then keep (in_age (now - retention_days * microseconds_per_day)) rows
      else rows

  -- ORDER BY id ASC LIMIT: the rows are in the order of their ids.
  abbrev pub cap : ℕ → List Row → List Row
  cap max_rows rows = if ltb 0 max_rows then drop (length rows - max_rows) rows else rows

  -- `now` is the clock of the cutoff and `later` that of the prune row.
  unfoldable pub enforce_retention : ℕ → ℕ → ℕ → ℕ → Log → Log
  unfolding expire
  enforce_retention retention_days max_rows now later log =
      let left = cap max_rows (expire retention_days now log.rows) in
      let pruned = length log.rows - length left in
      let kept = record log { rows = left } in
      if ltb 0 pruned then insert (prune_row pruned later) kept else kept

  -- `none` is the error on an action of the wrong form.
  unfoldable pub record_entry : ℕ → ℕ → ℕ → ℕ → ℕ → Entry → Log → Option Log
  unfolding enforce_retention sanitize_detail
  record_entry retention_days max_rows at now later e log =
      if lib.matches_action (clean_action e.action)
      then some (enforce_retention retention_days max_rows now later (insert (row_of e at) log))
      else none

-- The filters of `list`; an empty text filters nothing.
pub record Filter : Type 0 where
  pub operator : Text
  pub action : Text
  pub target_type : Text
  pub target_id : Text

abbrev pub newer : Row → Row → Bool
newer a b = ltb b.id a.id

module _ (lib : Library) where
  abbrev pub passes : Text → Text → Text → Bool
  passes filter clean value = is_empty filter || value == clean

  abbrev pub matches : Filter → Row → Bool
  matches f row =
      passes f.operator (take max_operator_len (strip_control (lib.strip f.operator))) row.operator
      && (passes f.action (clean_action lib f.action) row.action
          && (passes f.target_type (clean_target lib max_target_type_len f.target_type)
                row.target_type
              && passes f.target_id (clean_target lib max_target_id_len f.target_id) row.target_id))

  unfoldable pub list_entries : ℕ → Filter → Log → List Row
  unfolding order_by insert_by
  list_entries limit f log =
      take (max 1 (min limit 1000)) (order_by newer (keep (matches f) log.rows))
