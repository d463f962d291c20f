-- ===== src/Cases.antt =====
-- The case operations of aegis_nexus/store.py on the tables of cases. An operation reads before its
-- transaction begins, each SELECT for itself, so that other connections may write in between: its read
-- number i is of the tables `seen i`, and its writes are one transaction on the tables `t`. Where no
-- other call comes in between, every `seen i` is `t`. A transaction that raises leaves `t`.
use aegis_nexus.Common.{
  ℕ, suc, ◌+◌, ◌*◌, Bool, true, false, not, ◌&&◌, ltb, leb, nat_beq, is_none, if◌then◌else◌, Option,
  none, some, List, [], ◌∷◌, ◌++◌, keep, any, first, length, String, ◌==◌, string_eq,
}
use aegis_nexus.Common.Dict.{get}
use aegis_nexus.Common.Rows.{update_where}
use aegis_nexus.Common.Result.{Result, ok, raise}
use aegis_nexus.Casework.{CaseData, CaseUpdate, is_empty_update}
pub mod Data
pub mod Views
pub mod Invariant
pub mod Columns
pub mod Children
pub mod Creation
pub mod Operations
pub mod Step
pub mod Changes
pub mod Kept
pub mod Trail
pub mod Lifecycle
pub mod Reports
mod Tests
use Data.{
  Case, Tag, Evidence, Note, Tables, Telemetry, created, updated, evidence_added, evidence_removed,
  note_added, has_id, is_closed, delete_where, case_log, add_tags, touch,
}

-- max_cases and case_retention_days of the store.
pub record Bounds : Type 0 where
  pub max_cases : ℕ
  pub retention_days : ℕ

pub data CaseError : Type 0 where
  case_capacity : CaseError
  case_evidence_limit : CaseError
  case_note_limit : CaseError
  evidence_not_found : CaseError
  taken_identifier : CaseError
  foreign_key : CaseError

-- What a call answers: nothing where there is no such case, else the identifier of the case that it
-- gives back.
abbrev pub Answer : Type 0
Answer = Result CaseError (Option String)

abbrev pub day : ℕ
day = 24 * 60 * 60 * 1000000

-- Closed for longer than the days of retention.
abbrev pub is_expired : ℕ → ℕ → Case → Bool
is_expired days now c =
    is_closed c && elim c.closed_at [ none ↦ false | some at ↦ ltb (at + days * day) now ]

unfoldable pub prune_cases : Bounds → ℕ → Tables → Tables
prune_cases b now t =
    if leb b.retention_days 0 then t else delete_where (is_expired b.retention_days now) t

abbrev pub new_case : String → CaseData → ℕ → Case
new_case id d now = record {
  id = id;
  title = d.title;
  status = d.status;
  severity = d.severity;
  summary = d.summary;
  created_at = now;
  updated_at = now;
  closed_at = if d.status == "closed" then some now else none;
}

-- The transaction of `create_case`: one statement tests the capacity and inserts. `case_id` is the
-- fresh identifier; the clock is read at the insertion and for the history.
unfoldable pub insert_case : Bounds → String → CaseData → ℕ → ℕ → Tables → Tables × Answer
insert_case b case_id d now logged_at t =
    if ltb (length t.cases) b.max_cases
    then if any (has_id case_id) t.cases then (t, raise taken_identifier) else (
      case_log case_id (created d.status d.severity) logged_at (record t {
        cases = t.cases ++ new_case case_id d now ∷ [];
        tags = add_tags case_id d.tags t.tags;
      }),
      ok (some case_id),
    )
    else (t, raise case_capacity)

-- Where no other call comes between the deletion, a transaction of its own, and the insertion.
unfoldable pub create_case : Bounds → String → CaseData → ℕ → ℕ → ℕ → Tables → Tables × Answer
unfolding insert_case
create_case b case_id d pruned_at now logged_at t =
    insert_case b case_id d now logged_at (prune_cases b pruned_at t)

pub data Deletion : Type 0 where
  not_found : Deletion
  case_not_closed : Deletion
  deleted : Deletion

-- The DELETE names the identifier only, not the status that was read.
unfoldable pub delete_case : String → (ℕ → Tables) → Tables → Tables × Deletion
delete_case case_id seen t = elim (first (has_id case_id) (seen 0).cases) [
  | none ↦ (t, not_found)
  | some c ↦
      if is_closed c then (delete_where (has_id case_id) t, deleted) else (t, case_not_closed)
]

abbrev pub or_old {ℓ} : {A : Type ℓ} → Option A → A → A
or_old none old = old
or_old (some new) old = new

-- Closing sets the time, unless the case was closed; opening a closed case clears it.
abbrev pub closed_after : Case → Option String → ℕ → Option ℕ → Option ℕ
closed_after existing none now at = at
closed_after existing (some status) now at =
    if status == "closed" && not (is_closed existing)
    then some now
    else if not (status == "closed") && is_closed existing
    then none
    else at

abbrev pub set_columns : Case → CaseUpdate → ℕ → Case → Case
set_columns existing u now c = record c {
  title = or_old u.title c.title;
  summary = or_old u.summary c.summary;
  status = or_old u.status c.status;
  severity = or_old u.severity c.severity;
  closed_at = closed_after existing u.status now c.closed_at;
  updated_at = now;
}

-- Some column of the case itself is set.
abbrev pub has_columns : CaseUpdate → Bool
has_columns u = not (is_none u.title && is_none u.summary && is_none u.status && is_none u.severity)

abbrev pub set_tags : String → Option (List String) → List Tag → List Tag
set_tags id none rows = rows
set_tags id (some names) rows = add_tags id names (keep (λ r. not (r.case_id == id)) rows)

-- The row of the history names the case, so that a transaction on a case that is gone raises.
abbrev pub when_there : String → Tables → Tables → Tables × Answer
when_there case_id t changed =
    if any (has_id case_id) t.cases then (changed, ok (some case_id)) else (t, raise foreign_key)

unfoldable pub update_case : String → CaseUpdate → ℕ → ℕ → (ℕ → Tables) → Tables → Tables × Answer
update_case case_id u now logged_at seen t = elim (first (has_id case_id) (seen 0).cases) [
  | none ↦ (t, ok none)
  | some existing ↦
      if is_empty_update u
      then (t, ok (some case_id))
      else when_there case_id t (
          case_log case_id (updated u) logged_at (record t {
            cases =
                if has_columns u
                then update_where (has_id case_id) (set_columns existing u now) t.cases
                else touch case_id now t.cases;
            tags = set_tags case_id u.tags t.tags;
          }))
]

abbrev pub same_evidence : String → String → String → Evidence → Bool
same_evidence id type evidence_id r =
    r.case_id == id && r.evidence_type == type && r.evidence_id == evidence_id

abbrev pub of_case_evidence : String → Evidence → Bool
of_case_evidence id r = r.case_id == id

abbrev pub of_case_note : String → Note → Bool
of_case_note id r = r.case_id == id

unfoldable pub is_available : Telemetry → String → String → Bool
is_available telemetry type id =
    if type == "event"
    then not (is_none (get telemetry.events id))
    else if type == "session"
    then not (is_none (get telemetry.sessions id))
    else if type == "alert"
    then not (is_none (get telemetry.alerts id))
    else false

-- INSERT OR IGNORE passes over a reference that is there by now, and then nothing else is written.
abbrev pub insert_evidence : String → String → String → ℕ → ℕ → Tables → Tables × Answer
insert_evidence case_id type evidence_id now logged_at t =
    if any (same_evidence case_id type evidence_id) t.evidence
    then (t, ok (some case_id))
    else when_there case_id t (
        case_log case_id (evidence_added type evidence_id) logged_at (record t {
          cases = touch case_id now t.cases;
          evidence =
              t.evidence
              ++ record {
                id = suc t.last_evidence;
                case_id = case_id;
                evidence_type = type;
                evidence_id = evidence_id;
                added_at = now;
              }
                ∷ [];
          last_evidence = suc t.last_evidence;
        }))

unfoldable pub add_case_evidence :
    Telemetry → String → String → String → ℕ → ℕ → (ℕ → Tables) → Tables → Tables × Answer
add_case_evidence telemetry case_id type evidence_id now logged_at seen t =
    if any (has_id case_id) (seen 0).cases
    then if any (same_evidence case_id type evidence_id) (seen 1).evidence
      then (t, ok (some case_id))
      else if leb 1000 (length (keep (of_case_evidence case_id) (seen 2).evidence))
      then (t, raise case_evidence_limit)
      else if is_available telemetry type evidence_id
      then insert_evidence case_id type evidence_id now logged_at t
      else (t, raise evidence_not_found)
    else (t, ok none)

abbrev pub evidence_row : ℕ → String → Evidence → Bool
evidence_row row_id id r = nat_beq r.id row_id && r.case_id == id

unfoldable pub remove_case_evidence : String → ℕ → ℕ → ℕ → (ℕ → Tables) → Tables → Tables × Answer
remove_case_evidence case_id row_id now logged_at seen t =
    if any (has_id case_id) (seen 0).cases
    then elim (first (evidence_row row_id case_id) (seen 1).evidence) [
      | none ↦ (t, raise evidence_not_found)
      | some r ↦ when_there case_id t (
          case_log case_id (evidence_removed r.evidence_type r.evidence_id) logged_at (record t {
            cases = touch case_id now t.cases;
            evidence = keep (λ e. not (evidence_row row_id case_id e)) t.evidence;
          }))
    ]
    else (t, ok none)

unfoldable pub add_case_note : String → String → ℕ → ℕ → (ℕ → Tables) → Tables → Tables × Answer
add_case_note case_id body now logged_at seen t =
    if any (has_id case_id) (seen 0).cases
    then if leb 500 (length (keep (of_case_note case_id) (seen 1).notes))
      then (t, raise case_note_limit)
      else when_there case_id t (
          case_log case_id (note_added (suc t.last_note)) logged_at (record t {
            cases = touch case_id now t.cases;
            notes =
                t.notes
                ++ record { id = suc t.last_note; case_id = case_id; body = body; created_at = now }
                  ∷ [];
            last_note = suc t.last_note;
          }))
    else (t, ok none)
