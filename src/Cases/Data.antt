-- ===== src/Cases/Data.antt =====
-- The tables of cases in aegis_nexus/migrations.py, and what the case operations of
-- aegis_nexus/store.py do to them. A time is the microseconds that its text stands for; the texts of
-- one zone sort as the times do.
use aegis_nexus.Common.{
  ℕ, suc, Bool, not, ◌&&◌, Option, List, [], ◌∷◌, ◌++◌, keep, any, String, ◌==◌, string_eq,
}
use aegis_nexus.Common.Rows.{update_where, insert_or_ignore}
use aegis_nexus.Common.Dict.{Dict}
use aegis_nexus.Common.Json.{Fields}
use aegis_nexus.Casework.{CaseUpdate}

pub record Case : Type 0 where
  pub id : String
  pub title : String
  pub status : String
  pub severity : String
  pub summary : String
  pub created_at : ℕ
  pub updated_at : ℕ
  pub closed_at : Option ℕ

pub record Tag : Type 0 where
  pub case_id : String
  pub tag : String

pub record Evidence : Type 0 where
  pub id : ℕ
  pub case_id : String
  pub evidence_type : String
  pub evidence_id : String
  pub added_at : ℕ

pub record Note : Type 0 where
  pub id : ℕ
  pub case_id : String
  pub body : String
  pub created_at : ℕ

-- An action of the history with its JSON detail.
pub data Action : Type 0 where
  created : String → String → Action
  updated : CaseUpdate → Action
  evidence_added : String → String → Action
  evidence_removed : String → String → Action
  note_added : ℕ → Action

pub record Entry : Type 0 where
  pub id : ℕ
  pub case_id : String
  pub timestamp : ℕ
  pub action : Action

pub record Tables : Type 0 where
  pub cases : List Case
  pub tags : List Tag
  pub evidence : List Evidence
  pub notes : List Note
  pub history : List Entry
  pub last_evidence : ℕ
  pub last_note : ℕ
  pub last_entry : ℕ

-- The rows that evidence may refer to, by their identifiers, with the columns that are selected.
pub record Telemetry : Type 0 where
  pub events : Dict String Fields
  pub sessions : Dict String Fields
  pub alerts : Dict String Fields

abbrev pub has_id : String → Case → Bool
has_id id c = c.id == id

abbrev pub is_closed : Case → Bool
is_closed c = c.status == "closed"

-- DELETE FROM cases, with the rows that the foreign keys delete.
unfoldable pub delete_where : (Case → Bool) → Tables → Tables
delete_where p t =
    let gone : String → Bool = λ id. any (λ c. p c && c.id == id) t.cases in
    record t {
      cases = keep (λ c. not (p c)) t.cases;
      tags = keep (λ r. not (gone r.case_id)) t.tags;
      evidence = keep (λ r. not (gone r.case_id)) t.evidence;
      notes = keep (λ r. not (gone r.case_id)) t.notes;
      history = keep (λ r. not (gone r.case_id)) t.history;
    }

abbrev pub case_log : String → Action → ℕ → Tables → Tables
case_log id action now t = record t {
  history =
      t.history
      ++ record { id = suc t.last_entry; case_id = id; timestamp = now; action = action } ∷ [];
  last_entry = suc t.last_entry;
}

abbrev pub same_tag : String → String → Tag → Bool
same_tag id name r = r.case_id == id && r.tag == name

unfoldable pub add_tags : String → List String → List Tag → List Tag
add_tags id [] rows = rows
add_tags id (name ∷ names) rows =
    add_tags id names
      (insert_or_ignore (same_tag id name) (record { case_id = id; tag = name }) rows)

abbrev pub touch : String → ℕ → List Case → List Case
touch id now cases = update_where (has_id id) (λ c. record c { updated_at = now }) cases
