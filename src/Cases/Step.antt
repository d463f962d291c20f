-- ===== src/Cases/Step.antt =====
-- The case operations as steps, and what holds of the tables of cases that they reach.
use aegis_nexus.Common.{
  ℕ, ◌≤◌, Bool, true, Option, none, some, List, [], length, String, string_eq, ◌≡◌, refl, arith,
}
use aegis_nexus.Common.Json.{Json}
use aegis_nexus.Common.Python.{Python}
use aegis_nexus.Common.Result.{ok}
use aegis_nexus.Casework.{
  CaseData, CaseUpdate, normalize_case_create, normalize_case_update, normalize_evidence,
  normalize_note,
}
use aegis_nexus.Casework.Valid.{AreTags, normalize_case_create-IsValid}
use aegis_nexus.Casework.Updates.{Given, normalize_case_update-IsValid}
use aegis_nexus.Cases.Data.{Tables, Telemetry}
use aegis_nexus.Cases.{
  Bounds, prune_cases, insert_case, delete_case, update_case, add_case_evidence,
  remove_case_evidence, add_case_note,
}
use aegis_nexus.Cases.Invariant.{IsConsistent}
use aegis_nexus.Cases.Creation.{prune_cases-IsConsistent, insert_case-IsConsistent}
use aegis_nexus.Cases.Operations.{
  delete_case-IsConsistent, update_case-IsConsistent, add_case_evidence-IsConsistent,
  remove_case_evidence-IsConsistent, add_case_note-IsConsistent,
}

-- One transaction of a call, whatever it answers, on a payload that the validation accepts; the reads
-- of the call before it were of the tables `seen`. The two transactions of `create_case` are two steps.
pub data Step (py : Python) (b : Bounds) (seen : ℕ → Tables) : Tables → Tables → Type 0 where
  pruned : (now : ℕ) {t : Tables} → Step py b seen t (prune_cases b now t)
  created_case :
      (payload : Json) (d : CaseData) (fresh : String) (now logged_at : ℕ) {t : Tables}
      → normalize_case_create py payload ≡ ok d
      → Step py b seen t (insert_case b fresh d now logged_at t).0
  deleted_case : (id : String) {t : Tables} → Step py b seen t (delete_case id seen t).0
  updated_case :
      (payload : Json) (u : CaseUpdate) (id : String) (now logged_at : ℕ) {t : Tables}
      → normalize_case_update py payload ≡ ok u
      → Step py b seen t (update_case id u now logged_at seen t).0
  added_evidence :
      (telemetry : Telemetry) (payload : Json) (type evidence_id id : String) (now logged_at : ℕ)
      {t : Tables}
      → normalize_evidence py payload ≡ ok (type, evidence_id)
      → Step py b seen t (add_case_evidence telemetry id type evidence_id now logged_at seen t).0
  removed_evidence :
      (id : String) (row_id now logged_at : ℕ) {t : Tables}
      → Step py b seen t (remove_case_evidence id row_id now logged_at seen t).0
  noted :
      (payload : Json) (body id : String) (now logged_at : ℕ) {t : Tables}
      → normalize_note py payload ≡ ok body
      → Step py b seen t (add_case_note id body now logged_at seen t).0

abbrev pub empty : Tables
empty = record {
  cases = [];
  tags = [];
  evidence = [];
  notes = [];
  history = [];
  last_evidence = 0;
  last_note = 0;
  last_entry = 0;
}

-- Steps of any connections in any order. With `serial`, a call reads the tables that it writes to, so
-- that the calls come one after another; else it may have read any tables.
pub data IsReachable (py : Python) (serial : Bool) (b : Bounds) : Tables → Type 0 where
  start : IsReachable py serial b empty
  next :
      (seen : ℕ → Tables) {t t' : Tables}
      → (serial ≡ true → (i : ℕ) → seen i ≡ t)
      → IsReachable py serial b t
      → Step py b seen t t'
      → IsReachable py serial b t'

update_few :
    (fold : String → String) (o : Option (List String))
    → Given (AreTags fold) o
    → Given (λ ns. length ns ≤ 20) o
update_few fold none h = tt
update_few fold (some ns) h = h.few

empty-IsConsistent : (serial : Bool) (b : Bounds) → IsConsistent serial b empty
empty-IsConsistent serial b = record {
  capacity = omega arith;
  one_row = λ id. omega arith;
  rows = tt;
  few_tags = λ id. omega arith;
  few_evidence = λ s id. omega arith;
  few_notes = λ s id. omega arith;
  one_reference = λ id type evidence_id. omega arith;
  owned = λ id absent. record { tags = refl; evidence = refl; notes = refl; history = refl };
}

module _ (py : Python) (serial : Bool) (b : Bounds) where
  Step-IsConsistent :
      (seen : ℕ → Tables) (t t' : Tables)
      → (serial ≡ true → (i : ℕ) → seen i ≡ t)
      → Step py b seen t t'
      → IsConsistent serial b t
      → IsConsistent serial b t'
  Step-IsConsistent seen t t' alone (pruned now) c = prune_cases-IsConsistent serial b t c now
  Step-IsConsistent seen t t' alone (created_case payload d fresh now logged_at h) c =
      let valid = normalize_case_create-IsValid py payload d h in
      insert_case-IsConsistent serial b t c fresh d now logged_at valid.status valid.tags.few
  Step-IsConsistent seen t t' alone (deleted_case id) c =
      delete_case-IsConsistent serial b seen t alone c id
  Step-IsConsistent seen t t' alone (updated_case payload u id now logged_at h) c =
      let valid = normalize_case_update-IsValid py payload u h in
      update_case-IsConsistent serial b seen t alone c id u now logged_at valid.status
        (update_few py.casefold u.tags valid.tags) valid.some_field
  Step-IsConsistent seen t t' alone (added_evidence tel payload type eid id now logged_at h) c =
      add_case_evidence-IsConsistent serial b seen t alone c tel id type eid now logged_at
  Step-IsConsistent seen t t' alone (removed_evidence id row_id now logged_at) c =
      remove_case_evidence-IsConsistent serial b seen t alone c id row_id now logged_at
  Step-IsConsistent seen t t' alone (noted payload body id now logged_at h) c =
      add_case_note-IsConsistent serial b seen t alone c id body now logged_at

  -- In the tables that transactions of the case operations on accepted payloads reach from empty ones,
  -- in any order and whatever the calls read before, there are at most max_cases cases, no two with
  -- one identifier, each with a status of the list; a case has at most 20 tags and refers to nothing
  -- twice; and no tag, evidence, note or history entry is left of a case that is not there. When each
  -- call reads the tables that it writes to, also a case has a time of closing exactly where it is
  -- closed, at most 1000 pieces of evidence and at most 500 notes.
  pub IsReachable-IsConsistent : (t : Tables) → IsReachable py serial b t → IsConsistent serial b t
  IsReachable-IsConsistent t start = empty-IsConsistent serial b
  IsReachable-IsConsistent t (next seen {t = before} alone r step) =
      Step-IsConsistent seen before t alone step (IsReachable-IsConsistent before r)
