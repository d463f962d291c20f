-- ===== src/Detection/Events.antt =====
-- What the rules read of an event, and the window of earlier events: aegis_nexus/detection.py.
-- An event is a dictionary as it is stored.
use Prim.Native.String
use Prim.Native.String.{compare}
use text.Mathlib.Text.{is_le}
use aegis_nexus.Common.{
  ℕ, ◌-◌, ◌*◌, Bool, false, not, ◌&&◌, ◌||◌, leb, if◌then◌else◌, Option, none, some, List, [], ◌∷◌,
  ◌++◌, keep, String, ◌==◌, string_eq,
}
use aegis_nexus.Common.Json.{
  ℤ, pos, negsuc, Json, null, bool, str, object, end, lookup, get_key, is_null, or_else,
}
use aegis_nexus.Common.Text.{slice}
use aegis_nexus.Common.Python.{Python, str_of}
use aegis_nexus.Common.Order.{order_by, insert_by}
use aegis_nexus.Common.Sets.{elem}

abbrev pub is_text : String → Json → Bool
is_text s (str t) = t == s
is_text s _ = false

abbrev pub has_type : String → Json → Bool
has_type type e = is_text type (get_key "event_type" e)

-- `value if isinstance(value, dict) else {}`
abbrev pub dict_or_empty : Json → Json
dict_or_empty (object fs) = object fs
dict_or_empty _ = object end

unfoldable pub observed : Json → Json
unfolding lookup
observed e = dict_or_empty (get_key "observed" e)

unfoldable pub credential : Json → Json
unfolding observed lookup
credential e = dict_or_empty (get_key "credential" (observed e))

-- A port, when it is in range.
abbrev pub port_of : ℤ → Option ℕ
port_of (pos n) = if leb 1 n && leb n 65535 then some n else none
port_of (negsuc n) = none

module _ (py : Python) where
  abbrev pub lower_text : Json → String
  lower_text (str s) = py.lower s
  lower_text _ = ""

  unfoldable pub command_text : Json → String
  unfolding observed lookup
  command_text e = lower_text (get_key "command" (observed e))

  abbrev pub parse_timestamp : Json → Option ℕ
  parse_timestamp (str s) = if s == "" then none else py.timestamp s
  parse_timestamp _ = none

  abbrev pub text_or_empty : Json → String
  text_or_empty v = str_of py (or_else v (str ""))

  unfoldable pub source_ip : Json → String
  unfolding observed lookup
  source_ip e = text_or_empty (or_else (get_key "source_ip" e) (get_key "source_ip" (observed e)))

  abbrev pub is_false : Json → Bool
  is_false (bool b) = not b
  is_false _ = false

  unfoldable pub credential_fingerprint : Json → String
  unfolding credential lookup
  credential_fingerprint e =
      if is_false (get_key "password_complete" (credential e))
      then text_or_empty (get_key "sensor_reported_password_sha256" (credential e))
      else text_or_empty (get_key "password_sha256" (credential e))

  -- `str(value) if value is not None else ""`
  abbrev pub text_unless_none : Json → String
  text_unless_none null = ""
  text_unless_none v = str_of py v

  unfoldable pub path : Json → String
  unfolding observed lookup
  path e = text_unless_none (get_key "path" (observed e))

  -- `" ".join` of the two values that are there.
  abbrev pub join_two : Json → Json → String
  join_two null null = ""
  join_two null b = str_of py b
  join_two a null = str_of py a
  join_two a b = String.◌++◌ (str_of py a) (String.◌++◌ " " (str_of py b))

  unfoldable pub payload_text : Json → String
  unfolding observed lookup
  payload_text e =
      py.lower (join_two (get_key "path" (observed e)) (get_key "payload" (observed e)))

  unfoldable pub destination_port : Json → Option ℕ
  unfolding observed lookup
  destination_port e =
      let own = get_key "destination_port" e in
      elim (py.int_of (if is_null own then get_key "destination_port" (observed e) else own)) [
        | none ↦ none
        | some n ↦ port_of n
      ]

  unfoldable pub service : Json → String
  unfolding observed lookup
  service e =
      py.lower (text_or_empty (or_else (get_key "service" e) (get_key "service" (observed e))))

  unfoldable pub event_id : Json → String
  unfolding lookup slice
  event_id e = slice 128 (text_or_empty (get_key "id" e))

  -- The loop of `_dedupe_events`.
  unfoldable pub dedupe_from : List String → List Json → List Json
  dedupe_from seen [] = []
  dedupe_from seen (e ∷ events) =
      let skipped = dedupe_from seen events in
      let taken = dedupe_from (event_id e ∷ seen) events in
      if event_id e == "" || elem (event_id e) seen then skipped else e ∷ taken

  unfoldable pub dedupe_events : List Json → List Json
  unfolding dedupe_from
  dedupe_events events = dedupe_from [] events

  -- The tests of the loop of `_window`; a time is in microseconds.
  unfoldable pub in_window : ℕ → String → ℕ → Bool → Json → Bool
  unfolding source_ip lookup
  in_window anchor source seconds same_source e = elim (parse_timestamp (get_key "timestamp" e)) [
    | none ↦ false
    | some at ↦
        (leb at anchor && leb (anchor - at) (seconds * 1000000))
        && not (same_source && (not (source == "") && not (source_ip e == source)))
  ]

  abbrev pub not_later : Json → Json → Bool
  not_later a b =
      is_le
        (compare (text_or_empty (get_key "timestamp" a)) (text_or_empty (get_key "timestamp" b)))

  unfoldable pub window : Json → List Json → ℕ → Bool → List Json
  unfolding dedupe_events in_window order_by insert_by lookup
  window event context seconds same_source = elim (parse_timestamp (get_key "timestamp" event)) [
    | none ↦ event ∷ []
    | some anchor ↦ order_by not_later (
        keep (in_window anchor (source_ip event) seconds same_source)
          (dedupe_events (context ++ event ∷ [])))
  ]
