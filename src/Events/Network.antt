-- ===== src/Events/Network.antt =====
-- The network evidence of an event: validate_network_evidence of aegis_nexus/network_evidence.py, which
-- also writes the integers back.
use aegis_nexus.Common.{
  ℕ, Bool, true, false, not, ◌&&◌, ◌||◌, leb, if◌then◌else◌, some, List, [], ◌∷◌, String, ◌==◌,
  string_eq,
}
use aegis_nexus.Common.Json.{
  pos, Json, null, bool, int, str, array, object, Fields, lookup, set_key, is_null,
}
use aegis_nexus.Common.Python.{Python}
use aegis_nexus.Common.Result.{Result, ok, raise, ◌>>=◌, ◌>>◌, need}
use aegis_nexus.Common.Sets.{elem}

-- The messages; a list or dictionary that is looked up in a set is a TypeError instead.
pub data NetworkError : Type 0 where
  must_be_an_object : String → NetworkError
  unsupported_schema_version : NetworkError
  invalid : String → NetworkError
  must_be_a_non_negative_integer : String → NetworkError
  unhashable : NetworkError

abbrev pub network_sources : List String
network_sources = "sensor_socket" ∷ "http_request" ∷ "suricata_eve" ∷ []

abbrev pub capture_layers : List String
capture_layers = "application" ∷ "transport" ∷ "ids_flow" ∷ []

abbrev pub completeness : List String
completeness = "partial" ∷ "complete_for_source" ∷ []

-- `value in allowed` of a set of texts.
abbrev pub in_set : Json → List String → Result NetworkError Bool
in_set (str s) allowed = ok (elem s allowed)
in_set (array vs) allowed = raise unhashable
in_set (object fs) allowed = raise unhashable
in_set _ allowed = ok false

-- `value not in (None, "")`
abbrev pub is_given : Json → Bool
is_given null = false
is_given (str s) = not (s == "")
is_given _ = true

abbrev pub is_version : Json → Bool
is_version (str s) = s == "1.0"
is_version _ = false

abbrev pub is_object : Json → Bool
is_object (object fs) = true
is_object _ = false

module _ (py : Python) where
  unfoldable pub non_negative_int : Json → String → Result NetworkError ℕ
  non_negative_int (bool b) field = raise (must_be_a_non_negative_integer field)
  non_negative_int value field = elim (py.int_of value) [
    | some (pos n) ↦ ok n
    | _ ↦ raise (must_be_a_non_negative_integer field)
  ]

  abbrev pub set_port : String → Fields → Result NetworkError Fields
  set_port field fs =
      if is_given (lookup field fs)
      then (non_negative_int (lookup field fs) field >>= λ port.
          need (leb 1 port && leb port 65535) (invalid field)
          >> ok (set_key field (int (pos port)) fs))
      else ok fs

  abbrev pub set_count : String → Fields → Result NetworkError Fields
  set_count field fs =
      if is_given (lookup field fs)
      then (non_negative_int (lookup field fs) field >>= λ n. ok (set_key field (int (pos n)) fs))
      else ok fs

  unfoldable pub set_counts : List String → Fields → Result NetworkError Fields
  set_counts [] fs = ok fs
  set_counts (field ∷ fields) fs = set_count field fs >>= λ gs. set_counts fields gs

  abbrev pub connection_fields : List String
  connection_fields =
      "duration_ms" ∷ "bytes_in" ∷ "bytes_out" ∷ "bytes_to_server" ∷ "bytes_to_client"
      ∷ "packets_in" ∷ "packets_out" ∷ "packets_to_server" ∷ "packets_to_client" ∷ []

  -- `transport` and `connection` are the values of these keys.
  abbrev pub set_transport : Json → Fields → Result NetworkError Fields
  set_transport null value = ok value
  set_transport (object transport) value = set_port "source_port" transport >>= λ t.
      set_port "destination_port" t >>= λ u. ok (set_key "transport" (object u) value)
  set_transport _ value = raise (must_be_an_object "transport")

  abbrev pub set_connection : Json → Fields → Result NetworkError Fields
  set_connection null value = ok value
  set_connection (object connection) value =
      set_counts connection_fields connection >>= λ c. ok (set_key "connection" (object c) value)
  set_connection _ value = raise (must_be_an_object "connection")

  abbrev pub need_object : String → Fields → Result NetworkError (Unit {0})
  need_object field value =
      need (is_null (lookup field value) || is_object (lookup field value))
        (must_be_an_object field)

  abbrev pub need_in : String → List String → Fields → Result NetworkError (Unit {0})
  need_in field allowed value =
      in_set (lookup field value) allowed >>= λ there. need there (invalid field)

  unfoldable pub validate_network_evidence : Json → Result NetworkError Json
  validate_network_evidence (object value) =
      need (is_version (lookup "schema_version" value)) unsupported_schema_version
      >> need_in "source" network_sources value
      >> need_in "capture_layer" capture_layers value
      >> need_in "completeness" completeness value
      >> set_transport (lookup "transport" value) value
      >>= λ v. set_connection (lookup "connection" v) v >>= λ w.
          need_object "http" w >> need_object "tls" w >> need_object "dns" w >> ok (object w)
  validate_network_evidence _ = raise (must_be_an_object "network")
