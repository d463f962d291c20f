-- ===== src/Sequence/Validate.antt =====
-- The validation of sequences in events and heartbeats: validate_event_sequence and
-- validate_heartbeat_sequence of aegis_nexus/sensor_sequence.py.
use Prim.Native.String.{count}
use aegis_nexus.Common.{
  ℕ, suc, Bool, false, not, ◌&&◌, ◌||◌, leb, nat_beq, if◌then◌else◌, Option, none, some, String,
  ◌==◌, string_eq,
}
use aegis_nexus.Common.Json.{
  pos, negsuc, Json, null, bool, int, float, str, object, Fields, end, field, lookup, has_key,
}
use aegis_nexus.Common.Text.{any_char}
use aegis_nexus.Common.Result.{Result, ok, raise, ◌>>=◌, ◌>>◌, need}
use aegis_nexus.Sequence.{max_sequence}

pub data SensorSequenceError : Type 0 where
  must_be_an_integer : String → SensorSequenceError
  out_of_range : String → SensorSequenceError
  invalid : String → SensorSequenceError
  must_contain_exactly : String → SensorSequenceError

abbrev pub is_stream_char : ℕ → Bool
is_stream_char c =
    (leb 65 c && leb c 90)
    || (leb 97 c && leb c 122)
    || (leb 48 c && leb c 57)
    || nat_beq c 95
    || nat_beq c 45

-- `[A-Za-z0-9_-]{16,64}`
abbrev pub is_stream_id : String → Bool
is_stream_id s =
    leb 16 (count s) && leb (count s) 64 && not (any_char (λ c. not (is_stream_char c)) s)

unfoldable pub sequence_number : Json → String → Result SensorSequenceError ℕ
sequence_number (int (pos n)) name =
    need (leb 1 n && leb n max_sequence) (out_of_range name) >> ok n
sequence_number (int (negsuc n)) name = raise (out_of_range name)
sequence_number _ name = raise (must_be_an_integer name)

unfoldable pub stream_id : Json → String → Result SensorSequenceError String
stream_id (str s) name = need (is_stream_id s) (invalid name) >> ok s
stream_id _ name = raise (invalid name)

abbrev pub field_total : Fields → ℕ
field_total end = 0
field_total (field k v fs) = suc (field_total fs)

-- `set(value) == {first, second}` of a dictionary.
abbrev pub has_exactly : String → String → Fields → Bool
has_exactly first second fs = nat_beq (field_total fs) 2 && has_key first fs && has_key second fs

unfoldable pub validate_event_sequence : Json → Result SensorSequenceError (String × ℕ)
validate_event_sequence (object fs) =
    need (has_exactly "stream_id" "sequence" fs) (must_contain_exactly "sensor_sequence")
    >> stream_id (lookup "stream_id" fs) "stream_id"
    >>= λ id. sequence_number (lookup "sequence" fs) "sequence" >>= λ n. ok (id, n)
validate_event_sequence _ = raise (must_contain_exactly "sensor_sequence")

-- `value == 0`, which is true of False and of 0.0 as well.
abbrev pub equals_zero : Json → Bool
equals_zero (int (pos n)) = nat_beq n 0
equals_zero (bool b) = not b
equals_zero (float r) = r == "0.0" || r == "-0.0"
equals_zero _ = false

-- The sequence is kept as the value it is.
unfoldable pub last_sequence : Json → Result SensorSequenceError Json
last_sequence value =
    if equals_zero value
    then ok value
    else (sequence_number value "last_sequence" >>= λ n. ok (int (pos n)))

unfoldable pub validate_heartbeat_sequence :
    Json → Result SensorSequenceError (Option (String × Json))
validate_heartbeat_sequence null = ok none
validate_heartbeat_sequence (object fs) =
    need (has_exactly "stream_id" "last_sequence" fs) (must_contain_exactly "event_sequence")
    >> last_sequence (lookup "last_sequence" fs)
    >>= λ last. stream_id (lookup "stream_id" fs) "stream_id" >>= λ id. ok (some (id, last))
validate_heartbeat_sequence _ = raise (must_contain_exactly "event_sequence")
