-- ===== src/Detection/Backtest.antt =====
-- The read-only replay of the rules: DetectionBacktester.run of aegis_nexus/detection_backtest.py.
-- Keys of the report with a constant value are left out.
use text.Mathlib.Text.{is_lt}
use Prim.Native.String.{compare}
use aegis_nexus.Common.{
  ℕ, ◌+◌, min, max, Bool, true, not, ◌&&◌, ◌||◌, ltb, if◌then◌else◌, Option, none, some, List, [],
  ◌∷◌, ◌++◌, keep, take, map, length, String, ◌==◌, string_eq,
}
use aegis_nexus.Common.Dict.{Dict, get, put}
use aegis_nexus.Common.Json.{ℤ, pos, negsuc, Json, str, get_key, or_else}
use aegis_nexus.Common.Order.{order_by}
use aegis_nexus.Common.Python.{Python, str_of}
use aegis_nexus.Common.Result.{Result, ok, ◌>>=◌}
use aegis_nexus.Alerts.{Finding}
use aegis_nexus.Detection.Config.{Config, ConfigError}
use aegis_nexus.Detection.Rules.{Honeytoken}
use aegis_nexus.Detection.Engine.{evaluate}

pub record Hit : Type 0 where
  pub event_id : Json
  pub timestamp : Json
  pub found : Finding

pub record Report : Type 0 where
  pub events_evaluated : ℕ
  pub truncated : Bool
  pub rule_hit_counts : Dict String ℕ
  pub total_hits : ℕ
  pub hits : List Hit
  pub hit_output_truncated : Bool

-- `max(1, min(max_events, 5000))`
abbrev pub bounded_events : ℤ → ℕ
bounded_events (pos n) = max 1 (min n 5000)
bounded_events (negsuc n) = 1

abbrev pub wanted : Option String → Finding → Bool
wanted none f = true
wanted (some rule_id) f = rule_id == "" || f.rule_id == rule_id

abbrev pub hit : Json → Finding → Hit
hit event f = record {
  event_id = get_key "id" event;
  timestamp = get_key "timestamp" event;
  found = f;
}

abbrev pub one_more : Option ℕ → ℕ
one_more none = 1
one_more (some n) = n + 1

abbrev pub counted_as : Finding → String
counted_as f = if f.rule_id == "" then "unknown" else f.rule_id

-- `counts[...] += 1` for each hit.
unfoldable pub count_hits : List Hit → Dict String ℕ → Dict String ℕ
count_hits [] counts = counts
count_hits (h ∷ hits) counts =
    count_hits hits (put counts (counted_as h.found) (one_more (get counts (counted_as h.found))))

abbrev pub key_before : String × ℕ → String × ℕ → Bool
key_before a b = is_lt (compare a.0 b.0)

-- The report of the hits of the events in their order.
abbrev pub report_of : ℕ → List Json → List Json → List Hit → Report
report_of bounded events ordered hits = record {
  events_evaluated = length ordered;
  truncated = ltb bounded (length events);
  rule_hit_counts = order_by key_before (count_hits hits []);
  total_hits = length hits;
  hits = take 2000 hits;
  hit_output_truncated = ltb 2000 (length hits);
}

module _ (py : Python) (config : Config) (token : Option Honeytoken) where
  abbrev pub text_of : String → Json → String
  text_of key event = str_of py (or_else (get_key key event) (str ""))

  -- The order of the tuples of timestamp and identifier; `sorted` keeps the order of equal ones.
  abbrev pub earlier : Json → Json → Bool
  earlier a b =
      is_lt (compare (text_of "timestamp" a) (text_of "timestamp" b))
      || (text_of "timestamp" a == text_of "timestamp" b
          && is_lt (compare (text_of "id" a) (text_of "id" b)))

  abbrev pub not_later : Json → Json → Bool
  not_later a b = not (earlier b a)

  -- Each event is evaluated against those before it.
  unfoldable pub replay : Option String → List Json → List Json → Result ConfigError (List Hit)
  replay rule_id history [] = ok []
  replay rule_id history (event ∷ events) = evaluate py config token event history >>= λ findings.
      replay rule_id (history ++ event ∷ []) events >>= λ rest.
      ok (map (hit event) (keep (wanted rule_id) findings) ++ rest)

  unfoldable pub run : Option String → ℤ → List Json → Result ConfigError Report
  run rule_id max_events events =
      let bounded = bounded_events max_events in
      let ordered = order_by not_later (take bounded events) in
      replay rule_id [] ordered >>= λ hits. ok (report_of bounded events ordered hits)
