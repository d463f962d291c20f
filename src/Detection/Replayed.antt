-- ===== src/Detection/Replayed.antt =====
-- The report of a replay of the rules: that there is one, and what is in it.
use aegis_nexus.Common.{
  none, some, ◌==◌, ◌≢◌, ◌⊎◌, true, false, inl, inr, Bool-cases, eq_cases, ==_self, ==_ne, All,
  All-append, ◌*◌, ◌≤◌, min, Option, List, [], ◌∷◌, ◌++◌, keep, take, map, length, String,
  string_eq, ◌≡◌, refl, ◌∙◌, arith, length-append, length-map, length-take, length-keep,
}
use aegis_nexus.Common.Json.{ℤ, pos, negsuc, Json, get_key}
use aegis_nexus.Common.Rows.{count}
use aegis_nexus.Common.Order.{order_by, length-order_by}
use aegis_nexus.Common.Python.{Python}
use aegis_nexus.Common.Result.{ok}
use aegis_nexus.Common.Sublist.{Sublist, skip, both, length-Sublist}
use aegis_nexus.Alerts.{Finding}
use aegis_nexus.Detection.Config.{Config}
use aegis_nexus.Detection.Limits.{IsValid}
use aegis_nexus.Detection.Rules.{Honeytoken}
use aegis_nexus.Detection.Answers.{all_rules, evaluate-IsAnswer}
use aegis_nexus.Detection.Engine.{evaluate}
use aegis_nexus.Detection.Findings.{rule_ids}
use aegis_nexus.Detection.Tally.{
  sum, sum-count_hits, sum-order_by, tally, tally-count_hits, tally-order_by,
}
use aegis_nexus.Detection.Backtest.{
  Hit, Report, bounded_events, wanted, hit, counted_as, count_hits, key_before, report_of,
  not_later, replay, run,
}

bounded_events-le : (m : ℤ) → bounded_events m ≤ 5000
bounded_events-le (pos n) = omega arith
bounded_events-le (negsuc n) = omega arith

-- The rule asked for, where one is named.
abbrev pub Wants : Option String → Finding → Type 0
Wants none f = Unit
Wants (some rule_id) f = (rule_id ≡ "") ⊎ (f.rule_id ≡ rule_id)

abbrev pub LeavesOut : Option String → Finding → Type 0
LeavesOut none f = ⊥
LeavesOut (some rule_id) f = (rule_id ≢ "") × (f.rule_id ≢ rule_id)

-- The hits of one event: a hit for each finding that is wanted, in their order.
pub data AreHits (rule_id : Option String) (event : Json) : List Finding → List Hit → Type 0 where
  no_more : AreHits rule_id event [] []
  left_out :
      (f : Finding) {fs : List Finding} {hs : List Hit}
      → LeavesOut rule_id f
      → AreHits rule_id event fs hs
      → AreHits rule_id event (f ∷ fs) hs
  a_hit :
      (h : Hit) {fs : List Finding} {hs : List Hit}
      → Wants rule_id h.found
      → h.event_id ≡ get_key "id" event
      → h.timestamp ≡ get_key "timestamp" event
      → AreHits rule_id event fs hs
      → AreHits rule_id event (h.found ∷ fs) (h ∷ hs)

wanted-cases :
    (rule_id : Option String) (f : Finding)
    → ((wanted rule_id f ≡ true) × Wants rule_id f)
      ⊎ ((wanted rule_id f ≡ false) × LeavesOut rule_id f)
wanted-cases none f = inl (refl, tt)
wanted-cases (some rule_id) f = elim (eq_cases rule_id "") [
  | inl all ↦ inl (rw all refl, inl all)
  | inr named ↦ elim (eq_cases f.rule_id rule_id) [
    | inl same ↦ inl (ground (arith, ==_self rule_id), inr same)
    | inr other ↦
        inr (ground (arith, ==_ne rule_id "" named, ==_ne f.rule_id rule_id other), (named, other))
  ]
]

own-AreHits :
    (rule_id : Option String) (event : Json) (fs : List Finding)
    → AreHits rule_id event fs (map (hit event) (keep (wanted rule_id) fs))
own-AreHits rule_id event [] = no_more
own-AreHits rule_id event (f ∷ fs) = elim (wanted-cases rule_id f) [
  | inl (e, w) ↦ rw e (a_hit (hit event f) w refl refl (own-AreHits rule_id event fs))
  | inr (e, w) ↦ rw e (left_out f w (own-AreHits rule_id event fs))
]

named_rules :
    (ids rules : List String)
    → Sublist ids rules
    → All (λ r. (r == "") ≡ false) rules
    → All (λ r. (r == "") ≡ false) ids
named_rules [] rules sub all = tt
named_rules (id ∷ ids) [] sub all = elim sub [ ]
named_rules (id ∷ ids) (r ∷ rules) (skip sub) all = named_rules (id ∷ ids) rules sub all.1
named_rules (id ∷ ids) (r ∷ rules) (both sub) all = (all.0, named_rules ids rules sub all.1)

named_hits :
    (rule_id : Option String) (event : Json) (fs : List Finding)
    → All (λ r. (r == "") ≡ false) (rule_ids fs)
    → All
        (λ (h : Hit). (h.found.rule_id == "") ≡ false)
        (map (hit event) (keep (wanted rule_id) fs))
named_hits rule_id event [] all = tt
named_hits rule_id event (f ∷ fs) all = elim (Bool-cases (wanted rule_id f)) [
  | inl e ↦ rw e (all.0, named_hits rule_id event fs all.1)
  | inr e ↦ rw e (named_hits rule_id event fs all.1)
]

-- A named hit counts under its rule.
count_named :
    (name : String) (hits : List Hit)
    → All (λ (h : Hit). (h.found.rule_id == "") ≡ false) hits
    → count (λ h. counted_as h.found == name) hits ≡ count (λ h. h.found.rule_id == name) hits
count_named name [] all = refl
count_named name (h ∷ hits) all =
    let rest = count_named name hits all.1 in rw (all.0) (ground (arith, rest))

module _ (py : Python) (config : Config) (token : Option Honeytoken) where
  -- The hits of the events, each evaluated with those before it as its context.
  pub data Replays (rule_id : Option String) : List Json → List Json → List Hit → Type 0 where
    none_left : (history : List Json) → Replays rule_id history [] []
    evaluated :
        (event : Json) (fs : List Finding) (own : List Hit) {history events : List Json}
        {rest : List Hit}
        → evaluate py config token event history ≡ ok fs
        → AreHits rule_id event fs own
        → Replays rule_id (history ++ event ∷ []) events rest
        → Replays rule_id history (event ∷ events) (own ++ rest)

  -- What a report says of the events.
  pub record IsReport (rule_id : Option String) (max_events : ℤ) (events : List Json) (r : Report)
      : Type 0 where
    pub all : List Hit
    pub replays :
        Replays rule_id []
          (order_by (not_later py config token) (take (bounded_events max_events) events))
          all
    pub evaluated_events : r.events_evaluated ≡ min (bounded_events max_events) (length events)
    pub few_events : r.events_evaluated ≤ 5000
    pub total : r.total_hits ≡ length all
    pub few_hits : r.total_hits ≤ 11 * r.events_evaluated
    pub shown : r.hits ≡ take 2000 all
    pub counted :
        (name : String) → tally name r.rule_hit_counts ≡ count (λ h. h.found.rule_id == name) all
    pub counted_once : sum r.rule_hit_counts ≡ r.total_hits

module _ (py : Python) (config : Config) (valid : IsValid config) (token : Option Honeytoken) where
  -- A replay with its hits, which are few and have a rule.
  record Replayed (rule_id : Option String) (history events : List Json) : Type 0 where
    hits : List Hit
    answer : replay py config token rule_id history events ≡ ok hits
    replays : Replays py config token rule_id history events hits
    few : length hits ≤ 11 * length events
    named : All (λ (h : Hit). (h.found.rule_id == "") ≡ false) hits

  replay-Replayed :
      (rule_id : Option String) (history events : List Json) → Replayed rule_id history events
  unfolding replay
  replay-Replayed rule_id history [] = record {
    hits = [];
    answer = refl;
    replays = none_left history;
    few = omega arith;
    named = tt;
  }
  replay-Replayed rule_id history (event ∷ events) =
      let (fs, answered, a) = evaluate-IsAnswer py config valid event token history in
      let rest = replay-Replayed rule_id (history ++ event ∷ []) events in
      let own = map (hit event) (keep (wanted rule_id) fs) in
      record {
        hits = own ++ rest.hits;
        answer = rw (replay, answered, rest.answer) refl;
        replays = evaluated event fs own answered (own-AreHits rule_id event fs) rest.replays;
        few = omega (
          arith,
          rest.few,
          length-append own rest.hits,
          length-map (hit event) (keep (wanted rule_id) fs),
          length-keep (wanted rule_id) fs,
          length-map (λ (f : Finding). f.rule_id) fs,
          length-Sublist a.once,
        );
        named =
            All-append (λ (h : Hit). (h.found.rule_id == "") ≡ false) own rest.hits
              (named_hits rule_id event fs (
                named_rules (rule_ids fs) all_rules a.once (
                  refl,
                  (
                    refl,
                    (refl, (refl, (refl, (refl, (refl, (refl, (refl, (refl, (refl, tt))))))))),
                  ),
                )))
              rest.named;
      }

  -- Under a valid configuration a replay has a report. The hits are those of the first events up to
  -- the bound, at most 5000, in their order, each event evaluated with those before it as its context,
  -- a hit for each of its findings of the rule asked for with the event's identifier and timestamp;
  -- they are at most eleven for each event. The report has the number of all hits, the first 2000 of
  -- them, and for each rule the number of its hits, which together are all hits.
  pub run-IsReport :
      (rule_id : Option String) (max_events : ℤ) (events : List Json)
      → (r : Report) × (run py config token rule_id max_events events ≡ ok r)
        × IsReport py config token rule_id max_events events r
  unfolding run
  run-IsReport rule_id max_events events =
      let bounded = bounded_events max_events in
      let ordered = order_by (not_later py config token) (take bounded events) in
      let replayed = replay-Replayed rule_id [] ordered in
      let hits = replayed.hits in
      let number : length ordered ≡ min bounded (length events) =
        length-order_by (not_later py config token) (take bounded events)
        ∙ length-take bounded events in
      (
        report_of bounded events ordered hits,
        rw (run, replayed.answer) refl,
        record {
          all = hits;
          replays = replayed.replays;
          evaluated_events = number;
          few_events = omega (arith, number, bounded_events-le max_events);
          total = refl;
          few_hits = replayed.few;
          shown = refl;
          counted = λ name. omega (
            arith,
            tally-order_by name key_before (count_hits hits []),
            tally-count_hits name hits [],
            count_named name hits replayed.named,
          );
          counted_once =
              omega (arith, sum-order_by key_before (count_hits hits []), sum-count_hits hits []);
        },
      )
