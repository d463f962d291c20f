-- ===== src/Limiter/Runs.antt =====
-- Runs of the limiter from its constructor, over requests in order of time.
use mathlib.Core.Path.{subst}
use aegis_nexus.Common.Dict.{get}
use aegis_nexus.Common.{
  ℕ, ◌+◌, ◌≤◌, ◌<◌, String, true, List, [], ◌∷◌, ◌++◌, ◌≡◌, refl, ◌↔◌, arith, length, length-append,
  keep-append, All, eq_cases, string_eq, ◌∙◌, Bool-cases, inl, inr, max,
}
use aegis_nexus.Limiter.Step
use aegis_nexus.Limiter.{Limiter, Bucket, init}
use aegis_nexus.Limiter.Buckets.{recent}
use aegis_nexus.Limiter.Rate.{
  Log, stamps, stamps-logged_self, stamps-logged_ne, logged, Request, Tracks, span, answer, run,
  answer-Tracks, answer-decides, answer-lt-limit,
}

abbrev pub InOrder : ℕ → List Request → Type 0
InOrder now [] = Unit
InOrder now (r ∷ rs) = (now ≤ r.time) × InOrder r.time rs

abbrev pub last_time : ℕ → List Request → ℕ
last_time now [] = now
last_time now (r ∷ rs) = last_time r.time rs

length-recent_later :
    (now t window : ℕ) (b : Bucket)
    → now ≤ t
    → length (recent t window b) ≤ length (recent now window b)
length-recent_later now t window [] h = omega arith
length-recent_later now t window (x ∷ b) h = ground (arith, length-recent_later now t window b h)

length-recent_one : (t window now : ℕ) → length (recent t window (now ∷ [])) ≤ 1
length-recent_one t window now = ground arith

length-recent_push :
    (t window now : ℕ) (b : Bucket)
    → length (recent t window (b ++ now ∷ [])) ≤ length (recent t window b) + 1
length-recent_push t window now b =
    rw (keep-append, length-append) (omega (arith, length-recent_one t window now))

module _ (window_seconds : ℕ) where
  run-Tracks :
      (rs : List Request) {log : Log} {now : ℕ} {s : Limiter}
      → Tracks (span window_seconds) log now s
      → InOrder now rs
      → Tracks
          (span window_seconds)
          (run window_seconds s log rs).1
          (last_time now rs)
          (run window_seconds s log rs).0
  unfolding run
  run-Tracks [] tr o = tr
  run-Tracks (r ∷ rs) tr o = run-Tracks rs (answer-Tracks window_seconds r tr o.0) o.1

  abbrev pub HasRate : ℕ → Log → ℕ → Type 0
  HasRate most log now =
      (q : String) (t : ℕ) → now ≤ t → length (recent t (span window_seconds) (stamps q log)) ≤ most

  answer-HasRate :
      (most : ℕ) (r : Request) {log : Log} {now : ℕ} {s : Limiter}
      → Tracks (span window_seconds) log now s
      → now ≤ r.time
      → max 1 r.limit ≤ most
      → HasRate most log now
      → HasRate most (logged (answer window_seconds s r).1 r log) r.time
  answer-HasRate most r {log} {s = s} tr o fits rate q t h = elim (eq_cases r.key q) [
    | inl p ↦
        subst
          (λ k.
            length (
              recent t (span window_seconds)
                (stamps k (logged (answer window_seconds s r).1 r log)))
            ≤ most)
          p
          (rw stamps-logged_self (elim (Bool-cases (answer window_seconds s r).1) [
            | inl accepted ↦ rw accepted (
                omega (
                  arith,
                  length-recent_push t (span window_seconds) r.time (stamps r.key log),
                  length-recent_later r.time t (span window_seconds) (stamps r.key log) h,
                  answer-lt-limit window_seconds r tr o accepted,
                ))
            | inr refused ↦ rw refused (rate r.key t (omega arith))
          ]))
    | inr n ↦ rw (stamps-logged_ne (answer window_seconds s r).1 r q log n) (rate q t (omega arith))
  ]

  run-HasRate :
      (most : ℕ) (rs : List Request) {log : Log} {now : ℕ} {s : Limiter}
      → Tracks (span window_seconds) log now s
      → InOrder now rs
      → All (λ r. max 1 r.limit ≤ most) rs
      → HasRate most log now
      → HasRate most (run window_seconds s log rs).1 (last_time now rs)
  unfolding run
  run-HasRate most [] tr o fits rate = rate
  run-HasRate most (r ∷ rs) tr o fits rate =
      run-HasRate most rs (answer-Tracks window_seconds r tr o.0) o.1 fits.1
        (answer-HasRate most r tr o.0 fits.0 rate)

  run_room :
      (rs : List Request) (log : Log) (s : Limiter) (bound : ℕ)
      → s.max_keys ≡ bound
      → length s.buckets ≤ bound
      → length (run window_seconds s log rs).0.buckets ≤ bound
  unfolding run
  run_room [] log s bound same h = h
  run_room (r ∷ rs) log s bound same h =
      run_room rs (logged (answer window_seconds s r).1 r log) (answer window_seconds s r).0 bound
        (Step.max_keys-allow s r.time r.key r.limit window_seconds ∙ same)
        (omega (arith, Step.length-allow s r.time r.key r.limit window_seconds))

  module _ (max_keys cleanup_interval : ℕ) where
    init-Tracks : Tracks (span window_seconds) [] 0 (init max_keys cleanup_interval)
    unfolding init get
    init-Tracks = record {
      distinct = tt;
      room = omega arith;
      ordered = λ q. tt;
      agrees = λ q t h. refl;
    }

    -- The limiter and the log of accepted requests after a run from the constructor.
    abbrev pub served : List Request → Limiter × Log
    served rs = run window_seconds (init max_keys cleanup_interval) [] rs

    -- For requests in order of time whose limits are at most `most`, whatever their keys and
    -- however they mix: at no time from the last request on does the window hold more than `most`
    -- accepted requests of one key. Every moment of a run is the end of a shorter run.
    pub served_rate :
        (most : ℕ) (rs : List Request) (q : String) (t : ℕ)
        → InOrder 0 rs
        → All (λ r. max 1 r.limit ≤ most) rs
        → last_time 0 rs ≤ t
        → length (recent t (span window_seconds) (stamps q (served rs).1)) ≤ most
    served_rate most rs q t o fits h =
        run-HasRate most rs init-Tracks o fits (λ q' t' h'. omega arith) q t h

    -- After any run in order of time, a next request is accepted exactly when the log has fewer
    -- accepted requests of its key in the window than its limit, as long as the table of keys is
    -- not full.
    pub served_decides :
        (rs : List Request) (r : Request)
        → InOrder 0 rs
        → last_time 0 rs ≤ r.time
        → length (served rs).0.buckets < (served rs).0.max_keys
        → ((answer window_seconds (served rs).0 r).1 ≡ true) ↔ (
            length (recent r.time (span window_seconds) (stamps r.key (served rs).1))
            < max 1 r.limit)
    served_decides rs r o h room =
        answer-decides window_seconds r (run-Tracks rs init-Tracks o) h room

    -- The table never has more keys than the constructor's bound, whatever the requests and times.
    pub served_room : (rs : List Request) → length (served rs).0.buckets ≤ max 128 max_keys
    unfolding init
    served_room rs =
        run_room rs [] (init max_keys cleanup_interval) (max 128 max_keys) refl (omega arith)
