-- ===== src/Limiter/Rate.antt =====
-- The limiter against an ideal one that keeps the whole log of accepted requests.
use mathlib.Core.Path.{subst}
use aegis_nexus.Common.{
  ℕ, ◌+◌, ◌*◌, ◌≤◌, ◌<◌, String, Bool, true, false, List, [], ◌∷◌, ◌++◌, ◌≡◌, ◌≢◌, refl, sym, ◌∙◌,
  arith, ltb, if◌then◌else◌, ◌==◌, ==_self, ==_ne, eq_cases, ◌↔◌, string_eq, length, keep-append,
  All, All-append, Bool-cases, inl, inr, max,
}
use aegis_nexus.Common.Dict.{Distinct}
use aegis_nexus.Limiter.{Limiter, Bucket, second, prune_bucket, allow}
use aegis_nexus.Limiter.Buckets.{
  recent, bucket_of, IsOrdered, recent-prune_bucket, prune_bucket-eq-recent, prune_bucket-IsOrdered,
}
use aegis_nexus.Limiter.Step

abbrev pub Log : Type 0
Log = List (String × ℕ)

-- The times at which requests of the key were accepted.
abbrev pub stamps : String → Log → Bucket
stamps q [] = []
stamps q ((k, t) ∷ log) = let rest = stamps q log in if k == q then t ∷ rest else rest

stamps-append :
    (q k : String) (t : ℕ) (log : Log)
    → stamps q (log ++ (k, t) ∷ []) ≡ (if k == q then stamps q log ++ t ∷ [] else stamps q log)
stamps-append q k t [] = refl
stamps-append q k t ((j, u) ∷ log) = ground (arith, stamps-append q k t log)

IsOrdered-later : (now later : ℕ) (b : Bucket) → now ≤ later → IsOrdered now b → IsOrdered later b
IsOrdered-later now later [] h o = tt
IsOrdered-later now later (x ∷ b) h o = (omega arith, o.1, IsOrdered-later now later b h o.2)

All-append_one :
    (x now : ℕ) (b : Bucket) → x ≤ now → All (λ y. x ≤ y) b → All (λ y. x ≤ y) (b ++ now ∷ [])
All-append_one x now b h a = All-append (λ y. x ≤ y) b (now ∷ []) a (h, tt)

IsOrdered-append : (now : ℕ) (b : Bucket) → IsOrdered now b → IsOrdered now (b ++ now ∷ [])
IsOrdered-append now [] o = (omega arith, tt, tt)
IsOrdered-append now (x ∷ b) o = (o.0, All-append_one x now b o.0 o.1, IsOrdered-append now b o.2)

recent-push :
    (accepted : Bool) (now t window : ℕ) (b c : Bucket)
    → now ≤ t
    → recent t window b ≡ recent t window c
    → recent t window
        (if accepted then prune_bucket now window b ++ now ∷ [] else prune_bucket now window b)
      ≡ recent t window (if accepted then c ++ now ∷ [] else c)
recent-push true now t window b c h e =
    keep-append (λ x. ltb t (x + window)) (prune_bucket now window b) (now ∷ [])
    ∙ (rw (recent-prune_bucket now t window b h, e)
        (sym (keep-append (λ x. ltb t (x + window)) c (now ∷ []))))
recent-push false now t window b c h e = recent-prune_bucket now t window b h ∙ e

-- What the limiter still knows of a log, for one window.
pub record Tracks (window : ℕ) (log : Log) (now : ℕ) (s : Limiter) : Type 0 where
  pub distinct : Distinct s.buckets
  pub room : length s.buckets ≤ s.max_keys
  pub ordered : (q : String) → IsOrdered now (bucket_of s.buckets q)
  pub agrees :
      (q : String) (t : ℕ)
      → now ≤ t
      → recent t window (bucket_of s.buckets q) ≡ recent t window (stamps q log)

pub record Request : Type 0 where
  pub key : String
  pub limit : ℕ
  pub time : ℕ

-- The log after a request is answered.
abbrev pub logged : Bool → Request → Log → Log
logged accepted r log = if accepted then log ++ (r.key, r.time) ∷ [] else log

pub stamps-logged_self :
    (accepted : Bool) (r : Request) (log : Log)
    → stamps r.key (logged accepted r log)
      ≡ (if accepted then stamps r.key log ++ r.time ∷ [] else stamps r.key log)
stamps-logged_self true r log = stamps-append r.key r.key r.time log ∙ (rw ==_self)
stamps-logged_self false r log = refl

pub stamps-logged_ne :
    (accepted : Bool) (r : Request) (q : String) (log : Log)
    → r.key ≢ q
    → stamps q (logged accepted r log) ≡ stamps q log
stamps-logged_ne true r q log n = stamps-append q r.key r.time log ∙ (rw (==_ne r.key q n))
stamps-logged_ne false r q log n = refl

module _ (window_seconds : ℕ) where
  abbrev pub span : ℕ
  span = max 1 window_seconds * second

  abbrev pub answer : Limiter → Request → Limiter × Bool
  answer s r = allow s r.time r.key r.limit window_seconds

  -- A sequence of requests, with the log of those accepted.
  unfoldable pub run : Limiter → Log → List Request → Limiter × Log
  run s log [] = (s, log)
  run s log (r ∷ rs) = run (answer s r).0 (logged (answer s r).1 r log) rs

  module _ {log : Log} {now : ℕ} {s : Limiter} (r : Request) (tr : Tracks span log now s)
      (h : now ≤ r.time) where
    prune-recent :
        prune_bucket r.time span (bucket_of s.buckets r.key) ≡ recent r.time span (stamps r.key log)
    prune-recent =
        prune_bucket-eq-recent r.time span now (bucket_of s.buckets r.key) (tr.ordered r.key)
        ∙ tr.agrees r.key r.time h

    IsOrdered-self : IsOrdered r.time (bucket_of (answer s r).0.buckets r.key)
    IsOrdered-self =
        let o =
          prune_bucket-IsOrdered r.time span r.time (bucket_of s.buckets r.key)
            (IsOrdered-later now r.time (bucket_of s.buckets r.key) h (tr.ordered r.key)) in
        rw Step.bucket_of-allow_self (elim (Bool-cases (answer s r).1) [
          | inl yes_ ↦
              rw yes_
                (IsOrdered-append r.time (prune_bucket r.time span (bucket_of s.buckets r.key)) o)
          | inr no_ ↦ rw no_ o
        ])

    IsOrdered-other :
        (q : String) → r.key ≢ q → IsOrdered r.time (bucket_of (answer s r).0.buckets q)
    IsOrdered-other q n =
        let o = IsOrdered-later now r.time (bucket_of s.buckets q) h (tr.ordered q) in
        elim (Step.bucket_of-allow_ne s r.time r.key r.limit window_seconds q tr.distinct n) [
          | inl same ↦ rw same o
          | inr less ↦ rw less (prune_bucket-IsOrdered r.time span r.time (bucket_of s.buckets q) o)
        ]

    agrees_self :
        (t : ℕ)
        → r.time ≤ t
        → recent t span (bucket_of (answer s r).0.buckets r.key)
          ≡ recent t span (stamps r.key (logged (answer s r).1 r log))
    agrees_self t h' =
        rw (Step.bucket_of-allow_self, stamps-logged_self)
          (recent-push (answer s r).1 r.time t span (bucket_of s.buckets r.key) (stamps r.key log)
            h' (tr.agrees r.key t (omega arith)))

    agrees-other :
        (q : String) (t : ℕ)
        → r.key ≢ q
        → r.time ≤ t
        → recent t span (bucket_of (answer s r).0.buckets q)
          ≡ recent t span (stamps q (logged (answer s r).1 r log))
    agrees-other q t n h' =
        let old = tr.agrees q t (omega arith) in
        rw (stamps-logged_ne (answer s r).1 r q log n)
          (elim (Step.bucket_of-allow_ne s r.time r.key r.limit window_seconds q tr.distinct n) [
            | inl same ↦ rw same old
            | inr less ↦ rw (less, recent-prune_bucket r.time t span (bucket_of s.buckets q) h') old
          ])

    -- A call keeps the agreement with the log.
    pub answer-Tracks : Tracks span (logged (answer s r).1 r log) r.time (answer s r).0
    answer-Tracks = record {
      distinct = Step.Distinct-allow s r.time r.key r.limit window_seconds tr.distinct;
      room =
          rw Step.max_keys-allow (Step.length-allow s r.time r.key r.limit window_seconds tr.room);
      ordered = λ q. elim (eq_cases r.key q) [
        | inl p ↦
            subst (λ k. IsOrdered r.time (bucket_of (answer s r).0.buckets k)) p IsOrdered-self
        | inr n ↦ IsOrdered-other q n
      ];
      agrees = λ q t h'. elim (eq_cases r.key q) [
        | inl p ↦
            subst
              (λ k.
                recent t span (bucket_of (answer s r).0.buckets k)
                ≡ recent t span (stamps k (logged (answer s r).1 r log)))
              p (agrees_self t h')
        | inr n ↦ agrees-other q t n h'
      ];
    }

    pub answer-lt-limit :
        (answer s r).1 ≡ true → length (recent r.time span (stamps r.key log)) < max 1 r.limit
    answer-lt-limit accepted =
        rw (← prune-recent) (Step.allow-lt-limit s r.time r.key r.limit window_seconds accepted)

    -- The request is accepted exactly when the log has fewer than its limit in the window, where
    -- the table has room.
    pub answer-decides :
        length s.buckets < s.max_keys
        → ((answer s r).1 ≡ true) ↔ (length (recent r.time span (stamps r.key log)) < max 1 r.limit)
    answer-decides room = (
      answer-lt-limit,
      λ below.
          Step.allow-accepts s r.time r.key r.limit window_seconds (rw prune-recent below) room,
    )
