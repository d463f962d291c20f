-- ===== src/Limiter/Step.antt =====
-- One call of `allow` on the table of buckets.
use aegis_nexus.Common.{
  ℕ, ◌*◌, ◌≤◌, ◌<◌, String, true, [], ◌∷◌, ◌++◌, ◌≡◌, ◌≢◌, ◌⊎◌, ap, sym, arith, if◌then◌else◌,
  string_eq, length, max,
}
use aegis_nexus.Common.Dict.{get, put, Distinct, Distinct-put}
use aegis_nexus.Limiter.{Limiter, second, prune_bucket, enter, swept, admit, allow}
use aegis_nexus.Limiter.Buckets.{
  bucket_of, get-cleanup_self, bucket_of-cleanup_ne, Distinct-cleanup, length-cleanup,
}
use aegis_nexus.Limiter.Bounds

module _ (s : Limiter) (now : ℕ) (key : String) (limit window_seconds : ℕ) where
  abbrev window : ℕ
  window = max 1 window_seconds * second

  -- The limiter on which the request is decided.
  abbrev pub before : Limiter
  before = swept s now key window (enter now window key s.buckets (get s.buckets key))

  get-before : get before.buckets key ≡ (enter now window key s.buckets (get s.buckets key)).1
  unfolding swept
  get-before = ground (
    arith,
    Bounds.enter-own now window key s.buckets,
    get-cleanup_self now window key (enter now window key s.buckets (get s.buckets key)).0,
  )

  bucket_of-before_self :
      bucket_of before.buckets key ≡ prune_bucket now window (bucket_of s.buckets key)
  unfolding swept
  bucket_of-before_self = ground (
    arith,
    Bounds.bucket_of-enter_self now window key s.buckets,
    get-cleanup_self now window key (enter now window key s.buckets (get s.buckets key)).0,
  )

  -- The request is decided on the table that was swept.
  pub allow-admit :
      allow s now key limit window_seconds
      ≡ admit before now key (max 1 limit) (get before.buckets key)
  unfolding allow
  allow-admit = ap (admit before now key (max 1 limit)) (sym get-before)

  -- The bucket of another key stays or is pruned.
  bucket_of-before_ne :
      (q : String)
      → Distinct s.buckets
      → key ≢ q
      → (bucket_of before.buckets q ≡ bucket_of s.buckets q)
        ⊎ (bucket_of before.buckets q ≡ prune_bucket now window (bucket_of s.buckets q))
  unfolding swept
  bucket_of-before_ne q d n = ground (
    arith,
    Bounds.bucket_of-enter_ne now window key s.buckets q n,
    bucket_of-cleanup_ne now window key (enter now window key s.buckets (get s.buckets key)).0 q
        (Bounds.Distinct-enter now window key s.buckets d) n,
  )

  Distinct-before : Distinct s.buckets → Distinct before.buckets
  unfolding swept
  Distinct-before d = ground (
    arith,
    Bounds.Distinct-enter now window key s.buckets d,
    Distinct-cleanup now window key (enter now window key s.buckets (get s.buckets key)).0,
  )

  max_keys-before : before.max_keys ≡ s.max_keys
  unfolding swept
  max_keys-before = ground arith

  length-before : length before.buckets ≤ length s.buckets
  unfolding swept
  length-before = ground (
    arith,
    Bounds.length-enter now window key s.buckets,
    length-cleanup now window key (enter now window key s.buckets (get s.buckets key)).0,
  )

  -- The stamps of the key that still count, and the new one if the request is accepted.
  pub bucket_of-allow_self : bucket_of (allow s now key limit window_seconds).0.buckets key ≡ (
      if (allow s now key limit window_seconds).1
      then prune_bucket now window (bucket_of s.buckets key) ++ now ∷ []
      else prune_bucket now window (bucket_of s.buckets key))
  bucket_of-allow_self =
      rw (allow-admit, ← bucket_of-before_self)
        (Bounds.bucket_of-admit_self before now key (max 1 limit) (omega arith))

  pub bucket_of-allow_ne :
      (q : String)
      → Distinct s.buckets
      → key ≢ q
      → (bucket_of (allow s now key limit window_seconds).0.buckets q ≡ bucket_of s.buckets q)
        ⊎ (bucket_of (allow s now key limit window_seconds).0.buckets q
            ≡ prune_bucket now window (bucket_of s.buckets q))
  bucket_of-allow_ne q d n =
      rw (allow-admit, Bounds.bucket_of-admit_ne before now key (max 1 limit) q n)
        (bucket_of-before_ne q d n)

  pub Distinct-allow :
      Distinct s.buckets → Distinct (allow s now key limit window_seconds).0.buckets
  unfolding admit
  Distinct-allow d = rw allow-admit (
      ground (
        arith,
        Distinct-before d,
        Distinct-put before.buckets key (bucket_of before.buckets key ++ now ∷ []),
        Distinct-put before.buckets key [],
        Distinct-put (put before.buckets key []) key (now ∷ []),
      ))

  pub max_keys-allow : (allow s now key limit window_seconds).0.max_keys ≡ s.max_keys
  unfolding admit
  max_keys-allow = rw allow-admit (ground (arith, max_keys-before))

  pub length-allow :
      length s.buckets ≤ s.max_keys
      → length (allow s now key limit window_seconds).0.buckets ≤ s.max_keys
  length-allow h = rw allow-admit (
      omega
        (arith, max_keys-before, length-before, Bounds.length-admit before now key (max 1 limit)))

  pub allow-lt-limit :
      (allow s now key limit window_seconds).1 ≡ true
      → length (prune_bucket now window (bucket_of s.buckets key)) < max 1 limit
  allow-lt-limit h =
      rw (← bucket_of-before_self)
        (Bounds.admit-lt-limit before now key (max 1 limit) (rw allow-admit at h))

  -- A request below its limit is refused only for lack of room for another key.
  pub allow-accepts :
      length (prune_bucket now window (bucket_of s.buckets key)) < max 1 limit
      → length s.buckets < s.max_keys
      → (allow s now key limit window_seconds).1 ≡ true
  unfolding admit
  allow-accepts below room =
      rw allow-admit (ground (arith, max_keys-before, length-before, bucket_of-before_self))
