-- ===== src/Limiter/Bounds.antt =====
-- The parts of `allow`, one after another: what each does to the table of buckets.
use aegis_nexus.Common.{
  ℕ, ◌≤◌, ◌<◌, String, true, [], ◌∷◌, ◌++◌, ◌≡◌, ◌≢◌, arith, if◌then◌else◌, eq_test, ==_self,
  string_eq, length,
}
use aegis_nexus.Common.Dict.{
  Dict, get, put, get-put, get-pop, Distinct, Distinct-put, Distinct-pop, length-put, length-pop,
}
use aegis_nexus.Limiter.{Limiter, Bucket, prune_bucket, enter, admit}
use aegis_nexus.Limiter.Buckets.{bucket_of}

-- The bucket of the caller after `enter`, and that of any other key.
module _ (now window : ℕ) (key : String) (d : Dict String Bucket) where
  pub enter-own :
      (enter now window key d (get d key)).1 ≡ get (enter now window key d (get d key)).0 key
  unfolding enter
  enter-own = ground (
    arith,
    get-put d key key (prune_bucket now window (bucket_of d key)),
    get-pop d key key,
    ==_self key,
  )

  pub bucket_of-enter_self :
      bucket_of (enter now window key d (get d key)).0 key
      ≡ prune_bucket now window (bucket_of d key)
  unfolding enter prune_bucket
  bucket_of-enter_self = ground (
    arith,
    get-put d key key (prune_bucket now window (bucket_of d key)),
    get-pop d key key,
    ==_self key,
  )

  pub bucket_of-enter_ne :
      (q : String) → key ≢ q → bucket_of (enter now window key d (get d key)).0 q ≡ bucket_of d q
  unfolding enter
  bucket_of-enter_ne q n = ground (
    arith,
    get-put d key q (prune_bucket now window (bucket_of d key)),
    get-pop d key q,
    eq_test key q,
  )

  pub Distinct-enter : Distinct d → Distinct (enter now window key d (get d key)).0
  unfolding enter
  Distinct-enter h = ground (
    arith,
    Distinct-put d key (prune_bucket now window (bucket_of d key)) h,
    Distinct-pop d key h,
  )

  pub length-enter : length (enter now window key d (get d key)).0 ≤ length d
  unfolding enter
  length-enter =
      ground (arith, length-put d key (prune_bucket now window (bucket_of d key)), length-pop d key)

-- `admit` on a table whose entry for the key is `own`.
module _ (s : Limiter) (now : ℕ) (key : String) (limit : ℕ) where
  pub bucket_of-admit_self :
      0 < limit
      → bucket_of (admit s now key limit (get s.buckets key)).0.buckets key ≡ (
          if (admit s now key limit (get s.buckets key)).1
          then bucket_of s.buckets key ++ now ∷ []
          else bucket_of s.buckets key)
  unfolding admit
  bucket_of-admit_self h = ground (
    arith,
    ==_self key,
    get-put s.buckets key key (bucket_of s.buckets key ++ now ∷ []),
    get-put s.buckets key key [],
    get-put (put s.buckets key []) key key (now ∷ []),
  )

  pub bucket_of-admit_ne :
      (q : String)
      → key ≢ q
      → bucket_of (admit s now key limit (get s.buckets key)).0.buckets q ≡ bucket_of s.buckets q
  unfolding admit
  bucket_of-admit_ne q n = ground (
    arith,
    eq_test key q,
    get-put s.buckets key q (bucket_of s.buckets key ++ now ∷ []),
    get-put s.buckets key q [],
    get-put (put s.buckets key []) key q (now ∷ []),
  )

  pub admit-lt-limit :
      (admit s now key limit (get s.buckets key)).1 ≡ true
      → length (bucket_of s.buckets key) < limit
  unfolding admit
  admit-lt-limit h = ground arith

  pub length-admit :
      length s.buckets ≤ s.max_keys
      → length (admit s now key limit (get s.buckets key)).0.buckets ≤ s.max_keys
  unfolding admit
  length-admit h = ground (
    arith,
    ==_self key,
    length-put s.buckets key (bucket_of s.buckets key ++ now ∷ []),
    length-put s.buckets key [],
    get-put s.buckets key key [],
    length-put (put s.buckets key []) key (now ∷ []),
  )
