-- ===== src/Limiter/Buckets.antt =====
-- What pruning and the cleanup do to the bucket of each key.
use aegis_nexus.Common.{
  ℕ, ◌+◌, ◌≤◌, String, none, some, [], ◌∷◌, ◌≡◌, ◌≢◌, refl, arith, ltb, eq_test, string_eq, length,
  keep, All,
}
use aegis_nexus.Common.Dict.{Dict, get, Distinct}
use aegis_nexus.Limiter.{Bucket, prune_bucket, cleanup}

-- The stamps that still count at time `t`.
abbrev pub recent : ℕ → ℕ → Bucket → Bucket
recent t window = keep (λ x. ltb t (x + window))

abbrev pub bucket_of : Dict String Bucket → String → Bucket
bucket_of d k = elim (get d k) [ none ↦ [] | some b ↦ b ]

-- Stamps in order of time, none later than `now`.
abbrev pub IsOrdered : ℕ → Bucket → Type 0
IsOrdered now [] = Unit
IsOrdered now (t ∷ b) = (t ≤ now) × All (λ x. t ≤ x) b × IsOrdered now b

pub recent-prune_bucket :
    (now t window : ℕ) (b : Bucket)
    → now ≤ t
    → recent t window (prune_bucket now window b) ≡ recent t window b
unfolding prune_bucket
recent-prune_bucket now t window [] h = refl
recent-prune_bucket now t window (x ∷ b) h = ground (arith, recent-prune_bucket now t window b h)

recent-All :
    (now x window : ℕ) (b : Bucket)
    → now ≤ x + window
    → All (λ y. x ≤ y) b
    → now ≢ x + window
    → recent now window b ≡ b
recent-All now x window [] h a n = refl
recent-All now x window (y ∷ b) h a n = ground (arith, recent-All now x window b h a.1 n)

-- On stamps in order, pruning from the left keeps exactly what still counts.
pub prune_bucket-eq-recent :
    (now window later : ℕ) (b : Bucket)
    → IsOrdered later b
    → prune_bucket now window b ≡ recent now window b
unfolding prune_bucket
prune_bucket-eq-recent now window later [] h = refl
prune_bucket-eq-recent now window later (x ∷ b) h =
    ground (arith, prune_bucket-eq-recent now window later b h.2, recent-All now x window b)

pub prune_bucket-IsOrdered :
    (now window later : ℕ) (b : Bucket)
    → IsOrdered later b
    → IsOrdered later (prune_bucket now window b)
unfolding prune_bucket
prune_bucket-IsOrdered now window later [] h = h
prune_bucket-IsOrdered now window later (x ∷ b) h =
    ground (arith, prune_bucket-IsOrdered now window later b h.2)

module _ (now window : ℕ) (key : String) where
  get-cleanup-none :
      (d : Dict String Bucket) (q : String)
      → get d q ≡ none
      → get (cleanup now window key d) q ≡ none
  unfolding get cleanup
  get-cleanup-none [] q h = refl
  get-cleanup-none ((j, b) ∷ d) q h = ground (arith, get-cleanup-none d q)

  pub get-cleanup_self : (d : Dict String Bucket) → get (cleanup now window key d) key ≡ get d key
  unfolding get cleanup
  get-cleanup_self [] = refl
  get-cleanup_self ((j, b) ∷ d) = ground (arith, get-cleanup_self d)

  pub bucket_of-cleanup_ne :
      (d : Dict String Bucket) (q : String)
      → Distinct d
      → key ≢ q
      → bucket_of (cleanup now window key d) q ≡ prune_bucket now window (bucket_of d q)
  unfolding get cleanup prune_bucket
  bucket_of-cleanup_ne [] q h n = refl
  bucket_of-cleanup_ne ((j, b) ∷ d) q h n =
      ground (
        arith,
        bucket_of-cleanup_ne d q h.1 n,
        eq_test j q,
        eq_test j key,
        get-cleanup-none d j h.0,
      )

  pub Distinct-cleanup : (d : Dict String Bucket) → Distinct d → Distinct (cleanup now window key d)
  unfolding cleanup get
  Distinct-cleanup [] h = tt
  Distinct-cleanup ((j, b) ∷ d) h = ground (arith, Distinct-cleanup d h.1, get-cleanup-none d j h.0)

  pub length-cleanup : (d : Dict String Bucket) → length (cleanup now window key d) ≤ length d
  unfolding cleanup
  length-cleanup [] = omega arith
  length-cleanup ((j, b) ∷ d) = ground (arith, length-cleanup d)
