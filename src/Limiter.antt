-- ===== src/Limiter.antt =====
-- `SlidingWindowLimiter` of src/aegis_nexus/security.py: a request is let through while its key has
-- fewer than `limit` accepted requests in the window. Times are whole nanoseconds of a monotonic
-- clock; `a - b <= c` is written `a <= c + b`. The lock makes `allow` atomic: it is one function.
pub mod Buckets
pub mod Bounds
pub mod Step
pub mod Rate
pub mod Runs
mod Tests
use aegis_nexus.Common.{
  ℕ, ◌+◌, ◌*◌, String, Bool, true, false, ◌&&◌, ◌||◌, Option, none, some, List, [], ◌∷◌, ◌++◌, max,
  min, leb, if◌then◌else◌, ◌==◌, length, is_empty, is_none, string_eq,
}
use aegis_nexus.Common.Dict.{Dict, get, put, pop}

abbrev pub Bucket : Type 0
Bucket = List ℕ

abbrev pub second : ℕ
second = 1000000000

pub record Limiter : Type 0 where
  pub max_keys : ℕ
  pub cleanup_interval : ℕ
  pub buckets : Dict String Bucket
  pub last_cleanup : ℕ

-- `__init__`, the interval in nanoseconds.
pub init : ℕ → ℕ → Limiter
init max_keys cleanup_interval = record {
  max_keys = max 128 max_keys;
  cleanup_interval = max second (min cleanup_interval (60 * second));
  buckets = [];
  last_cleanup = 0;
}

-- `_prune_bucket` at `cutoff = now - window`.
pub prune_bucket : ℕ → ℕ → Bucket → Bucket
prune_bucket now window [] = []
prune_bucket now window (t ∷ b) =
    let rest = prune_bucket now window b in if leb (t + window) now then rest else t ∷ b

-- The caller's own bucket is pruned in place, and leaves the dictionary when nothing is left.
pub enter : ℕ → ℕ → String → Dict String Bucket → Option Bucket → Dict String Bucket × Option Bucket
enter now window key d none = (d, none)
enter now window key d (some b) =
    let b' = prune_bucket now window b in
    if is_empty b' then (pop d key, none) else (put d key b', some b')

-- The cleanup loop: every other bucket is pruned, and removed when nothing is left.
pub cleanup : ℕ → ℕ → String → Dict String Bucket → Dict String Bucket
cleanup now window key [] = []
cleanup now window key ((j, b) ∷ d) =
    let rest = cleanup now window key d in
    let b' = prune_bucket now window b in
    if j == key then (j, b) ∷ rest else if is_empty b' then rest else (j, b') ∷ rest

-- `len(bucket) >= limit` and the append.
pub grant : Limiter → ℕ → String → ℕ → Bucket → Limiter × Bool
grant s now key limit b =
    if leb limit (length b)
    then (s, false)
    else (record s { buckets = put s.buckets key (b ++ now ∷ []) }, true)

-- A key with no bucket gets one if there is room for another key.
pub admit : Limiter → ℕ → String → ℕ → Option Bucket → Limiter × Bool
unfolding grant
admit s now key limit (some b) = grant s now key limit b
admit s now key limit none =
    if leb s.max_keys (length s.buckets)
    then (s, false)
    else grant (record s { buckets = put s.buckets key [] }) now key limit []

-- The state after the pruning and the cleanup, before the request is decided.
pub swept : Limiter → ℕ → String → ℕ → Dict String Bucket × Option Bucket → Limiter
unfolding cleanup
swept s now key window (d, own) =
    if leb (s.last_cleanup + s.cleanup_interval) now || (is_none own && leb s.max_keys (length d))
    then record s { buckets = cleanup now window key d; last_cleanup = now }
    else record s { buckets = d }

pub allow : Limiter → ℕ → String → ℕ → ℕ → Limiter × Bool
unfolding enter swept admit
allow s now key limit window_seconds =
    let window = max 1 window_seconds * second in
    let entered = enter now window key s.buckets (get s.buckets key) in
    admit (swept s now key window entered) now key (max 1 limit) entered.1
