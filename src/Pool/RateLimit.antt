-- ===== src/Pool/RateLimit.antt =====
-- lib/pool/security.js: the token buckets of the rate limits. Tokens are counted in thousandths, so
-- that the refill of a millisecond is exact at whole rates; a `Map` is the list of its entries in
-- the order of their insertion.
pub mod Rate
pub mod Size
use nodejs_pool.Prelude.{
  ℕ, ◌+◌, ◌-◌, ◌*◌, Bool, true, false, not, ◌&&◌, ◌||◌, Option, none, some, List, [], ◌∷◌, ◌++◌,
  String, ltb, leb, ◌==◌, str_eq, if◌then◌else◌, length, min, lookup, remove,
}

pub record RateBucket : Type 0 where
  pub tokens : ℕ
  pub last_refill_at : ℕ

abbrev pub RateBuckets : Type 0
RateBuckets = List (String × RateBucket)

-- The two settings that the buckets depend on.
pub record Limits : Type 0 where
  pub bucket_idle_ms : ℕ
  pub bucket_max_entries : ℕ

-- A write to the bucket object, which the map shows if it still holds the bucket.
unfoldable pub write_back : String → RateBucket → RateBuckets → RateBuckets
write_back k b [] = []
write_back k b ((j, c) ∷ m) = if str_eq k j then (j, b) ∷ m else (j, c) ∷ write_back k b m

-- `pruneRateBuckets`: from the oldest entry on, while it is idle or there are too many.
unfoldable pub prune_rate_buckets : ℕ → Limits → RateBuckets → RateBuckets
prune_rate_buckets now c [] = []
prune_rate_buckets now c ((k, b) ∷ m) =
    if not (ltb c.bucket_idle_ms (now - b.last_refill_at))
      && leb (length ((k, b) ∷ m)) c.bucket_max_entries
    then (k, b) ∷ m
    else prune_rate_buckets now c m

unfoldable pub refill : ℕ → ℕ → ℕ → RateBucket → RateBucket
refill per_second burst now b = record {
  tokens = min (burst * 1000) (b.tokens + (now - b.last_refill_at) * per_second);
  last_refill_at = now;
}

-- The end of `consumeRateLimitToken`.
unfoldable pub take_token : String → RateBucket → RateBuckets → Bool × RateBuckets
take_token k b m =
    if ltb b.tokens 1000
    then (false, m)
    else (true, write_back k (record b { tokens = b.tokens - 1000 }) m)

abbrev pub new_bucket : ℕ → ℕ → RateBucket
new_bucket burst now = record { tokens = burst * 1000; last_refill_at = now }

unfoldable pub add_bucket : Limits → String → RateBucket → ℕ → RateBuckets → RateBuckets
add_bucket c k b now m =
    let m' = m ++ (k, b) ∷ [] in
    if ltb c.bucket_max_entries (length m') then prune_rate_buckets now c m' else m'

abbrev pub consume_with :
    Limits → String → ℕ → ℕ → ℕ → RateBuckets → Option RateBucket → Bool × RateBuckets
consume_with c k per_second burst now m none =
    take_token k (new_bucket burst now) (add_bucket c k (new_bucket burst now) now m)
consume_with c k per_second burst now m (some b) =
    let b' = refill per_second burst now b in take_token k b' (remove k m ++ (k, b') ∷ [])

-- `consumeRateLimitToken` on a map of buckets.
unfoldable pub consume_rate_limit_token :
    Limits → String → ℕ → ℕ → ℕ → RateBuckets → Bool × RateBuckets
consume_rate_limit_token c k per_second burst now m =
    if per_second == 0 || burst == 0
    then (true, m)
    else consume_with c k per_second burst now m (lookup k m)
