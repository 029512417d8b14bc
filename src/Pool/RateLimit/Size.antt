-- ===== src/Pool/RateLimit/Size.antt =====
-- How many buckets the map of a rate limit holds.
use nodejs_pool.Prelude.{
  lookup, remove, ℕ, suc, ◌≤◌, ◌≡◌, refl, Option, none, some, [], ◌∷◌, ◌++◌, String, length,
  length-append, arith, Bool-cases, ltb, inl, inr,
}
use nodejs_pool.Pool.RateLimit.{
  RateBucket, RateBuckets, Limits, write_back, prune_rate_buckets, add_bucket, take_token, refill,
  new_bucket, consume_with, consume_rate_limit_token,
}

-- Pruning leaves no more buckets than the limit.
prune_rate_buckets-length :
    (now : ℕ) (c : Limits) (m : RateBuckets)
    → length (prune_rate_buckets now c m) ≤ c.bucket_max_entries
unfolding prune_rate_buckets
prune_rate_buckets-length now c [] = omega arith
prune_rate_buckets-length now c ((k, b) ∷ m) = ground (arith, prune_rate_buckets-length now c m)

length-write_back :
    (k : String) (b : RateBucket) (m : RateBuckets) → length (write_back k b m) ≡ length m
unfolding write_back
length-write_back k b [] = refl
length-write_back k b ((j, c) ∷ m) = ground (arith, length-write_back k b m)

length-remove : (k : String) (m : RateBuckets) → length (remove k m) ≤ length m
unfolding remove
length-remove k [] = omega arith
length-remove k ((j, c) ∷ m) = ground (arith, length-remove k m)

-- A key that is there leaves a place for its entry when it is removed.
length-remove-found :
    (k : String) (m : RateBuckets) (b : RateBucket)
    → lookup k m ≡ some b
    → suc (length (remove k m)) ≤ length m
unfolding lookup remove
length-remove-found k [] b e = cc
length-remove-found k ((j, c) ∷ m) b e =
    ground (arith, length-remove-found k m b, length-remove k m)

length-take_token :
    (k : String) (b : RateBucket) (m : RateBuckets) → length (take_token k b m).1 ≡ length m
unfolding take_token
length-take_token k b m = elim (Bool-cases (ltb b.tokens 1000)) [
  | inl l ↦ rw l refl
  | inr l ↦ rw l (length-write_back k _ m)
]

length-add_bucket :
    (c : Limits) (k : String) (b : RateBucket) (now : ℕ) (m : RateBuckets)
    → length (add_bucket c k b now m) ≤ c.bucket_max_entries
unfolding add_bucket
length-add_bucket c k b now m = ground (arith, prune_rate_buckets-length now c (m ++ (k, b) ∷ []))

consume_with-length :
    (c : Limits) (k : String) (per_second burst now : ℕ) (m : RateBuckets) (o : Option RateBucket)
    → lookup k m ≡ o
    → length m ≤ c.bucket_max_entries
    → length (consume_with c k per_second burst now m o).1 ≤ c.bucket_max_entries
consume_with-length c k per_second burst now m none e h = omega (
  arith,
  length-take_token k (new_bucket burst now) (add_bucket c k (new_bucket burst now) now m),
  length-add_bucket c k (new_bucket burst now) now m,
)
consume_with-length c k per_second burst now m (some b) e h = omega (
  arith,
  length-take_token k (refill per_second burst now b)
      (remove k m ++ (k, refill per_second burst now b) ∷ []),
  length-append (remove k m) ((k, refill per_second burst now b) ∷ []),
  length-remove-found k m b e,
)

-- A request leaves no more buckets than the limit, if there were no more before: what an
-- unauthenticated client sends cannot let the map grow beyond `bucket_max_entries`.
pub consume_rate_limit_token-length :
    (c : Limits) (k : String) (per_second burst now : ℕ) (m : RateBuckets)
    → length m ≤ c.bucket_max_entries
    → length (consume_rate_limit_token c k per_second burst now m).1 ≤ c.bucket_max_entries
unfolding consume_rate_limit_token
consume_rate_limit_token-length c k per_second burst now m h =
    ground (arith, consume_with-length c k per_second burst now m (lookup k m) refl h)
