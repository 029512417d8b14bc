-- ===== src/Pool/RateLimit/Rate.antt =====
-- How many requests the bucket of one key admits.
use nodejs_pool.Prelude.{
  lookup, remove, ℕ, ◌+◌, ◌-◌, ◌*◌, ◌≤◌, ◌<◌, ◌≡◌, refl, Bool, true, false, some, List, [], ◌∷◌,
  ◌++◌, String, ltb, str_eq_iff, if◌then◌else◌, arith, ap, subst, sym, Bool-cases, inl, inr,
}
use nodejs_pool.Pool.RateLimit.{
  RateBucket, RateBuckets, Limits, write_back, refill, take_token, consume_with,
  consume_rate_limit_token,
}

-- An entry that is moved to the end is found there.
lookup-moved :
    (k : String) (b : RateBucket) (m : RateBuckets) → lookup k (remove k m ++ (k, b) ∷ []) ≡ some b
unfolding lookup remove
lookup-moved k b [] = ground (arith, str_eq_iff k k)
lookup-moved k b ((j, c) ∷ m) = ground (arith, lookup-moved k b m)

lookup-write_back :
    (k : String) (b c : RateBucket) (m : RateBuckets)
    → lookup k m ≡ some c
    → lookup k (write_back k b m) ≡ some b
unfolding lookup write_back
lookup-write_back k b c [] e = cc
lookup-write_back k b c ((j, d) ∷ m) e = ground (arith, lookup-write_back k b c m)

module _ (c : Limits) (k : String) (per_second burst : ℕ) where
  -- A request of a known key refills its bucket, moves it to the end and takes a token.
  consume-found :
      (now : ℕ) (m : RateBuckets) (b : RateBucket)
      → 0 < per_second
      → 0 < burst
      → lookup k m ≡ some b
      → consume_rate_limit_token c k per_second burst now m
        ≡ take_token k
            (refill per_second burst now b)
            (remove k m ++ (k, refill per_second burst now b) ∷ [])
  unfolding consume_rate_limit_token
  consume-found now m b p q e = ground (arith, ap (consume_with c k per_second burst now m) e)

  -- What is left of a bucket that holds `b` when a request takes its token.
  Leaves : ℕ → RateBucket → Bool × RateBuckets → Type 0
  Leaves now b r =
      (b' : RateBucket) × (lookup k r.1 ≡ some b')
      × (b'.last_refill_at ≡ now)
      × (b'.tokens + (if r.0 then 1000 else 0) ≤ b.tokens)

  take_token-Leaves :
      (now : ℕ) (b : RateBucket) (m : RateBuckets)
      → b.last_refill_at ≡ now
      → lookup k m ≡ some b
      → Leaves now b (take_token k b m)
  unfolding take_token Leaves
  take_token-Leaves now b m h e = elim (Bool-cases (ltb b.tokens 1000)) [
    | inl l ↦ rw l (b, e, h, omega arith)
    | inr l ↦
        rw l (record b { tokens = b.tokens - 1000 }, lookup-write_back k _ b m e, h, ground arith)
  ]

  -- One request of a known key: an admitted one costs a token, and the bucket gains no more than the
  -- rate allows.
  consume_step :
      (now : ℕ) (m : RateBuckets) (b : RateBucket)
      → 0 < per_second
      → 0 < burst
      → lookup k m ≡ some b
      → (b' : RateBucket) × (lookup k (consume_rate_limit_token c k per_second burst now m).1
          ≡ some b')
        × (b'.last_refill_at ≡ now)
        × (b'.tokens + (if (consume_rate_limit_token c k per_second burst now m).0 then 1000 else 0)
            ≤ b.tokens + (now - b.last_refill_at) * per_second)
  unfolding refill Leaves
  consume_step now m b p q e = rw (consume-found now m b p q e) (
      let (b', found, n, paid) =
        take_token-Leaves now (refill per_second burst now b) _ refl (lookup-moved k _ m) in
      (b', found, n, omega arith))

  -- The requests of one key at given times, and how many were admitted.
  unfoldable pub run : List ℕ → RateBuckets → ℕ
  run [] m = 0
  run (t ∷ ts) m =
      let r = consume_rate_limit_token c k per_second burst t m in
      (if r.0 then 1 else 0) + run ts r.1

abbrev pub Ascending : ℕ → List ℕ → Type 0
Ascending t [] = Unit
Ascending t (u ∷ us) = (t ≤ u) × Ascending u us

abbrev pub last_time : ℕ → List ℕ → ℕ
last_time t [] = t
last_time t (u ∷ us) = last_time u us

le-last_time : (t : ℕ) (ts : List ℕ) → Ascending t ts → t ≤ last_time t ts
le-last_time t [] a = omega arith
le-last_time t (u ∷ us) a = omega (arith, le-last_time u us a.1, a.0)

elapsed_add : (l t u p : ℕ) → l ≤ t → t ≤ u → (t - l) * p + (u - t) * p ≤ (u - l) * p
elapsed_add l t u p h k = rw (split) (omega arith)
  where
    split : u - l ≡ (t - l) + (u - t)
    split = omega arith

-- The bounds of one request and of those after it add up.
add_step :
    (admitted : Bool) (n before after l t u p : ℕ)
    → l ≤ t
    → t ≤ u
    → after + (if admitted then 1000 else 0) ≤ before + (t - l) * p
    → 1000 * n ≤ after + (u - t) * p
    → 1000 * ((if admitted then 1 else 0) + n) ≤ before + (u - l) * p
add_step true n before after l t u p h k f g = omega (arith, elapsed_add l t u p h k)
add_step false n before after l t u p h k f g = omega (arith, elapsed_add l t u p h k)

-- However the requests of a key are timed, a bucket admits no more of them than its tokens and the
-- refill until the last request pay for: if the limit is on (`per_second` and `burst` are positive),
-- the map holds bucket `b` for the key and the times ascend from its last refill, a thousand times
-- the number of admitted requests is at most the bucket's tokens (in thousandths) and the
-- milliseconds until the last request times `per_second`.
pub run-le :
    (c : Limits) (k : String) (per_second burst : ℕ) (ts : List ℕ) (m : RateBuckets)
    (b : RateBucket)
    → 0 < per_second
    → 0 < burst
    → lookup k m ≡ some b
    → Ascending b.last_refill_at ts
    → 1000 * run c k per_second burst ts m
      ≤ b.tokens + (last_time b.last_refill_at ts - b.last_refill_at) * per_second
unfolding run
run-le c k per_second burst [] m b p q e a = omega arith
run-le c k per_second burst (t ∷ ts) m b p q e a =
    let (b', found, now, paid) = consume_step c k per_second burst t m b p q e in
    add_step _ _ _ _ _ t (last_time t ts) per_second a.0 (le-last_time t ts a.1) paid (
      subst
        (λ x.
          1000 * run c k per_second burst ts (consume_rate_limit_token c k per_second burst t m).1
          ≤ b'.tokens + (last_time x ts - x) * per_second)
        now
        (run-le c k per_second burst ts _ b' p q found (subst (λ x. Ascending x ts) (sym now) a.1)))
