-- ===== src/Common/WorkerHistory/Layout.antt =====
-- The layout of the tiers: what `distributeCapacity` and `buildTierLayout` choose.
use native.Mathlib.Nat.{div-add-mod, mod-lt, le-div_iff_mul-le, mul-le-mul_right}
use nodejs_pool.Prelude.{
  ℕ, zero, suc, ◌+◌, ◌-◌, ◌*◌, ◌/◌, ◌%◌, ◌≤◌, ◌<◌, ◌≡◌, refl, ap, subst, ◌==◌, ◌⊎◌, inl, inr, Bool,
  true, false, List, [], ◌∷◌, length, min, max, sum_by, All, arith, Bool-cases,
}
use nodejs_pool.Common.WorkerHistory.{
  capacities_from, distribute_capacity, covers, fewest_tiers, max_tier_count, layout_capacities,
}

abbrev pub total : List ℕ → ℕ
total = sum_by (λ c. c)

total-capacities_from :
    (base remainder index n : ℕ)
    → total (capacities_from base remainder index n)
      ≡ n * base + (min remainder (index + n) - min remainder index)
unfolding capacities_from
total-capacities_from base remainder index zero = omega arith
total-capacities_from base remainder index (suc n) =
    ground (arith, total-capacities_from base remainder (suc index) n)

-- Every point of the buffer is given to a tier, if there is a tier.
pub total-distribute_capacity :
    (points tiers : ℕ) → 0 < tiers → total (distribute_capacity points tiers) ≡ points
unfolding distribute_capacity
total-distribute_capacity points tiers h = omega (
  arith,
  total-capacities_from (points / tiers) (points % tiers) 0 tiers,
  div-add-mod points tiers,
  mod-lt points {m = tiers} h,
)

capacities_from-All :
    (base remainder index n : ℕ)
    → All (λ c. (base ≤ c) × (c ≤ base + 1)) (capacities_from base remainder index n)
unfolding capacities_from
capacities_from-All base remainder index zero = tt
capacities_from-All base remainder index (suc n) =
    ((ground arith, ground arith), capacities_from-All base remainder (suc index) n)

-- The number of tiers lies in the range of the loop; it fits, or is the last of the range.
fewest_tiers_lem :
    (candidate : ℕ → List ℕ) (fits : List ℕ → Bool) (count left : ℕ)
    → let n = fewest_tiers candidate fits count left in
      (count ≤ n) × (n ≤ count + left) × ((fits (candidate n) ≡ true) ⊎ (n ≡ count + left))
unfolding fewest_tiers
fewest_tiers_lem candidate fits count zero = (omega arith, omega arith, inr (omega arith))
fewest_tiers_lem candidate fits count (suc left) = elim (Bool-cases (fits (candidate count))) [
  | inl e ↦ rw e (omega arith, omega arith, inl e)
  | inr e ↦
      let (low, high, end) = fewest_tiers_lem candidate fits (suc count) left in
      rw e (omega arith, omega arith, elim end [ inl q ↦ inl q | inr q ↦ inr (omega arith) ])
]

-- No smaller number of tiers fits.
fewest_tiers_least :
    (candidate : ℕ → List ℕ) (fits : List ℕ → Bool) (count left m : ℕ)
    → count ≤ m
    → m < fewest_tiers candidate fits count left
    → fits (candidate m) ≡ false
unfolding fewest_tiers
fewest_tiers_least candidate fits count zero m h k = absurd (omega arith)
fewest_tiers_least candidate fits count (suc left) m h k =
    elim (Bool-cases (fits (candidate count))) [
      | inl e ↦ absurd (omega (arith, found e))
      | inr e ↦ elim (Bool-cases (count == m)) [
        | inl q ↦ subst (λ j. fits (candidate j) ≡ false) (ground arith) e
        | inr q ↦
            fewest_tiers_least candidate fits (suc count) left m (ground arith)
              (omega (arith, later e))
      ]
    ]
  where
    found : fits (candidate count) ≡ true → fewest_tiers candidate fits count (suc left) ≡ count
    found e = rw e refl

    later :
        fits (candidate count) ≡ false
        → fewest_tiers candidate fits count (suc left)
          ≡ fewest_tiers candidate fits (suc count) left
    later e = rw e refl

All-weaken :
    (a b : ℕ) (cs : List ℕ) → a ≤ b → All (λ c. (b ≤ c) × (c ≤ b + 1)) cs → All (λ c. a ≤ c) cs
All-weaken a b [] h v = tt
All-weaken a b (c ∷ cs) h v = (omega (arith, v.0.0), All-weaken a b cs h v.1)

max_tier_count_lem :
    (points ratio : ℕ)
    → 1 ≤ ratio
    → ratio ≤ points
    → (1 ≤ max_tier_count points ratio) × (max_tier_count points ratio * ratio ≤ points)
unfolding max_tier_count
max_tier_count_lem points ratio h k = rw same (omega (arith, some_bucket, div-add-mod points ratio))
  where
    some_bucket : 1 ≤ points / ratio
    some_bucket = (le-div_iff_mul-le {x = 1} {y = points} h).1 (omega arith)

    same : max 1 (points / ratio) ≡ points / ratio
    same = omega (arith, some_bucket)

length-capacities_from :
    (base remainder index n : ℕ) → length (capacities_from base remainder index n) ≡ n
unfolding capacities_from
length-capacities_from base remainder index zero = refl
length-capacities_from base remainder index (suc n) =
    ap suc (length-capacities_from base remainder (suc index) n)

length-distribute_capacity : (points n : ℕ) → length (distribute_capacity points n) ≡ n
unfolding distribute_capacity
length-distribute_capacity points n = length-capacities_from (points / n) (points % n) 0 n

distribute_capacity-All :
    (points n ratio : ℕ)
    → 1 ≤ n
    → n * ratio ≤ points
    → All (λ c. ratio ≤ c) (distribute_capacity points n)
unfolding distribute_capacity
distribute_capacity-All points n ratio h k =
    All-weaken ratio (points / n) (capacities_from (points / n) (points % n) 0 n)
      ((le-div_iff_mul-le h).1 (omega arith)) (capacities_from-All (points / n) (points % n) 0 n)

module _ (points interval ratio target : ℕ) where
  tiers : ℕ
  tiers =
      fewest_tiers (distribute_capacity points) (covers target interval ratio) 1
        (max_tier_count points ratio - 1)

  -- If a bucket has a point at least and the buffer a bucket, the layout gives every point to a tier,
  -- every tier holds a bucket at least, and the tiers cover the wanted span or are as many as there
  -- are buckets in the buffer.
  pub layout_capacities_lem :
      1 ≤ ratio
      → ratio ≤ points
      → let cs = layout_capacities points interval ratio target in
        (total cs ≡ points)
        × All (λ c. ratio ≤ c) cs
        × ((covers target interval ratio cs ≡ true) ⊎ (length cs ≡ max_tier_count points ratio))
  unfolding layout_capacities tiers
  layout_capacities_lem h k =
      let (low, high, end) =
        fewest_tiers_lem (distribute_capacity points) (covers target interval ratio) 1
          (max_tier_count points ratio - 1) in
      let (positive, buckets) = max_tier_count_lem points ratio h k in
      (
        total-distribute_capacity points tiers low,
        distribute_capacity-All points tiers ratio low (
            omega (
              arith,
              mul-le-mul_right {m = tiers} {n = max_tier_count points ratio} ratio (omega arith),
            )),
        elim end [
          | inl e ↦ inl e
          | inr e ↦ inr (omega (arith, length-distribute_capacity points tiers))
        ],
      )

  -- The layout has the fewest tiers that cover the wanted span: no smaller positive number does.
  pub layout_capacities_least :
      (m : ℕ)
      → 1 ≤ m
      → m < length (layout_capacities points interval ratio target)
      → covers target interval ratio (distribute_capacity points m) ≡ false
  unfolding layout_capacities tiers
  layout_capacities_least m h k =
      fewest_tiers_least (distribute_capacity points) (covers target interval ratio) 1
        (max_tier_count points ratio - 1) m h
        (omega (arith, k, length-distribute_capacity points tiers))
