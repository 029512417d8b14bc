-- ===== src/Common/WorkerHistory.antt =====
-- lib/common/worker_history.js: the tiers of a worker's history. A tier is a ring buffer of its
-- capacity; when it is full, its oldest points are averaged into the next one. A hashrate is of any
-- type, since only its average is computed: of 32-bit floats in the code. The timestamp of a stored
-- point is in seconds, as the buffer holds it. A history pairs each tier with its capacity.
pub mod Ring
pub mod Refines
pub mod Layout
use nodejs_pool.Prelude.{
  ℕ, zero, suc, ◌+◌, ◌-◌, ◌*◌, ◌/◌, ◌%◌, ◌^◌, Bool, true, false, ◌||◌, List, [], ◌∷◌, ◌++◌, map,
  ◌==◌, ltb, leb, if◌then◌else◌, length, min, max, take, drop, sum_by,
}

pub record Point (H : Type 0) : Type 0 where
  pub ts : ℕ
  pub hs : H
  pub hs2 : H

pub record Tier (H : Type 0) : Type 0 where
  pub head : ℕ
  pub size : ℕ
  pub slots : List (Point H)

-- `normalizeTimestampMs` of whole milliseconds, in seconds.
unfoldable pub timestamp_sec : ℕ → ℕ
timestamp_sec ms = min 4_294_967_295 ((ms + 500) / 1000)

abbrev pub tabulate : {A : Type 0} → ℕ → (ℕ → A) → List A
tabulate zero f = []
tabulate (suc n) f = f 0 ∷ tabulate n (λ i. f (suc i))

module _ {H : Type 0} (blank : Point H) where
  -- A read and a write of the buffer, which holds a point at every slot below the capacity.
  unfoldable pub read : ℕ → List (Point H) → Point H
  read i [] = blank
  read zero (p ∷ ps) = p
  read (suc i) (p ∷ ps) = read i ps

  unfoldable pub write : ℕ → Point H → List (Point H) → List (Point H)
  write i p [] = []
  write zero p (q ∷ qs) = p ∷ qs
  write (suc i) p (q ∷ qs) = q ∷ write i p qs

  -- `createEmptyTier`.
  unfoldable pub create_empty_tier : ℕ → Tier H
  create_empty_tier capacity = record { head = 0; size = 0; slots = tabulate capacity (λ _. blank) }

  -- `getPoint` and `setPoint`.
  abbrev pub get_point : ℕ → Tier H → ℕ → Point H
  get_point capacity t i = read ((t.head + i) % capacity) t.slots

  abbrev pub set_point : ℕ → Tier H → ℕ → Point H → Tier H
  set_point capacity t i p = record t { slots = write ((t.head + i) % capacity) p t.slots }

  -- `dropOldestPoints`.
  unfoldable pub drop_oldest_points : ℕ → ℕ → Tier H → Tier H
  drop_oldest_points capacity count t = if count == 0 || t.size == 0 then t else record t {
    head = (t.head + min count t.size) % capacity;
    size = t.size - min count t.size;
  }

  -- The end of `appendToTier`.
  unfoldable pub push_point : ℕ → Tier H → Point H → Tier H
  push_point capacity t p = record (set_point capacity t t.size p) { size = t.size + 1 }

  module _ (average : List H → H) where
    abbrev pub newest_ts : ℕ → List (Point H) → ℕ
    newest_ts ts [] = ts
    newest_ts ts (p ∷ ps) = newest_ts p.ts ps

    -- The point of a bucket: its newest timestamp and its averages.
    unfoldable pub summary : List (Point H) → Point H
    summary ps = record {
      ts = newest_ts 0 ps;
      hs = average (map (λ (p : Point H). p.hs) ps);
      hs2 = average (map (λ (p : Point H). p.hs2) ps);
    }

    -- `compactOldestBucket`.
    unfoldable pub compact_oldest_bucket : ℕ → ℕ → Tier H → Point H × Tier H
    compact_oldest_bucket capacity bucket t =
        (summary (tabulate bucket (get_point capacity t)), drop_oldest_points capacity bucket t)

    -- A full last tier forgets its oldest point.
    abbrev pub make_room : ℕ → Tier H → Bool → Tier H
    make_room capacity t true = drop_oldest_points capacity 1 t
    make_room capacity t false = t

    -- A full tier before the last hands its oldest bucket on: `below` takes it to `below'`.
    abbrev pub hand_on :
        ℕ → ℕ → Tier H → Point H → List (ℕ × Tier H) → List (ℕ × Tier H) → Bool → List (ℕ × Tier H)
    hand_on capacity ratio t p below below' true =
        (capacity, push_point capacity (compact_oldest_bucket capacity ratio t).1 p) ∷ below'
    hand_on capacity ratio t p below below' false = (capacity, push_point capacity t p) ∷ below

    -- `appendToTier`, from a tier on.
    unfoldable pub append_to_tier : ℕ → List (ℕ × Tier H) → Point H → List (ℕ × Tier H)
    append_to_tier ratio [] p = []
    append_to_tier ratio ((c, t) ∷ []) p = (c, push_point c (make_room c t (t.size == c)) p) ∷ []
    append_to_tier ratio ((c, t) ∷ u ∷ ts) p =
        let below' = append_to_tier ratio (u ∷ ts) (compact_oldest_bucket c ratio t).0 in
        hand_on c ratio t p (u ∷ ts) below' (t.size == c)

-- `distributeCapacity`: the capacities of the tiers from `index` on.
unfoldable pub capacities_from : ℕ → ℕ → ℕ → ℕ → List ℕ
capacities_from base remainder index zero = []
capacities_from base remainder index (suc n) =
    (base + (if ltb index remainder then 1 else 0)) ∷ capacities_from base remainder (suc index) n

unfoldable pub distribute_capacity : ℕ → ℕ → List ℕ
distribute_capacity total tiers = capacities_from (total / tiers) (total % tiers) 0 tiers

-- `calculateCoverage`: from the tier `index` on.
unfoldable pub calculate_coverage : List ℕ → ℕ → ℕ → ℕ → ℕ
calculate_coverage [] interval ratio index = 0
calculate_coverage (c ∷ cs) interval ratio index =
    c * interval * ratio ^ index + calculate_coverage cs interval ratio (suc index)

abbrev pub covers : ℕ → ℕ → ℕ → List ℕ → Bool
covers target interval ratio cs = leb target (calculate_coverage cs interval ratio 0)

-- The loop of `buildTierLayout` from a number of tiers on, with what is left of its range.
unfoldable pub fewest_tiers : (ℕ → List ℕ) → (List ℕ → Bool) → ℕ → ℕ → ℕ
fewest_tiers candidate fits count zero = count
fewest_tiers candidate fits count (suc left) =
    if fits (candidate count) then count else fewest_tiers candidate fits (suc count) left

-- The capacities of `buildTierLayout`, for settings that are whole numbers.
unfoldable pub max_tier_count : ℕ → ℕ → ℕ
max_tier_count points ratio = max 1 (points / ratio)

unfoldable pub layout_capacities : ℕ → ℕ → ℕ → ℕ → List ℕ
layout_capacities points interval ratio target = distribute_capacity points (
    fewest_tiers (distribute_capacity points) (covers target interval ratio) 1
      (max_tier_count points ratio - 1))
