-- ===== src/Common/Tests.antt =====
-- Runs of a queue of tasks, and the properties at them.
use nodejs_pool.Prelude.{
  ap, ◌*◌, ◌/◌, ◌≤◌, ◌<◌, ◌⊎◌, true, length, sum_by, ℕ, ◌≡◌, refl, Bool, false, none, some, List,
  [], ◌∷◌, All, arith, map, ◌%◌, ◌==◌, ◌||◌, if◌then◌else◌,
}
use nodejs_pool.Common.TaskQueue.{
  QueueTask, TaskQueue, Method, Request, Reaction, Event, empty_queue, oldest, oldest_of, pump_loop,
  pump, enqueue, done, handle_all,
}
use nodejs_pool.Common.TaskQueue.Running.{IsPumped, enqueue-IsPumped}
use nodejs_pool.Common.TaskQueue.Oldest.{IsIn, NotLater, oldest-NotLater}
use nodejs_pool.Common.WorkerHistory.{
  Point, Tier, timestamp_sec, create_empty_tier, read, write, drop_oldest_points, push_point,
  summary, compact_oldest_bucket, append_to_tier, capacities_from, distribute_capacity,
  calculate_coverage, covers, fewest_tiers, max_tier_count, layout_capacities,
}
use nodejs_pool.Common.WorkerHistory.Refines.{
  append_spec, points_of, IsTiered, append_to_tier-append_spec, append_to_tier-IsTiered,
}
use nodejs_pool.Common.WorkerHistory.Layout.{total, layout_capacities_lem, layout_capacities_least}

-- Tasks and callbacks are numbers. A worker ends even tasks at once, and task 9 adds another.
abbrev is_even : ℕ → Bool
is_even n = n % 2 == 0

abbrev request : Method → ℕ → Request ℕ ℕ
request m n = record { method = m; payload = n; callback = some n }

abbrev busy_worker : ℕ → Reaction ℕ ℕ
busy_worker n = record {
  requests = if n == 9 then request Method.push 4 ∷ [] else [];
  is_done = is_even n || n == 9;
}

abbrev busy_callback : ℕ → List (Request ℕ ℕ)
busy_callback n = if n == 2 then request Method.unshift 5 ∷ [] else []

abbrev events : List (Event ℕ ℕ)
events =
    Event.enqueued (request Method.push 9)
    ∷ Event.enqueued (request Method.push 2)
    ∷ Event.enqueued (request Method.push 7)
    ∷ Event.finished 0
    ∷ []

abbrev after_events : TaskQueue ℕ ℕ
after_events = handle_all 1 busy_worker busy_callback 10 events empty_queue

-- 5, which the callback of 2 added, held up 7 until it was done.
seven_runs : map (λ (t : QueueTask ℕ ℕ). t.payload) after_events.in_flight ≡ 7 ∷ []
unfolding enqueue done pump pump_loop
seven_runs = refl

abbrev slow_worker : ℕ → Reaction ℕ ℕ
slow_worker n = record { requests = []; is_done = false }

abbrev no_callback : ℕ → List (Request ℕ ℕ)
no_callback n = []

enqueue-IsPumped_example :
    IsPumped 1 slow_worker no_callback
      (λ _. refl)
      (λ _. refl)
      (enqueue 1 slow_worker no_callback 1 (request Method.push 3) empty_queue)
enqueue-IsPumped_example =
    enqueue-IsPumped 1 slow_worker no_callback (λ _. refl) (λ _. refl) 1 (request Method.push 3)
      empty_queue refl (omega arith)

abbrev task_of : ℕ → ℕ → QueueTask ℕ ℕ
task_of n order = record { payload = n; callback = none; enqueue_order = order }

-- Task 8 was put before the older task 7.
abbrev two_wait : TaskQueue ℕ ℕ
two_wait = record empty_queue { pending = task_of 8 1 ∷ task_of 7 0 ∷ []; next_order = 2 }

seven_is_oldest : oldest two_wait ≡ some (task_of 7 0)
unfolding oldest oldest_of
seven_is_oldest = refl

oldest-NotLater_example :
    (t : QueueTask ℕ ℕ) × (oldest two_wait ≡ some t)
    × IsIn t two_wait.pending
    × All (NotLater t) two_wait.pending
oldest-NotLater_example = oldest-NotLater two_wait (task_of 8 1) (task_of 7 0 ∷ []) refl

-- A history of points whose hashrates are whole numbers, averaged by a division.
abbrev zero_point : Point ℕ
zero_point = record { ts = 0; hs = 0; hs2 = 0 }

abbrev mean : List ℕ → ℕ
mean xs = sum_by (λ x. x) xs / length xs

abbrev point_at : ℕ → Point ℕ
point_at n = record { ts = n; hs = 10 * n; hs2 = n }

abbrev append_all : List (ℕ × Tier ℕ) → List (Point ℕ) → List (ℕ × Tier ℕ)
append_all ts [] = ts
append_all ts (p ∷ ps) = append_all (append_to_tier zero_point mean 2 ts p) ps

abbrev two_tiers : List (ℕ × Tier ℕ)
two_tiers = (3, create_empty_tier zero_point 3) ∷ (2, create_empty_tier zero_point 2) ∷ []

abbrev five_points : List (ℕ × Tier ℕ)
five_points =
    append_all two_tiers (point_at 1 ∷ point_at 2 ∷ point_at 3 ∷ point_at 4 ∷ point_at 5 ∷ [])

-- The fourth point hands the average of the first two on.
five_points_lem :
    points_of zero_point mean five_points
    ≡ (3, point_at 3 ∷ point_at 4 ∷ point_at 5 ∷ [])
      ∷ (2, record { ts = 2; hs = 15; hs2 = 1 } ∷ [])
      ∷ []
unfolding append_to_tier create_empty_tier read write drop_oldest_points push_point summary
    compact_oldest_bucket
five_points_lem = refl

five_points-IsTiered : IsTiered zero_point mean 2 five_points
unfolding append_to_tier create_empty_tier read write drop_oldest_points push_point summary
    compact_oldest_bucket
five_points-IsTiered = (
  (
    omega arith,
    omega arith,
    record { in_range = omega arith; fits = omega arith; full_buffer = refl },
  ),
  (
    (
      omega arith,
      omega arith,
      record { in_range = omega arith; fits = omega arith; full_buffer = refl },
    ),
    tt,
  ),
)

append_to_tier-append_spec_example :
    points_of zero_point mean (append_to_tier zero_point mean 2 five_points (point_at 6))
    ≡ append_spec zero_point mean 2 (points_of zero_point mean five_points) (point_at 6)
append_to_tier-append_spec_example =
    append_to_tier-append_spec zero_point mean 2 five_points (point_at 6) (omega arith)
      five_points-IsTiered

append_to_tier-IsTiered_example :
    IsTiered zero_point mean 2 (append_to_tier zero_point mean 2 five_points (point_at 6))
append_to_tier-IsTiered_example =
    append_to_tier-IsTiered zero_point mean 2 five_points (point_at 6) (omega arith)
      five_points-IsTiered

-- Ten points of two minutes, each tier three times as coarse, for two hours and more.
two_hours : layout_capacities 10 120 3 7_200 ≡ 4 ∷ 3 ∷ 3 ∷ []
unfolding layout_capacities distribute_capacity capacities_from fewest_tiers calculate_coverage
    max_tier_count
two_hours = refl

layout_capacities_lem_example :
    let cs = layout_capacities 10 120 3 7_200 in
    (total cs ≡ 10)
    × All (λ c. 3 ≤ c) cs
    × ((covers 7_200 120 3 cs ≡ true) ⊎ (length cs ≡ max_tier_count 10 3))
layout_capacities_lem_example = layout_capacities_lem 10 120 3 7_200 (omega arith) (omega arith)

two_or_more : 1 < length (layout_capacities 10 120 3 7_200)
two_or_more = omega (arith, ap length two_hours)

layout_capacities_least_example : covers 7_200 120 3 (distribute_capacity 10 1) ≡ false
layout_capacities_least_example = layout_capacities_least 10 120 3 7_200 1 (omega arith) two_or_more

late_timestamps_are_clamped : timestamp_sec 5_000_000_000_000 ≡ 4_294_967_295
unfolding timestamp_sec
late_timestamps_are_clamped = refl
