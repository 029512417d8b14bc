-- ===== src/Common/TaskQueue.antt =====
-- lib/common/callbacks.js: `createTaskQueue`. The worker and the callbacks are parameters: what they
-- add to the queue before they return, and whether the worker calls `done` before it returns.
pub mod Running
pub mod Oldest
use nodejs_pool.Prelude.{
  ℕ, zero, suc, ◌+◌, ◌-◌, Bool, true, false, Option, none, some, List, [], ◌∷◌, ◌++◌, ltb,
  if◌then◌else◌, length, keep_if, not,
}

pub record QueueTask (T C : Type 0) : Type 0 where
  pub payload : T
  pub callback : Option C
  pub enqueue_order : ℕ

-- `in_flight` is history: the tasks whose worker has not called `done` yet, the newest first.
pub record TaskQueue (T C : Type 0) : Type 0 where
  pub pending : List (QueueTask T C)
  pub running : ℕ
  pub pumping : Bool
  pub next_order : ℕ
  pub in_flight : List (QueueTask T C)

pub data Method : Type 0 where
  push unshift : Method

pub record Request (T C : Type 0) : Type 0 where
  pub method : Method
  pub payload : T
  pub callback : Option C

-- What a worker does before it returns.
pub record Reaction (T C : Type 0) : Type 0 where
  pub requests : List (Request T C)
  pub is_done : Bool

module _ {T C : Type 0} where
  abbrev pub empty_queue : TaskQueue T C
  empty_queue = record {
    pending = [];
    running = 0;
    pumping = false;
    next_order = 0;
    in_flight = [];
  }

  abbrev pub insert : Method → QueueTask T C → List (QueueTask T C) → List (QueueTask T C)
  insert Method.push t ts = ts ++ t ∷ []
  insert Method.unshift t ts = t ∷ ts

  -- `enqueue` without its last line, the call of `pump`.
  abbrev pub add_task : Request T C → TaskQueue T C → TaskQueue T C
  add_task r q = record q {
    pending =
        insert r.method
          (record { payload = r.payload; callback = r.callback; enqueue_order = q.next_order })
          q.pending;
    next_order = suc q.next_order;
  }

  abbrev pub add_tasks : List (Request T C) → TaskQueue T C → TaskQueue T C
  add_tasks [] q = q
  add_tasks (r ∷ rs) q = add_tasks rs (add_task r q)

  abbrev pub keep_older : QueueTask T C → Option (QueueTask T C) → QueueTask T C
  keep_older t none = t
  keep_older t (some o) = if ltb t.enqueue_order o.enqueue_order then t else o

  -- The loop of `oldest`, with the task found so far.
  unfoldable pub oldest_of : Option (QueueTask T C) → List (QueueTask T C) → Option (QueueTask T C)
  oldest_of o [] = o
  oldest_of o (t ∷ ts) = oldest_of (some (keep_older t o)) ts

  unfoldable pub oldest : TaskQueue T C → Option (QueueTask T C)
  oldest q = oldest_of none q.pending

  unfoldable pub remove_tasks : (QueueTask T C → Bool) → TaskQueue T C → TaskQueue T C
  remove_tasks p q = record q { pending = keep_if (λ t. not (p t)) q.pending }

  abbrev pub task_at : ℕ → List (QueueTask T C) → Option (QueueTask T C)
  task_at i [] = none
  task_at zero (t ∷ ts) = some t
  task_at (suc i) (t ∷ ts) = task_at i ts

  abbrev pub without : ℕ → List (QueueTask T C) → List (QueueTask T C)
  without i [] = []
  without zero (t ∷ ts) = ts
  without (suc i) (t ∷ ts) = t ∷ without i ts

-- What happens to a queue.
pub data Event (T C : Type 0) : Type 0 where
  enqueued : Request T C → Event T C
  finished : ℕ → Event T C
  removed : (QueueTask T C → Bool) → Event T C

module _ {T C : Type 0} (concurrency : ℕ) (worker : T → Reaction T C)
    (callback : C → List (Request T C)) where
  abbrev pub run_callback : Option C → TaskQueue T C → TaskQueue T C
  run_callback none q = q
  run_callback (some c) q = add_tasks (callback c) q

  -- `onDone` without its last line, the call of `pump`; `rest` is what is then in flight.
  abbrev pub on_done : QueueTask T C → List (QueueTask T C) → TaskQueue T C → TaskQueue T C
  on_done t rest q =
      run_callback t.callback (record q { running = q.running - 1; in_flight = rest })

  abbrev pub after_worker :
      QueueTask T C → List (QueueTask T C) → Bool → TaskQueue T C → TaskQueue T C
  after_worker t rest true q = on_done t rest q
  after_worker t rest false q = q

  -- A pass of the loop of `pump`. `pumping` holds, so that the `pump` at the end of the `enqueue` and
  -- `onDone` that happen meanwhile returns at once.
  abbrev pub start_task : QueueTask T C → List (QueueTask T C) → TaskQueue T C → TaskQueue T C
  start_task t ts q = after_worker t q.in_flight (worker t.payload).is_done (
      add_tasks (worker t.payload).requests
        (record q { pending = ts; running = suc q.running; in_flight = t ∷ q.in_flight }))

  abbrev pub pump_pending :
      (TaskQueue T C → TaskQueue T C) → List (QueueTask T C) → TaskQueue T C → TaskQueue T C
  pump_pending continue [] q = q
  pump_pending continue (t ∷ ts) q = continue (start_task t ts q)

  abbrev pub pump_if : (TaskQueue T C → TaskQueue T C) → Bool → TaskQueue T C → TaskQueue T C
  pump_if continue true q = pump_pending continue q.pending q
  pump_if continue false q = q

  -- The loop of `pump`, for at most as many passes as the fuel.
  unfoldable pub pump_loop : ℕ → TaskQueue T C → TaskQueue T C
  pump_loop zero q = q
  pump_loop (suc n) q = pump_if (pump_loop n) (ltb q.running concurrency) q

  abbrev pub pump_unless : Bool → ℕ → TaskQueue T C → TaskQueue T C
  pump_unless true n q = q
  pump_unless false n q = record (pump_loop n (record q { pumping = true })) { pumping = false }

  unfoldable pub pump : ℕ → TaskQueue T C → TaskQueue T C
  pump n q = pump_unless q.pumping n q

  unfoldable pub enqueue : ℕ → Request T C → TaskQueue T C → TaskQueue T C
  enqueue n r q = pump n (add_task r q)

  abbrev pub done_with :
      ℕ → Option (QueueTask T C) → List (QueueTask T C) → TaskQueue T C → TaskQueue T C
  done_with n none rest q = q
  done_with n (some t) rest q = pump n (on_done t rest q)

  -- The worker calls `done` of a task in flight, the `i`-th; a task is out of flight afterwards.
  unfoldable pub done : ℕ → ℕ → TaskQueue T C → TaskQueue T C
  done n i q = done_with n (task_at i q.in_flight) (without i q.in_flight) q

  abbrev pub handle : ℕ → Event T C → TaskQueue T C → TaskQueue T C
  handle n (Event.enqueued r) q = enqueue n r q
  handle n (Event.finished i) q = done n i q
  handle n (Event.removed p) q = remove_tasks p q

  abbrev pub handle_all : ℕ → List (Event T C) → TaskQueue T C → TaskQueue T C
  handle_all n [] q = q
  handle_all n (e ∷ es) q = handle_all n es (handle n e q)
