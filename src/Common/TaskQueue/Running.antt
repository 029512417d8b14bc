-- ===== src/Common/TaskQueue/Running.antt =====
-- How many tasks run at once, and when the queue waits.
use nodejs_pool.Prelude.{
  ℕ, zero, suc, ◌≤◌, ◌<◌, ◌≡◌, refl, sym, subst, ◌∙◌, ◌⊎◌, inl, inr, Bool, true, false, Option,
  none, some, List, [], ◌∷◌, ltb, length, All, All-append, arith,
}
use nodejs_pool.Common.TaskQueue.{
  QueueTask, TaskQueue, Method, Request, Reaction, insert, add_task, add_tasks, run_callback,
  after_worker, start_task, pump_pending, pump_if, pump_loop, pump, enqueue,
}

module _ {T C : Type 0} where
  abbrev pub Earlier : ℕ → QueueTask T C → Type 0
  Earlier n t = t.enqueue_order < n

  -- The counter is the number of tasks in flight, no more than allowed, and the tasks that wait were
  -- numbered before the next one.
  abbrev pub Fits : ℕ → TaskQueue T C → Type 0
  Fits concurrency q =
      (q.running ≡ length q.in_flight)
      × (q.running ≤ concurrency)
      × All (Earlier q.next_order) q.pending

  -- Between two events, no `pump` is active either.
  abbrev pub IsQuiet : ℕ → TaskQueue T C → Type 0
  IsQuiet concurrency q = (q.pumping ≡ false) × Fits concurrency q

  Earlier-suc : (n : ℕ) (ts : List (QueueTask T C)) → All (Earlier n) ts → All (Earlier (suc n)) ts
  Earlier-suc n [] h = h
  Earlier-suc n (t ∷ ts) h = (omega (arith, h.0), Earlier-suc n ts h.1)

  insert-Earlier :
      (m : Method) (t : QueueTask T C) (n : ℕ) (ts : List (QueueTask T C))
      → t.enqueue_order ≡ n
      → All (Earlier n) ts
      → All (Earlier (suc n)) (insert m t ts)
  insert-Earlier Method.push t n ts e h =
      All-append (Earlier (suc n)) ts (t ∷ []) (Earlier-suc n ts h) (omega arith, tt)
  insert-Earlier Method.unshift t n ts e h = (omega arith, Earlier-suc n ts h)

  pub add_tasks-Fits :
      (k : ℕ) (rs : List (Request T C)) (q : TaskQueue T C) → Fits k q → Fits k (add_tasks rs q)
  add_tasks-Fits k [] q h = h
  add_tasks-Fits k (r ∷ rs) q (e, l, a) =
      add_tasks-Fits k rs (add_task r q)
        (e, l, insert-Earlier r.method _ q.next_order q.pending refl a)

  pub add_tasks-in_flight :
      (rs : List (Request T C)) (q : TaskQueue T C) → (add_tasks rs q).in_flight ≡ q.in_flight
  add_tasks-in_flight [] q = refl
  add_tasks-in_flight (r ∷ rs) q = add_tasks-in_flight rs (add_task r q)

  pub add_tasks-pumping :
      (rs : List (Request T C)) (q : TaskQueue T C) → (add_tasks rs q).pumping ≡ q.pumping
  add_tasks-pumping [] q = refl
  add_tasks-pumping (r ∷ rs) q = add_tasks-pumping rs (add_task r q)

module _ {T C : Type 0} (concurrency : ℕ) (worker : T → Reaction T C)
    (callback : C → List (Request T C)) where
  module _ (no_requests : (t : T) → (worker t).requests ≡ [])
      (no_callback : (c : C) → callback c ≡ []) where
    run_callback-pending :
        (c : Option C) (q : TaskQueue T C)
        → (run_callback concurrency worker callback c q).pending ≡ q.pending
    run_callback-pending none q = refl
    run_callback-pending (some c) q = rw (no_callback c)

    after_worker-pending :
        (t : QueueTask T C) (rest : List (QueueTask T C)) (b : Bool) (q : TaskQueue T C)
        → (after_worker concurrency worker callback t rest b q).pending ≡ q.pending
    after_worker-pending t rest true q = run_callback-pending t.callback _
    after_worker-pending t rest false q = refl

    start_task-pending :
        (t : QueueTask T C) (ts : List (QueueTask T C)) (q : TaskQueue T C)
        → (start_task concurrency worker callback t ts q).pending ≡ ts
    start_task-pending t ts q =
        after_worker-pending t q.in_flight (worker t.payload).is_done _ ∙ rw (no_requests t.payload)

    -- Nothing waits, or as many tasks run as may.
    abbrev pub IsPumped : TaskQueue T C → Type 0
    IsPumped q = (q.pending ≡ []) ⊎ (concurrency ≤ q.running)

    pump_pending-IsPumped :
        (continue : TaskQueue T C → TaskQueue T C) (n : ℕ)
        → ((q : TaskQueue T C) → length q.pending ≤ n → IsPumped (continue q))
        → (ts : List (QueueTask T C)) (q : TaskQueue T C) → q.pending ≡ ts
        → length ts ≤ suc n
        → IsPumped (pump_pending concurrency worker callback continue ts q)
    pump_pending-IsPumped continue n f [] q p l = inl p
    pump_pending-IsPumped continue n f (t ∷ ts) q p l =
        f _ (subst (λ us. length us ≤ n) (sym (start_task-pending t ts q)) (omega (arith, l)))

    pump_if-IsPumped :
        (continue : TaskQueue T C → TaskQueue T C) (n : ℕ)
        → ((q : TaskQueue T C) → length q.pending ≤ n → IsPumped (continue q))
        → (b : Bool) (q : TaskQueue T C) → ltb q.running concurrency ≡ b
        → length q.pending ≤ suc n
        → IsPumped (pump_if concurrency worker callback continue b q)
    pump_if-IsPumped continue n f true q e l = pump_pending-IsPumped continue n f q.pending q refl l
    pump_if-IsPumped continue n f false q e l = inr (ground arith)

    -- Enough fuel: a pass for each task that waits.
    pump_loop-IsPumped :
        (n : ℕ) (q : TaskQueue T C)
        → length q.pending ≤ n
        → IsPumped (pump_loop concurrency worker callback n q)
    unfolding pump_loop
    pump_loop-IsPumped zero q l = inl (ground arith)
    pump_loop-IsPumped (suc n) q l =
        pump_if-IsPumped (pump_loop concurrency worker callback n) n (pump_loop-IsPumped n) _ q refl
          l

    -- A new task never waits while another could run: if workers and callbacks add no tasks, no pump
    -- is active and the fuel covers the tasks that wait and the new one, then after `enqueue` no task
    -- waits, or as many tasks run as the concurrency allows.
    pub enqueue-IsPumped :
        (n : ℕ) (r : Request T C) (q : TaskQueue T C)
        → q.pumping ≡ false
        → length (add_task r q).pending ≤ n
        → IsPumped (enqueue concurrency worker callback n r q)
    unfolding enqueue pump
    enqueue-IsPumped n r q p l =
        rw p (pump_loop-IsPumped n (record (add_task r q) { pumping = true }) l)
