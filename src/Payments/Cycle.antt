-- ===== src/Payments/Cycle.antt =====
-- lib/payments.js: a payment cycle of one runtime, with the lock that it takes first. What is thrown
-- in a cycle ends it like a failure; `setCache("lastPaymentCycle", …)` happens exactly when the
-- answer is `true`, the `clean` of the code.
use nodejs_pool.Prelude.{Bool, true, false, not, Option, none, some, List, [], ◌∷◌}
use nodejs_pool.Payments.Store.{Batch, Store}
use nodejs_pool.Payments.Planner.{Config, BatchPlan, plan_batches}
use nodejs_pool.Payments.Reserve.{reserve_batch}
use nodejs_pool.Payments.Runtime.{
  Env, World, M, pure, ◌>>=◌, elapse, current_time, LockReply, owned, enter_fail_stop,
  verify_advisory_lock,
}
use nodejs_pool.Payments.Processor.Settle.{Outcome, cleared}
use nodejs_pool.Payments.Processor.Submit.{submit_reserved_batch, recover_pending_batches}

-- The reply to `GET_LOCK`: owned, busy, or a failure, after which no connection is kept.
abbrev pub acquire_result : LockReply → M Bool
acquire_result owned w = (true, record w { lock_connection = true })
acquire_result _ w = (false, record (enter_fail_stop w) { lock_connection = false })

module _ (env : Env) (config : Config) where
  abbrev pub ensure_with : Bool → M Bool
  ensure_with true w = verify_advisory_lock env w
  ensure_with false w = acquire_result (env.lock w.ticks) (elapse env w)

  -- `ensureAdvisoryLock`.
  unfoldable pub ensure_advisory_lock : M Bool
  ensure_advisory_lock w = ensure_with w.lock_connection w

  -- `planner.reserveBatch`: its transaction, or its exception.
  abbrev pub reserved_as : World → Option (Batch × Store) → Bool × World
  reserved_as w none = (false, w)
  reserved_as w (some (b, db)) = (true, record w { store = db; mem = b })

  unfoldable pub reserve_plan : BatchPlan → M Bool
  reserve_plan p w =
      reserved_as (elapse env w) (reserve_batch (current_time env w) p (elapse env w).store)

  abbrev pub submit_if_reserved : BatchPlan → Bool → M Outcome
  submit_if_reserved p true = submit_reserved_batch env p.items
  submit_if_reserved p false = pure Outcome.unresolved

  abbrev pub reserve_if_locked : BatchPlan → Bool → M Outcome
  reserve_if_locked p true = reserve_plan p >>= submit_if_reserved p
  reserve_if_locked p false = pure Outcome.unresolved

  -- One pass of the loop over the plans.
  unfoldable pub pay_plan : BatchPlan → M Outcome
  pay_plan p = verify_advisory_lock env >>= reserve_if_locked p

  -- `canAdvancePaymentCycle(false)`.
  abbrev pub can_advance_payment_cycle : M Bool
  can_advance_payment_cycle w = (not w.is_fail_stop, w)

  abbrev pub continue_if_cleared : M Bool → Outcome → M Bool
  continue_if_cleared rest cleared = rest
  continue_if_cleared rest _ = pure false

  -- The loop: a batch that is not cleared stops the cycle.
  unfoldable pub pay_plans : List BatchPlan → M Bool
  pay_plans [] = can_advance_payment_cycle
  pay_plans (p ∷ ps) = pay_plan p >>= continue_if_cleared (pay_plans ps)

  abbrev pub pay_planned : Option (List BatchPlan) → M Bool
  pay_planned none = pure false
  pay_planned (some ps) = pay_plans ps

  abbrev pub plan_if_recovered : Bool → M Bool
  plan_if_recovered true w = pay_planned (plan_batches config w.store) (elapse env w)
  plan_if_recovered false w = (false, w)

  abbrev pub recover_if_locked : Bool → M Bool
  recover_if_locked true = recover_pending_batches env
  recover_if_locked false = pure false

  -- `recoverPendingBatches` of the runtime.
  abbrev pub recover_unless : Bool → M Bool
  recover_unless true = pure false
  recover_unless false = ensure_advisory_lock >>= recover_if_locked

  unfoldable pub recover_pending : M Bool
  recover_pending w = recover_unless w.is_fail_stop w

  abbrev pub cycle_if_locked : Bool → M Bool
  cycle_if_locked true = recover_pending >>= plan_if_recovered
  cycle_if_locked false = pure false

  abbrev pub cycle_unless : Bool → M Bool
  cycle_unless true = pure false
  cycle_unless false = ensure_advisory_lock >>= cycle_if_locked

  -- `runCycle`.
  unfoldable pub run_cycle : M Bool
  run_cycle w = cycle_unless w.is_fail_stop w
