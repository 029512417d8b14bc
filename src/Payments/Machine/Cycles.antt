-- ===== src/Payments/Machine/Cycles.antt =====
-- `runCycle` of lib/payments.js follows the state machine: lock, recovery, plan, reservations and
-- submits together.
use nodejs_pool.Prelude.{
  ℕ, ◌≤◌, Bool, true, false, ◌≡◌, refl, ◌++◌, Option, none, some, List, [], ◌∷◌, arith, All,
}
use nodejs_pool.Payments.Store.{Batch, Store, Status, find_batch}
use nodejs_pool.Payments.Planner.{Config, BatchPlan, plan_batches}
use nodejs_pool.Payments.Reserve.{reserve_batch, reserved_batch}
use nodejs_pool.Payments.Runtime.{
  Env, World, M, elapse, current_time, LockReply, owned, lost, failed, verify_advisory_lock,
}
use nodejs_pool.Payments.Processor.Settle.{Outcome, cleared, unresolved, manual_review}
use nodejs_pool.Payments.Cycle.{
  acquire_result, ensure_with, ensure_advisory_lock, reserved_as, reserve_plan, submit_if_reserved,
  reserve_if_locked, pay_plan, continue_if_cleared, pay_plans, pay_planned, plan_if_recovered,
  recover_if_locked, recover_unless, recover_pending, cycle_if_locked, cycle_unless, run_cycle,
}
use nodejs_pool.Payments.Machine.{IsUnstarted, reserve, Steps, next, times_claimed, IsOnceClaimed}
use nodejs_pool.Payments.Machine.Laws.{Steps-IsOnceClaimed, Steps-IsUnstarted}
use nodejs_pool.Payments.Machine.Moves.{elapse-Goes, verify_advisory_lock-Reads}
use nodejs_pool.Payments.Machine.Claims.{
  Tracks, Goes-Tracks, Tracks-trans, submit_reserved_batch-Tracks,
}
use nodejs_pool.Payments.Machine.Recovers.{
  Tracks-refl, allowance-le, recover_pending_batches-Tracks,
}

-- What a reservation adds to the tables.
record Reserves (db : Store) (b : Batch) (db' : Store) : Type 0 where
  is_reserved : b.status ≡ Status.reserved
  is_unstarted : b.submit_started_at ≡ none
  is_fresh : find_batch b.id db.batches ≡ none
  adds : db'.batches ≡ db.batches ++ b ∷ []
  keeps : db'.claims ≡ db.claims

reserve_batch-Reserves :
    (now : ℕ) (p : BatchPlan) (db db' : Store) (b : Batch)
    → reserve_batch now p db ≡ some (b, db')
    → Reserves db b db'
unfolding reserve_batch reserved_batch
reserve_batch-Reserves now p db db' b e = record {
  is_reserved = ground arith;
  is_unstarted = ground arith;
  is_fresh = ground arith;
  adds = ground arith;
  keeps = ground arith;
}

module _ (env : Env) (config : Config) (rely : (n : ℕ) (s : Store) → Steps s (env.others n s)) where
  acquire_result-Tracks : (r : LockReply) (w : World) → Tracks w (acquire_result r (elapse env w)).1
  unfolding elapse
  acquire_result-Tracks owned w =
      Goes-Tracks (record { steps = rely w.ticks w.store; no_claim = refl; no_transfer = refl })
  acquire_result-Tracks lost w =
      Goes-Tracks (record { steps = rely w.ticks w.store; no_claim = refl; no_transfer = refl })
  acquire_result-Tracks failed w =
      Goes-Tracks (record { steps = rely w.ticks w.store; no_claim = refl; no_transfer = refl })

  ensure_with-Tracks :
      (connected : Bool) (w : World) → Tracks w (ensure_with env config connected w).1
  ensure_with-Tracks true w = Goes-Tracks (verify_advisory_lock-Reads env rely w).0
  ensure_with-Tracks false w = acquire_result-Tracks (env.lock w.ticks) w

  ensure_advisory_lock-Tracks : (w : World) → Tracks w (ensure_advisory_lock env config w).1
  unfolding ensure_advisory_lock
  ensure_advisory_lock-Tracks w = ensure_with-Tracks w.lock_connection w

  submit_if_reserved-Tracks :
      (p : BatchPlan) (w : World) (o : Option (Batch × Store))
      → reserve_batch (current_time env w) p (elapse env w).store ≡ o
      → Tracks w
          (submit_if_reserved env config p
            (reserved_as env config (elapse env w) o).0
            (reserved_as env config (elapse env w) o).1).1
  unfolding elapse
  submit_if_reserved-Tracks p w none e = Goes-Tracks (elapse-Goes env rely w)
  submit_if_reserved-Tracks p w (some (b, db)) e =
      let r = reserve_batch-Reserves (current_time env w) p (elapse env w).store db b e in
      Tracks-trans
        (Goes-Tracks (record {
          steps =
              next (rely w.ticks w.store)
                (reserve b r.is_reserved r.is_unstarted r.is_fresh r.adds r.keeps);
          no_claim = refl;
          no_transfer = refl;
        }))
        (submit_reserved_batch-Tracks env rely p.items _ (rw r.is_reserved refl))

  reserve_if_locked-Tracks :
      (p : BatchPlan) (locked : Bool) (w : World)
      → Tracks w (reserve_if_locked env config p locked w).1
  unfolding reserve_plan
  reserve_if_locked-Tracks p true w = submit_if_reserved-Tracks p w _ refl
  reserve_if_locked-Tracks p false w = Tracks-refl w

  pay_plan-Tracks : (p : BatchPlan) (w : World) → Tracks w (pay_plan env config p w).1
  unfolding pay_plan
  pay_plan-Tracks p w =
      Tracks-trans (Goes-Tracks (verify_advisory_lock-Reads env rely w).0)
        (reserve_if_locked-Tracks p _ (verify_advisory_lock env w).1)

  continue-Tracks :
      (rest : M Bool) (o : Outcome) (w : World)
      → ((w : World) → Tracks w (rest w).1)
      → Tracks w (continue_if_cleared env config rest o w).1
  continue-Tracks rest cleared w h = h w
  continue-Tracks rest unresolved w h = Tracks-refl w
  continue-Tracks rest manual_review w h = Tracks-refl w

  pay_plans-Tracks : (ps : List BatchPlan) (w : World) → Tracks w (pay_plans env config ps w).1
  unfolding pay_plans
  pay_plans-Tracks [] w = Tracks-refl w
  pay_plans-Tracks (p ∷ ps) w = Tracks-trans (pay_plan-Tracks p w) (
      continue-Tracks (pay_plans env config ps) (pay_plan env config p w).0
        (pay_plan env config p w).1 (pay_plans-Tracks ps))

  pay_planned-Tracks :
      (o : Option (List BatchPlan)) (w : World) → Tracks w (pay_planned env config o w).1
  pay_planned-Tracks none w = Tracks-refl w
  pay_planned-Tracks (some ps) w = pay_plans-Tracks ps w

  plan_if_recovered-Tracks :
      (go : Bool) (w : World) → Tracks w (plan_if_recovered env config go w).1
  plan_if_recovered-Tracks true w =
      Tracks-trans (Goes-Tracks (elapse-Goes env rely w))
        (pay_planned-Tracks (plan_batches config w.store) (elapse env w))
  plan_if_recovered-Tracks false w = Tracks-refl w

  recover_if_locked-Tracks :
      (locked : Bool) (w : World)
      → All IsUnstarted w.store.batches
      → Tracks w (recover_if_locked env config locked w).1
  recover_if_locked-Tracks true w v = recover_pending_batches-Tracks env rely w v
  recover_if_locked-Tracks false w v = Tracks-refl w

  recover_unless-Tracks :
      (stopped : Bool) (w : World)
      → All IsUnstarted w.store.batches
      → Tracks w (recover_unless env config stopped w).1
  recover_unless-Tracks true w v = Tracks-refl w
  recover_unless-Tracks false w v =
      let t = ensure_advisory_lock-Tracks w in
      Tracks-trans t (
        recover_if_locked-Tracks _ (ensure_advisory_lock env config w).1
          (Steps-IsUnstarted v t.steps))

  recover_pending-Tracks :
      (w : World) → All IsUnstarted w.store.batches → Tracks w (recover_pending env config w).1
  unfolding recover_pending
  recover_pending-Tracks w v = recover_unless-Tracks w.is_fail_stop w v

  cycle_if_locked-Tracks :
      (locked : Bool) (w : World)
      → All IsUnstarted w.store.batches
      → Tracks w (cycle_if_locked env config locked w).1
  cycle_if_locked-Tracks true w v =
      Tracks-trans (recover_pending-Tracks w v)
        (plan_if_recovered-Tracks (recover_pending env config w).0 (recover_pending env config w).1)
  cycle_if_locked-Tracks false w v = Tracks-refl w

  cycle_unless-Tracks :
      (stopped : Bool) (w : World)
      → All IsUnstarted w.store.batches
      → Tracks w (cycle_unless env config stopped w).1
  cycle_unless-Tracks true w v = Tracks-refl w
  cycle_unless-Tracks false w v =
      let t = ensure_advisory_lock-Tracks w in
      Tracks-trans t (
        cycle_if_locked-Tracks (ensure_advisory_lock env config w).0
          (ensure_advisory_lock env config w).1 (Steps-IsUnstarted v t.steps))

  -- A whole cycle, whatever the wallet and the database answer and other runtimes do, moves the
  -- tables by steps of the state machine only, if no batch that was not submitted has a time of a
  -- submit: of every batch the transfers grow by at most the claims that the runtime won, and these
  -- are among the claims in the tables' history.
  pub run_cycle-Tracks :
      (w : World) → All IsUnstarted w.store.batches → Tracks w (run_cycle env config w).1
  unfolding run_cycle
  run_cycle-Tracks w v = cycle_unless-Tracks w.is_fail_stop w v

  -- A cycle never pays a batch twice: if no batch that was not submitted has a time of a submit, the
  -- batch's claims are within what its row allows, this runtime's transfers rest on claims that it
  -- won and those are in the tables' history, then after the cycle, whatever the wallet and the
  -- database answer and other runtimes do meanwhile, this runtime handed the batch to the wallet at
  -- most once.
  pub run_cycle_transfers_once :
      (i : ℕ) (w : World)
      → All IsUnstarted w.store.batches
      → IsOnceClaimed i w.store
      → times_claimed i w.transferred ≤ times_claimed i w.claimed
      → times_claimed i w.claimed ≤ times_claimed i w.store.claims
      → times_claimed i (run_cycle env config w).1.transferred ≤ 1
  run_cycle_transfers_once i w v once paid recorded =
      let t = run_cycle-Tracks w v in
      omega (
        arith,
        t.paid_for i,
        t.recorded i,
        Steps-IsOnceClaimed i once t.steps,
        allowance-le (find_batch i (run_cycle env config w).1.store.batches),
      )
