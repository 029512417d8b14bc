-- ===== src/Payments/Machine/Recovers.antt =====
-- `recoverPendingBatches` follows the state machine.
use nodejs_pool.Prelude.{
  ℕ, ◌≤◌, Bool, true, false, ◌≡◌, refl, sym, subst, Option, none, some, List, [], ◌∷◌, arith, All,
  keep_if, Bool-cases, inl, inr,
}
use nodejs_pool.Payments.Store.{Batch, Store, Status, Item, find_batch}
use nodejs_pool.Payments.Runtime.{Env, World, elapse, check_exclusive_access}
use nodejs_pool.Payments.Processor.Settle.{Outcome, cleared, unresolved, manual_review}
use nodejs_pool.Payments.Processor.Reconcile.{reconcile_batch}
use nodejs_pool.Payments.Processor.Submit.{
  submit_reserved_batch, batch_items, is_pending, go_on_if_cleared, recover_reserved,
  recover_by_status, if_recovering, recover_batch, recover_batches, recover_pending_batches,
}
use nodejs_pool.Payments.Machine.{
  is_live, IsUnstarted, Steps, here, allowance, IsOnceClaimed, times_claimed,
}
use nodejs_pool.Payments.Machine.Laws.{Steps-IsOnceClaimed}
use nodejs_pool.Payments.Machine.Moves.{Goes-refl, elapse-Goes, check_exclusive_access-Reads}
use nodejs_pool.Payments.Machine.Finals.{release_batch_reservation-Goes}
use nodejs_pool.Payments.Machine.Reconciles.{reconcile_batch-Goes}
use nodejs_pool.Payments.Machine.Claims.{
  Tracks, Goes-Tracks, Tracks-trans, submit_reserved_batch-Tracks,
}

keep_if-All :
    (p : Batch → Bool) (bs : List Batch) → All IsUnstarted bs → All IsUnstarted (keep_if p bs)
keep_if-All p [] v = tt
keep_if-All p (b ∷ bs) v = elim (Bool-cases (p b)) [
  | inl e ↦ rw e (v.0, keep_if-All p bs v.1)
  | inr e ↦ rw e (keep_if-All p bs v.1)
]

pub Tracks-refl : (w : World) → Tracks w w
Tracks-refl w = Goes-Tracks (Goes-refl w)

go_on-Tracks :
    (env : Env) (u w : World) (o : Outcome) → Tracks u w → Tracks u (go_on_if_cleared env o w).1
go_on-Tracks env u w cleared t = t
go_on-Tracks env u w unresolved t = t
go_on-Tracks env u w manual_review t = t

pub allowance-le : (o : Option Batch) → allowance o ≤ 1
allowance-le none = omega arith
allowance-le (some b) = ground arith

module _ (env : Env) (rely : (n : ℕ) (s : Store) → Steps s (env.others n s)) where
  recover_reserved-Tracks :
      (items : List Item) (started : Option ℕ) (w : World)
      → w.mem.status ≡ Status.reserved
      → started ≡ none
      → Tracks w (recover_reserved env items started w).1
  recover_reserved-Tracks items none w h n =
      Goes-Tracks (release_batch_reservation-Goes env rely w h)
  recover_reserved-Tracks items (some t) w h n = absurd (ground arith)

  reconciled-Tracks :
      (items : List Item) (w : World)
      → is_live w.mem.status ≡ true
      → Tracks w
          (go_on_if_cleared env
            (reconcile_batch env false items w).0
            (reconcile_batch env false items w).1).1
  reconciled-Tracks items w h =
      go_on-Tracks env w _ (reconcile_batch env false items w).0
        (Goes-Tracks (reconcile_batch-Goes env rely false items w h))

  recover_by_status-Tracks :
      (items : List Item) (st : Status) (w : World)
      → w.mem.status ≡ st
      → IsUnstarted w.mem
      → Tracks w (recover_by_status env items st w).1
  recover_by_status-Tracks items Status.manual_review w h un =
      Goes-Tracks (record { steps = here; no_claim = refl; no_transfer = refl })
  recover_by_status-Tracks items Status.retrying w h un =
      go_on-Tracks env w _ (submit_reserved_batch env items w).0
        (submit_reserved_batch-Tracks env rely items w (rw h refl))
  recover_by_status-Tracks items Status.reserved w h un =
      recover_reserved-Tracks items w.mem.submit_started_at w h (un (rw h refl))
  recover_by_status-Tracks items Status.submitting w h un = reconciled-Tracks items w (rw h refl)
  recover_by_status-Tracks items Status.submitted w h un = reconciled-Tracks items w (rw h refl)
  recover_by_status-Tracks items Status.finalized w h un = Tracks-refl w
  recover_by_status-Tracks items Status.retryable w h un = Tracks-refl w

  if_recovering-Tracks :
      (go : Bool) (w : World) → IsUnstarted w.mem → Tracks w (if_recovering env go w).1
  unfolding elapse
  if_recovering-Tracks false w un = Tracks-refl w
  if_recovering-Tracks true w un = Tracks-trans (Goes-Tracks (elapse-Goes env rely w)) (
      recover_by_status-Tracks (batch_items env w.mem.id w.store.items) w.mem.status (elapse env w)
        refl un)

  recover_batch-Tracks :
      (b : Batch) (w : World) → IsUnstarted b → Tracks w (recover_batch env b w).1
  unfolding recover_batch
  recover_batch-Tracks b w un =
      let w' : World = record w { mem = b } in
      let (g, same) = check_exclusive_access-Reads env rely w' in
      let tail =
        if_recovering-Tracks (check_exclusive_access env w').0 (check_exclusive_access env w').1
          (subst IsUnstarted (sym same) un) in
      let all = Tracks-trans (Goes-Tracks g) tail in
      record { steps = all.steps; paid_for = all.paid_for; recorded = all.recorded }

  recover_batches-Tracks :
      (bs : List Batch) (w : World) → All IsUnstarted bs → Tracks w (recover_batches env bs w).1
  unfolding recover_batches
  recover_batches-Tracks [] w v = Tracks-refl w
  recover_batches-Tracks (b ∷ bs) w v = elim (Bool-cases (recover_batch env b w).0) [
    | inl e ↦
        rw (e, recover_batches)
          (Tracks-trans (recover_batch-Tracks b w v.0)
            (recover_batches-Tracks bs (recover_batch env b w).1 v.1))
    | inr e ↦ rw (e, recover_batches) (recover_batch-Tracks b w v.0)
  ]

  -- Recovery, whatever the wallet answers and other runtimes do, moves the tables by steps of the
  -- state machine only, if no batch that was not submitted has a time of a submit: of every batch the
  -- transfers grow by at most the claims that it won, which are among the claims in the tables'
  -- history.
  pub recover_pending_batches-Tracks :
      (w : World) → All IsUnstarted w.store.batches → Tracks w (recover_pending_batches env w).1
  unfolding recover_pending_batches
  recover_pending_batches-Tracks w v = Tracks-trans (Goes-Tracks (elapse-Goes env rely w)) (
      recover_batches-Tracks (keep_if (is_pending env) w.store.batches) (elapse env w)
        (keep_if-All (is_pending env) w.store.batches v))

  -- Recovery never makes a transfer of a batch twice: if no batch that was not submitted has a time
  -- of a submit, the batch's claims are within what its row allows, this runtime's transfers rest on
  -- claims that it won and those are in the tables' history, then after the recovery, whatever the
  -- wallet answers and other runtimes do meanwhile, this runtime handed the batch to the wallet at
  -- most once.
  pub recover_pending_batches_transfers_once :
      (i : ℕ) (w : World)
      → All IsUnstarted w.store.batches
      → IsOnceClaimed i w.store
      → times_claimed i w.transferred ≤ times_claimed i w.claimed
      → times_claimed i w.claimed ≤ times_claimed i w.store.claims
      → times_claimed i (recover_pending_batches env w).1.transferred ≤ 1
  recover_pending_batches_transfers_once i w v once paid recorded =
      let t = recover_pending_batches-Tracks w v in
      omega (
        arith,
        t.paid_for i,
        t.recorded i,
        Steps-IsOnceClaimed i once t.steps,
        allowance-le (find_batch i (recover_pending_batches env w).1.store.batches),
      )
