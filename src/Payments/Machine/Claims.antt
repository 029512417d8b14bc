-- ===== src/Payments/Machine/Claims.antt =====
-- `submitReservedBatch` and `recoverPendingBatches`: a batch goes to the wallet only after this
-- runtime won its claim, once for each claim.
use nodejs_pool.Prelude.{
  ℕ, suc, ◌+◌, ◌≤◌, Bool, true, false, ◌≡◌, refl, ◌∙◌, ap, some, List, ◌∷◌, arith, Bool-cases, inl,
  inr,
}
use nodejs_pool.Payments.Store.{Batch, Store, Status, Item}
use nodejs_pool.Payments.Reserve.{Preflight, passed, preflight_wallet_balance}
use nodejs_pool.Payments.Runtime.{
  Env, World, elapse, current_time, row_matches, check_exclusive_access,
}
use nodejs_pool.Payments.Processor.Submit.{
  claimed_at, has_status, claim_batch_for_submit, transfer_batch, if_claimed, if_still_exclusive,
  after_preflight, preflight, if_exclusive, submit_reserved_batch,
}
use nodejs_pool.Payments.Machine.{is_before_submit, claim, Steps, next, times_claimed}
use nodejs_pool.Payments.Machine.Laws.{Steps-trans, Steps-claims}
use nodejs_pool.Payments.Machine.Moves.{
  Goes, Goes-refl, await-Reads, status_eq-eq, check_exclusive_access-Reads,
}
use nodejs_pool.Payments.Machine.Writes.{Goes-left_as, hold_batch_for_retry-Goes}
use nodejs_pool.Payments.Machine.Submits.{settle_reply-Goes}

-- The tables moved by steps of the machine, of every batch the transfers grew by at most as much as
-- the claims that this runtime won, and these are among the claims in the tables' history.
pub record Tracks (w w' : World) : Type 0 where
  pub steps : Steps w.store w'.store
  pub paid_for :
      (i : ℕ)
      → times_claimed i w'.transferred + times_claimed i w.claimed
        ≤ times_claimed i w.transferred + times_claimed i w'.claimed
  pub recorded :
      (i : ℕ)
      → times_claimed i w'.claimed + times_claimed i w.store.claims
        ≤ times_claimed i w.claimed + times_claimed i w'.store.claims

pub Goes-Tracks : {w w' : World} → Goes w w' → Tracks w w'
Goes-Tracks g = record {
  steps = g.steps;
  paid_for = λ i. rw (g.no_claim, g.no_transfer) (omega arith);
  recorded = λ i. rw (g.no_claim) (omega (arith, Steps-claims i g.steps));
}

pub Tracks-trans : {u v w : World} → Tracks u v → Tracks v w → Tracks u w
Tracks-trans a b = record {
  steps = Steps-trans a.steps b.steps;
  paid_for = λ i. omega (arith, a.paid_for i, b.paid_for i);
  recorded = λ i. omega (arith, a.recorded i, b.recorded i);
}

-- What a won claim leaves.
record Won (w w' : World) : Type 0 where
  steps : Steps w.store w'.store
  claim_logged : w'.claimed ≡ w.mem.id ∷ w.claimed
  no_transfer : w'.transferred ≡ w.transferred
  same_id : w'.mem.id ≡ w.mem.id
  recorded : (i : ℕ) → times_claimed i (w.mem.id ∷ w.store.claims) ≤ times_claimed i w'.store.claims
  submitting : w'.mem.status ≡ Status.submitting

module _ (env : Env) (rely : (n : ℕ) (s : Store) → Steps s (env.others n s)) where
  claim_batch_for_submit-Won :
      (w : World)
      → is_before_submit w.mem.status ≡ true
      → (claim_batch_for_submit env w).0 ≡ true
      → Won w (claim_batch_for_submit env w).1
  unfolding claim_batch_for_submit elapse
  claim_batch_for_submit-Won w h = elim (Bool-cases fits) [
    | inl e ↦ rw e λ _. record {
      steps = next (rely w.ticks w.store) (
          claim w.mem.id (has_status w.mem.status) (claimed_at (current_time env w))
            (λ r q. record {
              same_id = refl;
              before = rw (status_eq-eq r.status w.mem.status q) h;
              after = refl;
            })
            e refl refl);
      claim_logged = refl;
      no_transfer = refl;
      same_id = refl;
      recorded = λ i. ground (arith, Steps-claims i (rely w.ticks w.store));
      submitting = refl;
    }
    | inr e ↦ rw e λ q. absurd (ground arith)
  ]
    where
      fits : Bool
      fits = row_matches w.mem.id (has_status w.mem.status) (env.others w.ticks w.store).batches

  claim_batch_for_submit-Goes :
      (w : World)
      → (claim_batch_for_submit env w).0 ≡ false
      → Goes w (claim_batch_for_submit env w).1
  unfolding claim_batch_for_submit elapse
  claim_batch_for_submit-Goes w = elim (Bool-cases fits) [
    | inl e ↦ rw e λ q. absurd (ground arith)
    | inr e ↦ rw e λ _. record {
      steps = Steps-trans (rely w.ticks w.store) (rely (suc w.ticks) (env.others w.ticks w.store));
      no_claim = refl;
      no_transfer = refl;
    }
  ]
    where
      fits : Bool
      fits = row_matches w.mem.id (has_status w.mem.status) (env.others w.ticks w.store).batches

  transfer_batch-Tracks : (u w : World) → Won u w → Tracks u (transfer_batch env w).1
  unfolding transfer_batch elapse
  transfer_batch-Tracks u w won = record {
    steps = Steps-trans won.steps (rely w.ticks w.store);
    paid_for = λ i. rw (won.claim_logged, won.no_transfer, won.same_id) (ground arith);
    recorded = λ i.
        rw won.claim_logged (ground (arith, won.recorded i, Steps-claims i (rely w.ticks w.store)));
  }

  if_claimed-Tracks :
      (items : List Item) (done : Bool) (u w : World)
      → (done ≡ true → Won u w)
      → (done ≡ false → Goes u w)
      → Tracks u (if_claimed env items done w).1
  unfolding transfer_batch elapse
  if_claimed-Tracks items true u w won lost = Tracks-trans (transfer_batch-Tracks u w (won refl)) (
      Goes-Tracks (
        settle_reply-Goes env rely items (transfer_batch env w).0 (transfer_batch env w).1
          (rw ((won refl).submitting) refl)))
  if_claimed-Tracks items false u w won lost =
      Goes-Tracks (Goes-left_as u w w.mem.status (lost refl))

  if_still_exclusive-Tracks :
      (items : List Item) (exclusive : Bool) (w : World)
      → is_before_submit w.mem.status ≡ true
      → Tracks w (if_still_exclusive env items exclusive w).1
  if_still_exclusive-Tracks items false w h = Goes-Tracks (Goes-refl w)
  if_still_exclusive-Tracks items true w h =
      if_claimed-Tracks items (claim_batch_for_submit env w).0 w (claim_batch_for_submit env w).1
        (claim_batch_for_submit-Won w h) (claim_batch_for_submit-Goes w)

  after_preflight-Tracks :
      (items : List Item) (p : Preflight) (w : World)
      → is_before_submit w.mem.status ≡ true
      → Tracks w (after_preflight env items p w).1
  after_preflight-Tracks items passed w h =
      let (g, same) = check_exclusive_access-Reads env rely w in
      Tracks-trans (Goes-Tracks g) (
        if_still_exclusive-Tracks items (check_exclusive_access env w).0
          (check_exclusive_access env w).1 (ap (λ (b : Batch). is_before_submit b.status) same ∙ h))
  after_preflight-Tracks items p w h = Goes-Tracks (hold_batch_for_retry-Goes env rely w h)

  if_exclusive-Tracks :
      (items : List Item) (exclusive : Bool) (w : World)
      → is_before_submit w.mem.status ≡ true
      → Tracks w (if_exclusive env items exclusive w).1
  unfolding preflight
  if_exclusive-Tracks items false w h = Goes-Tracks (Goes-refl w)
  if_exclusive-Tracks items true w h =
      let reply =
        λ (n : ℕ). preflight_wallet_balance env.fee_buffer (some w.mem.total_net) (env.balance n) in
      let (g, same) = await-Reads env rely reply w in
      Tracks-trans (Goes-Tracks g) (
        after_preflight-Tracks items (preflight env w).0 (preflight env w).1
          (ap (λ (b : Batch). is_before_submit b.status) same ∙ h))

  -- A submit of a batch that is `reserved` or `retrying` moves the tables by steps of the state
  -- machine, whatever the wallet answers and other runtimes do; of every batch the transfers grow by
  -- at most the claims that it won, which are among the claims in the tables' history.
  pub submit_reserved_batch-Tracks :
      (items : List Item) (w : World)
      → is_before_submit w.mem.status ≡ true
      → Tracks w (submit_reserved_batch env items w).1
  unfolding submit_reserved_batch
  submit_reserved_batch-Tracks items w h =
      let (g, same) = check_exclusive_access-Reads env rely w in
      Tracks-trans (Goes-Tracks g) (
        if_exclusive-Tracks items (check_exclusive_access env w).0 (check_exclusive_access env w).1
          (ap (λ (b : Batch). is_before_submit b.status) same ∙ h))
