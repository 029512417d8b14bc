-- ===== src/Payments/Machine/Writes.antt =====
-- The guarded writes of the processor are steps of the machine.
use nodejs_pool.Prelude.{ℕ, Bool, true, false, ◌≡◌, refl, ◌∙◌, ap, Option, if◌then◌else◌, arith}
use nodejs_pool.Payments.Store.{Batch, Store, Status}
use nodejs_pool.Payments.Runtime.{Env, World, update_guarded, current_time}
use nodejs_pool.Payments.Processor.Settle.{
  Details, held, touched, retried, reviewed, submitted_as, past_submit_boundary, left_as,
  review_done, hold_batch, hold_batch_for_retry, record_batch_reconcile_state, hold_after_reconcile,
  mark_batch_manual_review, persist_submitted_batch,
}
use nodejs_pool.Payments.Machine.{may_move, is_before_submit, is_live, is_terminal, Write, Steps}
use nodejs_pool.Payments.Machine.Moves.{Goes, update_guarded-Goes, update_guarded-mem}

pub Goes-if :
    {A : Type 0} (b : Bool) (u : World) (x y : A × World)
    → (b ≡ true → Goes u x.1)
    → (b ≡ false → Goes u y.1)
    → Goes u (if b then x else y).1
Goes-if true u x y h k = h refl
Goes-if false u x y h k = k refl

pub Goes-left_as : (u w : World) (st : Status) → Goes u w → Goes u (left_as st w).1
Goes-left_as u w Status.manual_review g = record {
  steps = g.steps;
  no_claim = g.no_claim;
  no_transfer = g.no_transfer;
}
Goes-left_as u w Status.finalized g = g
Goes-left_as u w Status.reserved g = g
Goes-left_as u w Status.retrying g = g
Goes-left_as u w Status.submitting g = g
Goes-left_as u w Status.submitted g = g
Goes-left_as u w Status.retryable g = g

Goes-review_done : (u w : World) (done : Bool) → Goes u w → Goes u (review_done done w).1
Goes-review_done u w true g = record {
  steps = g.steps;
  no_claim = g.no_claim;
  no_transfer = g.no_transfer;
}
Goes-review_done u w false g = Goes-left_as u w w.mem.status g

-- The columns that each write sets, as a transition of its row.
pub stay-Write :
    (r r' : Batch)
    → r'.id ≡ r.id
    → r'.status ≡ r.status
    → r'.submit_started_at ≡ r.submit_started_at
    → is_terminal r.status ≡ false
    → Write r r'
stay-Write r r' i s b t = record {
  same_id = i;
  moves = ground arith;
  unstarted = λ h k. b ∙ h (ground arith);
}

pub leave-Write :
    (r r' : Batch)
    → r'.id ≡ r.id
    → is_before_submit r'.status ≡ false
    → may_move r.status r'.status ≡ true
    → Write r r'
leave-Write r r' i n m = record { same_id = i; moves = m; unstarted = λ h k. absurd (ground arith) }

module _ (env : Env) (rely : (n : ℕ) (s : Store) → Steps s (env.others n s)) where
  pub hold_batch-Goes : (w : World) → is_terminal w.mem.status ≡ false → Goes w (hold_batch env w).1
  unfolding hold_batch
  hold_batch-Goes w h =
      update_guarded-Goes env rely (held (current_time env w)) w
        (λ r e. stay-Write r _ refl refl refl (ground arith))

  pub hold_after_reconcile-Goes :
      (healthy : Bool) (w : World)
      → is_terminal w.mem.status ≡ false
      → Goes w (hold_after_reconcile env healthy w).1
  unfolding hold_after_reconcile record_batch_reconcile_state
  hold_after_reconcile-Goes healthy w h =
      update_guarded-Goes env rely _ w (λ r e. stay-Write r _ refl refl refl (ground arith))

  pub touched-Goes :
      (w : World)
      → is_terminal w.mem.status ≡ false
      → Goes w (update_guarded env (touched (current_time env w)) w).1
  touched-Goes w h =
      update_guarded-Goes env rely _ w (λ r e. stay-Write r _ refl refl refl (ground arith))

  pub hold_batch_for_retry-Goes :
      (w : World) → is_before_submit w.mem.status ≡ true → Goes w (hold_batch_for_retry env w).1
  unfolding hold_batch_for_retry
  hold_batch_for_retry-Goes w h =
      Goes-if (past_submit_boundary w.mem) w _ _ (λ _. hold_batch-Goes w (ground arith))
        (λ _.
          update_guarded-Goes env rely (retried (current_time env w)) w
            (λ r e. record { same_id = refl; moves = ground arith; unstarted = λ _ _. refl }))

  pub mark_batch_manual_review-Goes :
      (d : Details) (w : World)
      → is_live w.mem.status ≡ true
      → Goes w (mark_batch_manual_review env d w).1
  unfolding mark_batch_manual_review
  mark_batch_manual_review-Goes d w h = Goes-review_done w _ _ (
      update_guarded-Goes env rely (reviewed (current_time env w) d) w
        (λ r e. leave-Write r _ refl refl (ground arith)))

  pub persist_submitted_batch-Goes :
      (hash : ℕ) (k : Option ℕ) (fee : ℕ) (w : World)
      → is_live w.mem.status ≡ true
      → Goes w (persist_submitted_batch env hash k fee w).1
  unfolding persist_submitted_batch
  persist_submitted_batch-Goes hash k fee w h =
      update_guarded-Goes env rely (submitted_as (current_time env w) hash k fee) w
        (λ r e. leave-Write r _ refl refl (ground arith))

  pub persist_submitted_batch-status :
      (hash : ℕ) (k : Option ℕ) (fee : ℕ) (w : World)
      → (persist_submitted_batch env hash k fee w).0 ≡ true
      → (persist_submitted_batch env hash k fee w).1.mem.status ≡ Status.submitted
  unfolding persist_submitted_batch
  persist_submitted_batch-status hash k fee w e =
      ap (λ (b : Batch). b.status)
        (update_guarded-mem env rely (submitted_as (current_time env w) hash k fee) w e)
