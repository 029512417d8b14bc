-- ===== src/Payments/Machine/Reconciles.antt =====
-- Reconciliation is made of steps of the machine.
use nodejs_pool.Prelude.{
  ℕ, Bool, true, false, ◌≡◌, refl, ◌∙◌, ap, none, some, List, ◌&&◌, not, arith,
}
use nodejs_pool.Payments.Store.{Batch, Store, Status, status_eq, Item, is_none}
use nodejs_pool.Payments.Runtime.{Env, World, update_guarded, current_time}
use nodejs_pool.Payments.Processor.Search.{
  MatchResult, multiple_matches, no_match, incomplete_match, matched_waiting_tx_key,
  matched_missing_tx_key, matched, Visibility, visible, not_found, search_match, search_visibility,
  has_plausible_wallet_fee,
}
use nodejs_pool.Payments.Processor.Settle.{
  Outcome, cleared, unresolved, manual_review, touched, persist_submitted_batch,
}
use nodejs_pool.Payments.Processor.Reconcile.{
  is_throttled, finalize_persisted, finalize_matched_transfer, hold_persisted, settle_match,
  settle_visibility, reconcile_submitted_batch, reconcile_batch, only_cleared, reconcile_touched,
  reconcile_ambiguous_submit, settle_submit_error, reconcile_history_checked_submit_error,
  match_details,
}
use nodejs_pool.Payments.Machine.{is_live, is_terminal, Steps}
use nodejs_pool.Payments.Machine.Moves.{Goes, Goes-refl, Goes-trans, update_guarded-mem}
use nodejs_pool.Payments.Machine.Reads.{search_match-Reads, search_visibility-Reads}
use nodejs_pool.Payments.Machine.Writes.{
  Goes-if, hold_batch-Goes, hold_after_reconcile-Goes, touched-Goes, mark_batch_manual_review-Goes,
  persist_submitted_batch-Goes, persist_submitted_batch-status,
}
use nodejs_pool.Payments.Machine.Finals.{finalize_batch-Goes}

live-open : (st : Status) → is_live st ≡ true → is_terminal st ≡ false
live-open st h = ground arith

module _ (env : Env) (rely : (n : ℕ) (s : Store) → Steps s (env.others n s)) where
  -- After a lost race nothing more is written; after a won one the batch is `submitted`.
  finalize_persisted-Goes :
      (items : List Item) (done : Bool) (w : World)
      → (done ≡ true → w.mem.status ≡ Status.submitted)
      → Goes w (finalize_persisted env items done w).1
  finalize_persisted-Goes items false w h = Goes-refl w
  finalize_persisted-Goes items true w h = finalize_batch-Goes env rely items w (h refl)

  hold_persisted-Goes :
      (done : Bool) (w : World)
      → (done ≡ true → w.mem.status ≡ Status.submitted)
      → Goes w (hold_persisted env done w).1
  hold_persisted-Goes false w h = Goes-refl w
  hold_persisted-Goes true w h = hold_batch-Goes env rely w (rw (h refl) refl)

  settle_match-Goes :
      (items : List Item) (r : MatchResult) (w : World)
      → is_live w.mem.status ≡ true
      → Goes w (settle_match env items r w).1
  unfolding settle_match finalize_matched_transfer
  settle_match-Goes items MatchResult.unavailable w h =
      hold_after_reconcile-Goes env rely false w (live-open w.mem.status h)
  settle_match-Goes items multiple_matches w h = mark_batch_manual_review-Goes env rely _ w h
  settle_match-Goes items no_match w h =
      hold_after_reconcile-Goes env rely true w (live-open w.mem.status h)
  settle_match-Goes items incomplete_match w h =
      hold_after_reconcile-Goes env rely false w (live-open w.mem.status h)
  settle_match-Goes items (matched_waiting_tx_key fee hash) w h =
      Goes-trans (persist_submitted_batch-Goes env rely hash none fee w h) (
        hold_persisted-Goes (persist_submitted_batch env hash none fee w).0
          (persist_submitted_batch env hash none fee w).1
          (persist_submitted_batch-status env rely hash none fee w))
  settle_match-Goes items (matched_missing_tx_key fee hash) w h =
      mark_batch_manual_review-Goes env rely _ w h
  settle_match-Goes items (matched fee hash k) w h =
      Goes-trans (persist_submitted_batch-Goes env rely hash (some k) fee w h) (
        finalize_persisted-Goes items (persist_submitted_batch env hash (some k) fee w).0
          (persist_submitted_batch env hash (some k) fee w).1
          (persist_submitted_batch-status env rely hash (some k) fee w))

  settle_visibility-Goes :
      (items : List Item) (v : Visibility) (w : World)
      → w.mem.status ≡ Status.submitted
      → Goes w (settle_visibility env items v w).1
  unfolding settle_visibility
  settle_visibility-Goes items Visibility.unavailable w h =
      hold_after_reconcile-Goes env rely false w (rw h refl)
  settle_visibility-Goes items not_found w h = hold_after_reconcile-Goes env rely true w (rw h refl)
  settle_visibility-Goes items visible w h = finalize_batch-Goes env rely items w h

  reconcile_submitted_batch-Goes :
      (post : Bool) (items : List Item) (w : World)
      → w.mem.status ≡ Status.submitted
      → Goes w (reconcile_submitted_batch env post items w).1
  unfolding reconcile_submitted_batch
  reconcile_submitted_batch-Goes post items w h =
      Goes-if (has_plausible_wallet_fee w.mem.total_fee) w _ _
        (λ _.
          let (g, same) = search_visibility-Reads env rely post items w in
          Goes-trans g (
            settle_visibility-Goes items (search_visibility env post items w).0
              (search_visibility env post items w).1 (ap (λ (b : Batch). b.status) same ∙ h)))
        (λ _. mark_batch_manual_review-Goes env rely _ w (ground arith))

  pub reconcile_batch-Goes :
      (post : Bool) (items : List Item) (w : World)
      → is_live w.mem.status ≡ true
      → Goes w (reconcile_batch env post items w).1
  unfolding reconcile_batch
  reconcile_batch-Goes post items w h =
      Goes-if (is_throttled (env.now w.ticks) w.mem) w _ _ (λ _. Goes-refl w)
        (λ _.
          Goes-if (status_eq w.mem.status Status.submitted && not (is_none w.mem.tx_hash)) w _ _
            (λ q. reconcile_submitted_batch-Goes post items w (ground arith))
            (λ _.
              let (g, same) = search_match-Reads env rely post items w in
              Goes-trans g (
                settle_match-Goes items (search_match env post items w).0
                  (search_match env post items w).1
                  (ap (λ (b : Batch). is_live b.status) same ∙ h))))

  Goes-only_cleared : (u w : World) (o : Outcome) → Goes u w → Goes u (only_cleared env o w).1
  Goes-only_cleared u w cleared g = g
  Goes-only_cleared u w unresolved g = g
  Goes-only_cleared u w manual_review g = g

  reconcile_touched-Goes :
      (items : List Item) (done : Bool) (w : World)
      → (done ≡ true → is_live w.mem.status ≡ true)
      → Goes w (reconcile_touched env items done w).1
  reconcile_touched-Goes items false w h = Goes-refl w
  reconcile_touched-Goes items true w h =
      Goes-only_cleared w _ (reconcile_batch env true items w).0
        (reconcile_batch-Goes true items w (h refl))

  pub reconcile_ambiguous_submit-Goes :
      (items : List Item) (w : World)
      → is_live w.mem.status ≡ true
      → Goes w (reconcile_ambiguous_submit env items w).1
  unfolding reconcile_ambiguous_submit
  reconcile_ambiguous_submit-Goes items w h =
      let t = touched (current_time env w) in
      Goes-trans (touched-Goes env rely w (live-open w.mem.status h)) (
        reconcile_touched-Goes items (update_guarded env t w).0 (update_guarded env t w).1
          (λ e. ap (λ (b : Batch). is_live b.status) (update_guarded-mem env rely t w e) ∙ h))

  settle_submit_error-Goes :
      (r : MatchResult) (w : World)
      → is_live w.mem.status ≡ true
      → Goes w (settle_submit_error env r w).1
  unfolding settle_submit_error
  settle_submit_error-Goes MatchResult.unavailable w h =
      hold_batch-Goes env rely w (live-open w.mem.status h)
  settle_submit_error-Goes no_match w h = hold_batch-Goes env rely w (live-open w.mem.status h)
  settle_submit_error-Goes r w h = mark_batch_manual_review-Goes env rely (match_details r) w h

  pub reconcile_history_checked_submit_error-Goes :
      (items : List Item) (w : World)
      → is_live w.mem.status ≡ true
      → Goes w (reconcile_history_checked_submit_error env items w).1
  unfolding reconcile_history_checked_submit_error
  reconcile_history_checked_submit_error-Goes items w h =
      let (g, same) = search_match-Reads env rely true items w in
      Goes-trans g (
        settle_submit_error-Goes (search_match env true items w).0 (search_match env true items w).1
          (ap (λ (b : Batch). is_live b.status) same ∙ h))
