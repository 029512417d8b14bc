-- ===== src/Payments/Machine/Submits.antt =====
-- The submit and the recovery are made of steps of the machine, and a batch goes to the wallet only
-- after its claim.
use nodejs_pool.Prelude.{
  ℕ, Bool, true, false, ◌≡◌, refl, ◌∙◌, ap, Option, none, some, List, Bool-cases, inl, inr,
}
use nodejs_pool.Payments.Store.{Batch, Store, Status, Item}
use nodejs_pool.Payments.Runtime.{Env, World, TransferReply, error, no_result, sent}
use nodejs_pool.Payments.Processor.Search.{
  TxKeyResult, retry, missing, ok, Visibility, visible, not_found, has_plausible_wallet_fee,
  resolve_tx_key, search_visibility,
}
use nodejs_pool.Payments.Processor.Settle.{persist_submitted_batch}
use nodejs_pool.Payments.Processor.Submit.{
  settle_seen, settle_persisted, persist_and_settle, review_persisted, with_submit_key,
  accept_transfer, accept_plausible, settle_reply,
}
use nodejs_pool.Payments.Machine.{is_live, Steps}
use nodejs_pool.Payments.Machine.Moves.{Goes, Goes-refl, Goes-trans}
use nodejs_pool.Payments.Machine.Reads.{resolve_tx_key-Reads, search_visibility-Reads}
use nodejs_pool.Payments.Machine.Writes.{
  hold_batch-Goes, mark_batch_manual_review-Goes, persist_submitted_batch-Goes,
  persist_submitted_batch-status,
}
use nodejs_pool.Payments.Machine.Finals.{finalize_batch-Goes}
use nodejs_pool.Payments.Machine.Reconciles.{
  reconcile_ambiguous_submit-Goes, reconcile_history_checked_submit_error-Goes,
}

module _ (env : Env) (rely : (n : ℕ) (s : Store) → Steps s (env.others n s)) where
  settle_seen-Goes :
      (items : List Item) (v : Visibility) (w : World)
      → w.mem.status ≡ Status.submitted
      → Goes w (settle_seen env items v w).1
  settle_seen-Goes items visible w h = finalize_batch-Goes env rely items w h
  settle_seen-Goes items Visibility.unavailable w h = hold_batch-Goes env rely w (rw h refl)
  settle_seen-Goes items not_found w h = hold_batch-Goes env rely w (rw h refl)

  settle_persisted-Goes :
      (items : List Item) (done : Bool) (w : World)
      → (done ≡ true → w.mem.status ≡ Status.submitted)
      → Goes w (settle_persisted env items done w).1
  unfolding search_visibility
  settle_persisted-Goes items false w h = Goes-refl w
  settle_persisted-Goes items true w h =
      let (g, same) = search_visibility-Reads env rely true items w in
      Goes-trans g (
        settle_seen-Goes items (search_visibility env true items w).0
          (search_visibility env true items w).1 (ap (λ (b : Batch). b.status) same ∙ h refl))

  persist_and_settle-Goes :
      (items : List Item) (hash fee : ℕ) (k : Option ℕ) (w : World)
      → is_live w.mem.status ≡ true
      → Goes w (persist_and_settle env items hash fee k w).1
  unfolding persist_and_settle
  persist_and_settle-Goes items hash fee k w h =
      Goes-trans (persist_submitted_batch-Goes env rely hash k fee w h) (
        settle_persisted-Goes items (persist_submitted_batch env hash k fee w).0
          (persist_submitted_batch env hash k fee w).1
          (persist_submitted_batch-status env rely hash k fee w))

  review_persisted-Goes :
      (hash fee : ℕ) (done : Bool) (w : World)
      → (done ≡ true → w.mem.status ≡ Status.submitted)
      → Goes w (review_persisted env hash fee done w).1
  review_persisted-Goes hash fee false w h = Goes-refl w
  review_persisted-Goes hash fee true w h =
      mark_batch_manual_review-Goes env rely _ w (rw (h refl) refl)

  with_submit_key-Goes :
      (items : List Item) (hash fee : ℕ) (r : TxKeyResult) (w : World)
      → is_live w.mem.status ≡ true
      → Goes w (with_submit_key env items hash fee r w).1
  with_submit_key-Goes items hash fee (ok k) w h =
      persist_and_settle-Goes items hash fee (some k) w h
  with_submit_key-Goes items hash fee retry w h = persist_and_settle-Goes items hash fee none w h
  with_submit_key-Goes items hash fee missing w h =
      Goes-trans (persist_submitted_batch-Goes env rely hash none fee w h) (
        review_persisted-Goes hash fee (persist_submitted_batch env hash none fee w).0
          (persist_submitted_batch env hash none fee w).1
          (persist_submitted_batch-status env rely hash none fee w))

  accept_transfer-Goes :
      (items : List Item) (hash fee : ℕ) (k : Option ℕ) (w : World)
      → is_live w.mem.status ≡ true
      → Goes w (accept_transfer env items hash fee k w).1
  unfolding accept_transfer
  accept_transfer-Goes items hash fee (some k) w h =
      persist_and_settle-Goes items hash fee (some k) w h
  accept_transfer-Goes items hash fee none w h =
      let (g, same) = resolve_tx_key-Reads env rely w in
      Goes-trans g (
        with_submit_key-Goes items hash fee (resolve_tx_key env w).0 (resolve_tx_key env w).1
          (ap (λ (b : Batch). is_live b.status) same ∙ h))

  accept_plausible-Goes :
      (items : List Item) (hash fee k : Option ℕ) (w : World)
      → is_live w.mem.status ≡ true
      → Goes w (accept_plausible env items hash fee k w).1
  accept_plausible-Goes items none fee k w h = reconcile_ambiguous_submit-Goes env rely items w h
  accept_plausible-Goes items (some hash) none k w h =
      reconcile_ambiguous_submit-Goes env rely items w h
  accept_plausible-Goes items (some hash) (some fee) k w h = elim (Bool-cases plausible) [
    | inl e ↦ rw e (accept_transfer-Goes items hash fee k w h)
    | inr e ↦ rw e (reconcile_ambiguous_submit-Goes env rely items w h)
  ]
    where
      plausible : Bool
      plausible = has_plausible_wallet_fee (some fee)

  -- Whatever the wallet replies to a transfer of a batch that is `submitting` or `submitted`, what
  -- follows moves the tables by steps of the state machine, and makes no other claim or transfer.
  pub settle_reply-Goes :
      (items : List Item) (r : TransferReply) (w : World)
      → is_live w.mem.status ≡ true
      → Goes w (settle_reply env items r w).1
  unfolding settle_reply
  settle_reply-Goes items (error true) w h =
      reconcile_history_checked_submit_error-Goes env rely items w h
  settle_reply-Goes items (error false) w h = reconcile_ambiguous_submit-Goes env rely items w h
  settle_reply-Goes items no_result w h = reconcile_ambiguous_submit-Goes env rely items w h
  settle_reply-Goes items (sent hash fee k) w h = accept_plausible-Goes items hash fee k w h
