-- ===== src/Payments/Processor/Submit.antt =====
-- lib/payments/processor.js: the submit of a reserved batch, and the recovery of pending ones.
use nodejs_pool.Prelude.{
  ℕ, Bool, true, false, Option, none, some, List, [], ◌∷◌, ◌==◌, ◌&&◌, not, if◌then◌else◌, map,
  keep_if,
}
use nodejs_pool.Payments.Store.{Batch, Item, ItemRow, Status, status_eq}
use nodejs_pool.Payments.Reserve.{Preflight, passed, preflight_wallet_balance}
use nodejs_pool.Payments.Runtime.{
  Env, M, pure, ◌>>=◌, await, elapse, reload, row_matches, update_row, current_time,
  enter_fail_stop, check_exclusive_access, TransferReply, error, no_result, sent,
}
use nodejs_pool.Payments.Processor.Search.{
  TxKeyResult, retry, missing, ok, Visibility, visible, has_plausible_wallet_fee, resolve_tx_key,
  find_submitted_transfer_visibility_after_submit,
}
use nodejs_pool.Payments.Processor.Settle.{
  Outcome, cleared, unresolved, left_as, outcome_if, cleared_if, hold_batch, hold_batch_for_retry,
  mark_batch_manual_review, persist_submitted_batch, finalize_batch, release_batch_reservation,
}
use nodejs_pool.Payments.Processor.Reconcile.{
  reconcile_batch, reconcile_ambiguous_submit, reconcile_history_checked_submit_error,
}

abbrev pub claimed_at : ℕ → Batch → Batch
claimed_at t b = record b { status = Status.submitting; submit_started_at = some t; updated_at = t }

abbrev pub has_status : Status → Batch → Bool
has_status expected b = status_eq b.status expected

-- The end of `handleLostSubmitClaim`.
abbrev pub lost_claim : M Outcome
lost_claim w = left_as w.mem.status w

module _ (env : Env) where
  -- `claimBatchForSubmit`, with `batch.status` expected.
  unfoldable pub claim_batch_for_submit : M Bool
  claim_batch_for_submit w =
      let t = current_time env w in
      let w' = elapse env w in
      let guard = has_status w'.mem.status in
      if row_matches w'.mem.id guard w'.store.batches
      then (
        true,
        record w' {
          store = record w'.store {
            batches = update_row w'.mem.id guard (claimed_at t) w'.store.batches;
            claims = w'.mem.id ∷ w'.store.claims;
          };
          mem = claimed_at t w'.mem;
          claimed = w'.mem.id ∷ w'.claimed;
        },
      )
      else (false, record (elapse env w') { mem = reload w'.mem (elapse env w').store.batches })

  -- `callWallet("transfer", …)`.
  unfoldable pub transfer_batch : M TransferReply
  transfer_batch w =
      (env.transfer w.ticks, record (elapse env w) { transferred = w.mem.id ∷ w.transferred })

  abbrev pub settle_seen : List Item → Visibility → M Outcome
  settle_seen items visible = finalize_batch env items >>= cleared_if
  settle_seen items _ = hold_batch env

  -- `waitForSubmittedVisibility` and the end of the submit.
  abbrev pub settle_persisted : List Item → Bool → M Outcome
  settle_persisted items false = outcome_if unresolved false
  settle_persisted items true =
      find_submitted_transfer_visibility_after_submit env items >>= settle_seen items

  unfoldable pub persist_and_settle : List Item → ℕ → ℕ → Option ℕ → M Outcome
  persist_and_settle items hash fee k =
      persist_submitted_batch env hash k fee >>= settle_persisted items

  abbrev pub review_persisted : ℕ → ℕ → Bool → M Outcome
  review_persisted hash fee false = outcome_if unresolved false
  review_persisted hash fee true =
      mark_batch_manual_review env
        (record { tx_hash = some hash; tx_key = none; total_fee = some fee })

  -- `resolveSubmittedTxKey`: a key that is known to be missing goes to review.
  abbrev pub with_submit_key : List Item → ℕ → ℕ → TxKeyResult → M Outcome
  with_submit_key items hash fee (ok k) = persist_and_settle items hash fee (some k)
  with_submit_key items hash fee retry = persist_and_settle items hash fee none
  with_submit_key items hash fee missing =
      persist_submitted_batch env hash none fee >>= review_persisted hash fee

  unfoldable pub accept_transfer : List Item → ℕ → ℕ → Option ℕ → M Outcome
  accept_transfer items hash fee (some k) = persist_and_settle items hash fee (some k)
  accept_transfer items hash fee none = resolve_tx_key env >>= with_submit_key items hash fee

  abbrev pub accept_plausible : List Item → Option ℕ → Option ℕ → Option ℕ → M Outcome
  accept_plausible items none fee k = reconcile_ambiguous_submit env items
  accept_plausible items (some hash) none k = reconcile_ambiguous_submit env items
  accept_plausible items (some hash) (some fee) k =
      if has_plausible_wallet_fee (some fee)
      then accept_transfer items hash fee k
      else reconcile_ambiguous_submit env items

  -- `handleTransferReplyError` and what follows a reply without an error.
  unfoldable pub settle_reply : List Item → TransferReply → M Outcome
  settle_reply items (error true) = reconcile_history_checked_submit_error env items
  settle_reply items (error false) = reconcile_ambiguous_submit env items
  settle_reply items no_result = reconcile_ambiguous_submit env items
  settle_reply items (sent hash fee k) = accept_plausible items hash fee k

  abbrev pub if_claimed : List Item → Bool → M Outcome
  if_claimed items true = transfer_batch >>= settle_reply items
  if_claimed items false = lost_claim

  abbrev pub if_still_exclusive : List Item → Bool → M Outcome
  if_still_exclusive items true = claim_batch_for_submit >>= if_claimed items
  if_still_exclusive items false = pure unresolved

  abbrev pub after_preflight : List Item → Preflight → M Outcome
  after_preflight items passed = check_exclusive_access env >>= if_still_exclusive items
  after_preflight items _ = hold_batch_for_retry env

  unfoldable pub preflight : M Preflight
  unfolding await
  preflight w =
      await env
        (λ n. preflight_wallet_balance env.fee_buffer (some w.mem.total_net) (env.balance n)) w

  abbrev pub if_exclusive : List Item → Bool → M Outcome
  if_exclusive items true = preflight >>= after_preflight items
  if_exclusive items false = pure unresolved

  -- `submitReservedBatch`.
  unfoldable pub submit_reserved_batch : List Item → M Outcome
  submit_reserved_batch items = check_exclusive_access env >>= if_exclusive items

  -- `SELECT * FROM payment_batch_items WHERE batch_id = ? ORDER BY destination_order`, whose rows
  -- stand in the order of their insertion.
  unfoldable pub batch_items : ℕ → List ItemRow → List Item
  batch_items i rows = map (λ r. r.item) (keep_if (λ r. r.batch_id == i) rows)

  abbrev pub is_pending : Batch → Bool
  is_pending b =
      not (status_eq b.status Status.finalized) && not (status_eq b.status Status.retryable)

  -- What recovery does with one batch; the answer says whether it goes on to the next.
  abbrev pub go_on_if_cleared : Outcome → M Bool
  go_on_if_cleared cleared = pure true
  go_on_if_cleared _ = pure false

  abbrev pub recover_reserved : List Item → Option ℕ → M Bool
  recover_reserved items none = release_batch_reservation env
  recover_reserved items (some t) = reconcile_batch env false items >>= go_on_if_cleared

  abbrev pub recover_by_status : List Item → Status → M Bool
  recover_by_status items Status.manual_review w = (false, enter_fail_stop w)
  recover_by_status items Status.retrying w = (submit_reserved_batch items >>= go_on_if_cleared) w
  recover_by_status items Status.reserved w = recover_reserved items w.mem.submit_started_at w
  recover_by_status items Status.submitting w =
      (reconcile_batch env false items >>= go_on_if_cleared) w
  recover_by_status items Status.submitted w =
      (reconcile_batch env false items >>= go_on_if_cleared) w
  recover_by_status items _ w = (true, w)

  abbrev pub if_recovering : Bool → M Bool
  if_recovering false w = (false, w)
  if_recovering true w =
      recover_by_status (batch_items w.mem.id w.store.items) w.mem.status (elapse env w)

  unfoldable pub recover_batch : Batch → M Bool
  recover_batch b w = (check_exclusive_access env >>= if_recovering) (record w { mem = b })

  unfoldable pub recover_batches : List Batch → M Bool
  recover_batches [] w = (true, w)
  recover_batches (b ∷ bs) w = elim (recover_batch b w).0 [
    | true ↦ recover_batches bs (recover_batch b w).1
    | false ↦ (false, (recover_batch b w).1)
  ]

  -- `recoverPendingBatches`.
  unfoldable pub recover_pending_batches : M Bool
  recover_pending_batches w = recover_batches (keep_if is_pending w.store.batches) (elapse env w)
