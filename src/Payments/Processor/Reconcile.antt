-- ===== src/Payments/Processor/Reconcile.antt =====
-- lib/payments/processor.js: the reconciliation of a batch that may have been sent.
use nodejs_pool.Prelude.{
  ℕ, ◌-◌, ◌*◌, Bool, true, false, none, some, List, ◌==◌, ltb, ◌&&◌, not, if◌then◌else◌,
}
use nodejs_pool.Payments.Store.{Batch, Item, Status, status_eq, is_none}
use nodejs_pool.Payments.Planner.{or_zero}
use nodejs_pool.Payments.Runtime.{Env, M, ◌>>=◌, update_guarded, current_time}
use nodejs_pool.Payments.Processor.Search.{
  MatchResult, multiple_matches, no_match, incomplete_match, matched_waiting_tx_key,
  matched_missing_tx_key, matched, Visibility, visible, not_found, has_plausible_wallet_fee,
  search_match, search_visibility,
}
use nodejs_pool.Payments.Processor.Settle.{
  Outcome, cleared, unresolved, Details, outcome_if, cleared_if, touched, hold_batch,
  hold_after_reconcile, mark_batch_manual_review, persist_submitted_batch, finalize_batch,
}

-- `RECONCILE_POLL_INTERVAL_MS`.
abbrev pub poll_interval : ℕ
poll_interval = 600_000

-- `matchResultDetails`.
abbrev pub match_details : MatchResult → Details
match_details (matched_waiting_tx_key fee hash) = record {
  tx_hash = some hash;
  tx_key = none;
  total_fee = some fee;
}
match_details (matched_missing_tx_key fee hash) = record {
  tx_hash = some hash;
  tx_key = none;
  total_fee = some fee;
}
match_details (matched fee hash k) = record {
  tx_hash = some hash;
  tx_key = some k;
  total_fee = some fee;
}
match_details _ = record { tx_hash = none; tx_key = none; total_fee = none }

-- `nextReconcileDelayMs(batch) > 0`. A zero or missing time never delays.
unfoldable pub is_throttled : ℕ → Batch → Bool
is_throttled now b =
    let last = or_zero b.last_reconciled_at in
    if last == 0 then false else ltb (now - last * 1000) poll_interval

module _ (env : Env) where
  -- `finalizeMatchedTransfer`.
  abbrev pub finalize_persisted : List Item → Bool → M Outcome
  finalize_persisted items false = outcome_if unresolved false
  finalize_persisted items true = finalize_batch env items >>= cleared_if

  unfoldable pub finalize_matched_transfer : List Item → ℕ → ℕ → ℕ → M Outcome
  finalize_matched_transfer items fee hash k =
      persist_submitted_batch env hash (some k) fee >>= finalize_persisted items

  abbrev pub hold_persisted : Bool → M Outcome
  hold_persisted false = outcome_if unresolved false
  hold_persisted true = hold_batch env

  -- What a reconciliation does with each result of the search.
  unfoldable pub settle_match : List Item → MatchResult → M Outcome
  settle_match items MatchResult.unavailable = hold_after_reconcile env false
  settle_match items multiple_matches =
      mark_batch_manual_review env (match_details multiple_matches)
  settle_match items no_match = hold_after_reconcile env true
  settle_match items incomplete_match = hold_after_reconcile env false
  settle_match items (matched_waiting_tx_key fee hash) =
      persist_submitted_batch env hash none fee >>= hold_persisted
  settle_match items (matched_missing_tx_key fee hash) =
      mark_batch_manual_review env (match_details (matched_missing_tx_key fee hash))
  settle_match items (matched fee hash k) = finalize_matched_transfer items fee hash k

  unfoldable pub settle_visibility : List Item → Visibility → M Outcome
  settle_visibility items Visibility.unavailable = hold_after_reconcile env false
  settle_visibility items not_found = hold_after_reconcile env true
  settle_visibility items visible = finalize_batch env items >>= cleared_if

  -- `reconcileSubmittedBatch`.
  unfoldable pub reconcile_submitted_batch : Bool → List Item → M Outcome
  reconcile_submitted_batch post items w =
      if has_plausible_wallet_fee w.mem.total_fee
      then (search_visibility env post items >>= settle_visibility items) w
      else mark_batch_manual_review env
          (record { tx_hash = w.mem.tx_hash; tx_key = none; total_fee = w.mem.total_fee }) w

  -- `reconcileBatch`.
  unfoldable pub reconcile_batch : Bool → List Item → M Outcome
  reconcile_batch post items w =
      if is_throttled (env.now w.ticks) w.mem
      then (unresolved, w)
      else if status_eq w.mem.status Status.submitted && not (is_none w.mem.tx_hash)
      then reconcile_submitted_batch post items w
      else (search_match env post items >>= settle_match items) w

  -- `reconcileAmbiguousSubmit`: only a cleared batch is reported on.
  abbrev pub only_cleared : Outcome → M Outcome
  only_cleared cleared w = (cleared, w)
  only_cleared _ w = (unresolved, w)

  abbrev pub reconcile_touched : List Item → Bool → M Outcome
  reconcile_touched items false = outcome_if unresolved false
  reconcile_touched items true = reconcile_batch true items >>= only_cleared

  unfoldable pub reconcile_ambiguous_submit : List Item → M Outcome
  reconcile_ambiguous_submit items w =
      (update_guarded env (touched (current_time env w)) >>= reconcile_touched items) w

  -- `reconcileHistoryCheckedSubmitError`.
  unfoldable pub settle_submit_error : MatchResult → M Outcome
  settle_submit_error MatchResult.unavailable = hold_batch env
  settle_submit_error no_match = hold_batch env
  settle_submit_error result = mark_batch_manual_review env (match_details result)

  unfoldable pub reconcile_history_checked_submit_error : List Item → M Outcome
  reconcile_history_checked_submit_error items = search_match env true items >>= settle_submit_error
