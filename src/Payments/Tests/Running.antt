-- ===== src/Payments/Tests/Running.antt =====
-- Recoveries, cycles and interleavings at a concrete wallet, and the properties at them.
use nodejs_pool.Prelude.{◌≤◌, ◌≡◌, refl, true, [], ◌∷◌, All, arith, map}
use nodejs_pool.Payments.Store.{Status, Balance, Batch, Payment, find_batch}
use nodejs_pool.Payments.Planner.{
  plan_batches, build_payout_item, calculate_charge_fee, bulk_batches, bulk_batch, payout_rows,
  threshold_of, plan_of, collect_rows, collect_row, collect_bulk, collect_integrated,
  should_skip_payout_row, is_integrated_address, integrated_batch_for,
}
use nodejs_pool.Payments.Reserve.{
  reserve_batch, reserved_batch, pin_balances, pinned_rows, item_rows, preflight_wallet_balance,
}
use nodejs_pool.Payments.Matching.{
  transfer_matches_batch, normalize_transfer_destinations, valid_destinations, consume_all, consume,
  take_one, get, put, delete, add_key, destination_multiset, is_single_integrated_batch,
}
use nodejs_pool.Payments.Runtime.{
  error, row_matches, update_row, check_exclusive_access, verify_advisory_lock, elapse, await,
  update_guarded, update_if_current,
}
use nodejs_pool.Payments.Processor.Settle.{
  finalize_transaction, transaction_row, payment_rows, gross_of, consume_balances,
  persist_submitted_batch, finalize_batch, commit_final,
}
use nodejs_pool.Payments.Processor.Search.{
  has_plausible_wallet_fee, find_submitted_transfer_visibility_after_submit,
  retry_post_submit_search, search_again, find_submitted_transfer_visibility,
  load_submitted_transfers_by_tx_hash, load_wallet_transfer_by_tx_hash, any_visible,
}
use nodejs_pool.Payments.Processor.Submit.{
  submit_reserved_batch, settle_reply, recover_pending_batches, recover_batches, recover_batch,
  batch_items, preflight, claim_batch_for_submit, transfer_batch, accept_transfer,
  persist_and_settle,
}
use nodejs_pool.Payments.Machine.{IsUnstarted, times_claimed}
use nodejs_pool.Payments.Machine.Moves.{Goes}
use nodejs_pool.Payments.Machine.Submits.{settle_reply-Goes}
use nodejs_pool.Payments.Machine.Claims.{Tracks, submit_reserved_batch-Tracks}
use nodejs_pool.Payments.Machine.Recovers.{
  recover_pending_batches-Tracks, recover_pending_batches_transfers_once,
}
use nodejs_pool.Payments.Cycle.{
  run_cycle, ensure_advisory_lock, recover_pending, pay_plans, pay_plan, reserve_plan,
}
use nodejs_pool.Payments.Machine.Cycles.{run_cycle-Tracks, run_cycle_transfers_once}
use nodejs_pool.Payments.Tests.{
  config, tables, two_items, reserved_tables, wallet, alone, world_of, retrying_tables,
  submitted_world,
}

-- The batch is paid: the recovery goes on, its row is final, and there was one transfer.
recovery_pays :
    ((recover_pending_batches wallet (world_of retrying_tables)).0 ≡ true)
    × ((recover_pending_batches wallet (world_of retrying_tables)).1.transferred ≡ 7 ∷ [])
    × (map
          (λ (b : Batch). b.status)
          (recover_pending_batches wallet (world_of retrying_tables)).1.store.batches
        ≡ Status.finalized ∷ [])
unfolding recover_pending_batches recover_batches recover_batch batch_items check_exclusive_access
    verify_advisory_lock elapse await submit_reserved_batch preflight preflight_wallet_balance
    claim_batch_for_submit row_matches update_row find_batch transfer_batch settle_reply
    accept_transfer persist_and_settle persist_submitted_batch update_guarded update_if_current
    has_plausible_wallet_fee find_submitted_transfer_visibility_after_submit
    retry_post_submit_search search_again find_submitted_transfer_visibility
    load_submitted_transfers_by_tx_hash load_wallet_transfer_by_tx_hash any_visible
    transfer_matches_batch normalize_transfer_destinations valid_destinations consume_all consume
    take_one get put delete add_key destination_multiset reserved_batch is_single_integrated_batch
    finalize_batch commit_final finalize_transaction gross_of consume_balances item_rows
recovery_pays = (refl, refl, refl)

unstarted : All IsUnstarted retrying_tables.batches
unfolding reserved_batch
unstarted = ((λ _. refl), tt)

recover_pending_batches_transfers_once_example :
    times_claimed 7 (recover_pending_batches wallet (world_of retrying_tables)).1.transferred ≤ 1
recover_pending_batches_transfers_once_example =
    recover_pending_batches_transfers_once wallet alone 7 (world_of retrying_tables) unstarted
      (omega arith) (omega arith) (omega arith)

recover_pending_batches-Tracks_example :
    Tracks (world_of retrying_tables) (recover_pending_batches wallet (world_of retrying_tables)).1
recover_pending_batches-Tracks_example =
    recover_pending_batches-Tracks wallet alone (world_of retrying_tables) unstarted

submit_reserved_batch-Tracks_example :
    Tracks
      (world_of reserved_tables)
      (submit_reserved_batch wallet two_items (world_of reserved_tables)).1
unfolding reserved_batch
submit_reserved_batch-Tracks_example =
    submit_reserved_batch-Tracks wallet alone two_items (world_of reserved_tables) refl

settle_reply-Goes_example :
    Goes submitted_world (settle_reply wallet two_items (error true) submitted_world).1
settle_reply-Goes_example =
    settle_reply-Goes wallet alone two_items (error true) submitted_world refl

-- A whole cycle over the tables of the beginning: the plan is reserved, submitted and paid, the cycle
-- is clean, and each recipient of the plan keeps what the denomination left.
cycle_pays :
    let r = run_cycle wallet config (world_of tables) in
    (r.0 ≡ true)
    × (r.1.transferred ≡ 7 ∷ [])
    × (map (λ (b : Balance). b.amount) r.1.store.balances ≡ 5 ∷ 0 ∷ 9_000 ∷ 500 ∷ [])
    × (map (λ (p : Payment). p.amount) r.1.store.payments ≡ 2_920 ∷ 5_950 ∷ [])
unfolding run_cycle ensure_advisory_lock recover_pending pay_plans pay_plan reserve_plan
    plan_batches plan_of payout_rows threshold_of collect_rows collect_row build_payout_item
    calculate_charge_fee collect_bulk collect_integrated should_skip_payout_row
    is_integrated_address bulk_batches bulk_batch integrated_batch_for reserve_batch pin_balances
    pinned_rows payment_rows transaction_row recover_pending_batches recover_batches recover_batch
    batch_items check_exclusive_access verify_advisory_lock elapse await submit_reserved_batch
    preflight preflight_wallet_balance claim_batch_for_submit row_matches update_row find_batch
    transfer_batch settle_reply accept_transfer persist_and_settle persist_submitted_batch
    update_guarded update_if_current has_plausible_wallet_fee
    find_submitted_transfer_visibility_after_submit retry_post_submit_search search_again
    find_submitted_transfer_visibility load_submitted_transfers_by_tx_hash
    load_wallet_transfer_by_tx_hash any_visible transfer_matches_batch
    normalize_transfer_destinations valid_destinations consume_all consume take_one get put delete
    add_key destination_multiset reserved_batch is_single_integrated_batch finalize_batch
    commit_final finalize_transaction gross_of consume_balances item_rows
cycle_pays = (refl, refl, refl, refl)

tables-IsUnstarted : All IsUnstarted tables.batches
tables-IsUnstarted = tt

run_cycle_transfers_once_example :
    times_claimed 7 (run_cycle wallet config (world_of tables)).1.transferred ≤ 1
unfolding find_batch
run_cycle_transfers_once_example =
    run_cycle_transfers_once wallet config alone 7 (world_of tables) tables-IsUnstarted
      (omega arith) (omega arith) (omega arith)

run_cycle-Tracks_example : Tracks (world_of tables) (run_cycle wallet config (world_of tables)).1
run_cycle-Tracks_example = run_cycle-Tracks wallet config alone (world_of tables) tables-IsUnstarted
