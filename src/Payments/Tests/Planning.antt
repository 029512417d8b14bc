-- ===== src/Payments/Tests/Planning.antt =====
-- Plans, fees, reservations and matches at concrete tables, and the properties at them.
use nodejs_pool.Prelude.{
  ◌≤◌, ◌≡◌, ◌↔◌, refl, true, some, [], ◌∷◌, length, count_if, sum_by, All, arith,
}
use nodejs_pool.Payments.Store.{Status, find_batch}
use nodejs_pool.Payments.Planner.{
  plan_batches, build_payout_item, calculate_charge_fee, bulk_batches, bulk_batch, payout_rows,
  threshold_of, plan_of, collect_rows, collect_row, collect_bulk, collect_integrated,
  should_skip_payout_row, is_integrated_address, integrated_batch_for,
}
use nodejs_pool.Payments.Planner.Items.{IsPayout, build_payout_item-IsPayout}
use nodejs_pool.Payments.Planner.Bulk.{plan_items, plan_items-bulk_batches, bulk_batches-fit}
use nodejs_pool.Payments.Planner.Recipients.{times_paid, plan_batches_pay_once}
use nodejs_pool.Payments.Planner.Backing.{IsBacked, plan_batches-IsBacked}
use nodejs_pool.Payments.Reserve.{reserve_batch, reserved_batch, pin_balances, pinned_rows}
use nodejs_pool.Payments.Reserve.Pins.{is_pinned, reserve_batch_pins}
use nodejs_pool.Payments.Matching.{
  transfer_matches_batch, normalize_transfer_destinations, valid_destinations, consume_all, consume,
  take_one, get, put, delete, add_key, destination_multiset, is_single_integrated_batch,
}
use nodejs_pool.Payments.Matching.Multiset.{Matches, transfer_matches_batch_iff}
use nodejs_pool.Payments.Tests.{
  config, tables, two_items, plan, alice, alice_paid, three_items, batch, reserved_tables, transfer,
  submitted,
}

plan_of_tables : plan_batches config tables ≡ some (plan ∷ [])
unfolding plan_batches plan_of payout_rows threshold_of collect_rows collect_row build_payout_item
    calculate_charge_fee collect_bulk collect_integrated should_skip_payout_row
    is_integrated_address bulk_batches bulk_batch integrated_batch_for
plan_of_tables = refl

alice_payout : build_payout_item config alice ≡ some alice_paid
unfolding build_payout_item calculate_charge_fee
alice_payout = refl

build_payout_item-IsPayout_example : IsPayout config alice alice_paid.item
build_payout_item-IsPayout_example = build_payout_item-IsPayout config alice alice_paid alice_payout

plan_items-bulk_batches_example : plan_items (bulk_batches 3 2 three_items) ≡ three_items
plan_items-bulk_batches_example =
    plan_items-bulk_batches 3 2 three_items (omega arith) (omega arith)

bulk_batches-fit_example :
    All (λ b. (1 ≤ length b.items) × (length b.items ≤ 2)) (bulk_batches 3 2 three_items)
bulk_batches-fit_example = bulk_batches-fit 3 2 three_items (omega arith)

plan_batches_pay_once_example : times_paid "alice" (plan_items (plan ∷ [])) ≤ 1
plan_batches_pay_once_example =
    plan_batches_pay_once config tables (plan ∷ []) "alice" plan_of_tables

plan_batches-IsBacked_example : All (IsBacked config tables) (plan_items (plan ∷ []))
plan_batches-IsBacked_example = plan_batches-IsBacked config tables (plan ∷ []) plan_of_tables

reserved_plan : reserve_batch 50 plan tables ≡ some (batch, reserved_tables)
unfolding reserve_batch pin_balances pinned_rows find_batch
reserved_plan = refl

reserve_batch_pins_example :
    (count_if (is_pinned 7) reserved_tables.balances ≡ 2)
    × (count_if (is_pinned 6) reserved_tables.balances ≡ 0)
    × (sum_by (λ r. r.amount) reserved_tables.balances ≡ sum_by (λ r. r.amount) tables.balances)
    × (Status.reserved ≡ Status.reserved)
    × (reserved_tables.batches ≡ batch ∷ [])
unfolding reserved_batch
reserve_batch_pins_example =
    reserve_batch_pins 50 6 plan tables reserved_tables batch (refl, (refl, (refl, (refl, tt))))
      (omega arith) reserved_plan

transfer_matches_batch_iff_example :
    (transfer_matches_batch submitted two_items transfer ≡ true)
    ↔ Matches submitted two_items transfer
transfer_matches_batch_iff_example = transfer_matches_batch_iff submitted two_items transfer

transfer_matches : transfer_matches_batch submitted two_items transfer ≡ true
unfolding transfer_matches_batch normalize_transfer_destinations valid_destinations consume_all
    consume take_one get put delete add_key destination_multiset reserved_batch
    is_single_integrated_batch
transfer_matches = refl
