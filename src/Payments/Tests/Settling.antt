-- ===== src/Payments/Tests/Settling.antt =====
-- A finalization at concrete tables, and the properties at it.
use nodejs_pool.Prelude.{◌+◌, ◌≡◌, refl, some, length, count_if, sum_by, arith}
use nodejs_pool.Payments.Store.{Status, Batch, find_batch}
use nodejs_pool.Payments.Reserve.{reserved_batch, balance_ids}
use nodejs_pool.Payments.Runtime.{row_matches, update_row}
use nodejs_pool.Payments.Processor.Settle.{
  is_consumed, finalize_transaction, gross_of, consume_balances,
}
use nodejs_pool.Payments.Ledger.{
  IsCovered, consumed_amount, finalized_row, finalize_transaction_ledger,
}
use nodejs_pool.Payments.Tests.{two_items, submitted, submitted_tables, final_tables}

finalized : finalize_transaction 90 submitted two_items submitted_tables ≡ some final_tables
unfolding finalize_transaction row_matches update_row find_batch gross_of consume_balances
    reserved_batch
finalized = refl

finalized_row_example :
    (b : Batch) × (find_batch submitted.id final_tables.batches ≡ some b)
    × (b.status ≡ Status.finalized)
    × (b.transaction_id ≡ some 1)
finalized_row_example = finalized_row 90 submitted two_items submitted_tables final_tables finalized

covered : IsCovered submitted.id two_items submitted_tables.balances
unfolding gross_of reserved_batch
covered = (λ _. omega arith, ((λ _. omega arith), ((λ _. omega arith), ((λ _. omega arith), tt))))

finalize_transaction_ledger_example :
    (sum_by (λ p. p.amount) final_tables.payments ≡ 0 + sum_by (λ i. i.net_amount) two_items)
    × (sum_by (λ b. b.amount) final_tables.balances
          + consumed_amount submitted.id two_items submitted_tables.balances
        ≡ sum_by (λ b. b.amount) submitted_tables.balances)
    × (count_if (is_consumed submitted.id (balance_ids two_items)) final_tables.balances ≡ 0)
    × (length final_tables.transactions ≡ 1)
finalize_transaction_ledger_example =
    finalize_transaction_ledger 90 submitted two_items submitted_tables final_tables covered
      finalized
