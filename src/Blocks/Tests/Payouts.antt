-- ===== src/Blocks/Tests/Payouts.antt =====
-- Runs of payouts.
use nodejs_pool.Prelude.{
  inl, inr, length, keep_if, Bool-cases, ◌≤◌, ◌≡◌, refl, Bool, true, [], ◌∷◌, lookup, assign, arith,
}
use nodejs_pool.Payments.Store.{Balance}
use nodejs_pool.Blocks.Runtime.{ok, query, with_transaction}
use nodejs_pool.Blocks.Credits.{
  get_or_create_balance_id, resolve_balance_credits, apply_balance_credits, aggregate, resolve_ids,
  balance_id, is_balance_of, cache_key, update_batch, add_credit, has_id, credit_of,
  credit_balances, update_batches, insert_balance, insert_or_reload,
}
use nodejs_pool.Blocks.Payout.{
  credit_row, credit_rows, is_paid, get_balance_sum, insert_paid_block, rows_of, pay_rows,
  commit_credits, do_pplns_payments,
}
use nodejs_pool.Blocks.Recipients.{IsFound}
use nodejs_pool.Blocks.Succeeds.{do_pplns_payments-succeeds}
use nodejs_pool.Blocks.Atomic.{IsSettled, earned, do_pplns_payments-IsSettled}
use nodejs_pool.Blocks.Crediting.{IsReady}
use nodejs_pool.Blocks.Tests.Bank.{env, failing, balance, bank, paid}

bank-IsReady : IsReady bank.tables
bank-IsReady = ((refl, tt), (omega arith, tt))

do_pplns_payments_both :
    (do_pplns_payments env paid bank).1.tables.balances
    ≡ balance 1 "4A" 760 ∷ balance 2 "4B" 250 ∷ []
unfolding do_pplns_payments get_balance_sum query pay_rows resolve_balance_credits resolve_ids
    credit_rows credit_row get_or_create_balance_id balance_id lookup is_balance_of assign cache_key
    insert_or_reload aggregate add_credit commit_credits apply_balance_credits credit_balances
    credit_of has_id insert_balance update_batch update_batches insert_paid_block is_paid
    with_transaction
do_pplns_payments_both = refl

-- The commit fails: the new balance stays, without a credit.
do_pplns_payments_rolled_back :
    (do_pplns_payments (failing 9) paid bank).1.tables.balances
    ≡ balance 1 "4A" 10 ∷ balance 2 "4B" 0 ∷ []
unfolding do_pplns_payments get_balance_sum query pay_rows resolve_balance_credits resolve_ids
    credit_rows credit_row get_or_create_balance_id balance_id lookup is_balance_of assign cache_key
    insert_or_reload aggregate add_credit commit_credits apply_balance_credits credit_balances
    credit_of has_id insert_balance update_batch update_batches insert_paid_block is_paid
    with_transaction
do_pplns_payments_rolled_back = refl

do_pplns_payments-IsSettled_example :
    IsSettled paid
      (earned 1_000 (rows_of env "b1" bank))
      bank.tables
      (do_pplns_payments env paid bank)
do_pplns_payments-IsSettled_example = do_pplns_payments-IsSettled env paid bank bank-IsReady

one_row : (test : Balance → Bool) (b : Balance) → length (keep_if test (b ∷ [])) ≤ 1
one_row test b = elim (Bool-cases (test b)) [
  | inl q ↦ rw q (omega arith)
  | inr q ↦ rw q (omega arith)
]

bank-IsFound : IsFound bank
bank-IsFound = record {
  cached = tt;
  alone = λ a y i. one_row (is_balance_of a y i) (balance 1 "4A" 10);
}

do_pplns_payments-succeeds_example : (do_pplns_payments env paid bank).0 ≡ ok true
unfolding is_paid
do_pplns_payments-succeeds_example =
    do_pplns_payments-succeeds env paid bank (λ t. refl) (λ t. refl) refl (omega arith)
      (omega arith) bank-IsReady bank-IsFound
