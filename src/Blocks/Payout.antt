-- ===== src/Blocks/Payout.antt =====
-- lib/block_manager.js: `doPPLNSPayments` and `executePayout`.
use nodejs_pool.Prelude.{
  ℕ, ◌*◌, ◌/◌, Bool, true, false, not, List, [], ◌∷◌, String, ◌==◌, str_eq, if◌then◌else◌, keep_if,
  sum_by, map,
}
use nodejs_pool.Blocks.Runtime.{
  PaidBlock, BlockBalance, Tables, Env, World, Outcome, ok, thrown, M, pure, ◌>>=◌, full_stop,
  query, with_transaction,
}
use nodejs_pool.Blocks.Credits.{
  PaymentRow, normalize_payment_id, Credit, resolve_balance_credits, apply_balance_credits,
}

abbrev pub balance_sum : Tables → ℕ
balance_sum t = sum_by (λ b. b.amount) t.balances

abbrev pub is_empty {ℓ} : {A : Type ℓ} → List A → Bool
is_empty [] = true
is_empty (x ∷ xs) = false

-- `Math.floor(row.amount * blockReward)`.
unfoldable pub credit_row : ℕ → BlockBalance → PaymentRow
credit_row reward r = record {
  payment_address = r.payment_address;
  payment_id = normalize_payment_id r.payment_id;
  pool_type = "pplns";
  amount = r.part * reward / r.whole;
}

unfoldable pub credit_rows : ℕ → List BlockBalance → List PaymentRow
credit_rows reward rs = keep_if (λ p. not (p.amount == 0)) (map (credit_row reward) rs)

unfoldable pub is_paid : String → List PaidBlock → Bool
is_paid hex [] = false
is_paid hex (p ∷ ps) = if str_eq p.hex hex then true else is_paid hex ps

module _ (env : Env) where
  -- `getBalanceSum`: the sum over no rows is NULL, which throws.
  unfoldable pub get_balance_sum : M ℕ
  get_balance_sum = query env >>= λ _.
      λ w. if is_empty w.tables.balances then (thrown, w) else (ok (balance_sum w.tables), w)

  -- `INSERT INTO paid_blocks`, which throws on a duplicate hash.
  unfoldable pub insert_paid_block : PaidBlock → M (Unit {0})
  insert_paid_block p = query env >>= λ _. λ w.
      if is_paid p.hex w.tables.paid_blocks
      then (thrown, w)
      else (ok tt, record w { tables = record w.tables { paid_blocks = p ∷ w.tables.paid_blocks } })

  abbrev pub stop_unpaid : M Bool
  stop_unpaid w = (ok false, full_stop w)

  -- The sum that is compared with the sum of before.
  abbrev pub changed_or_stop : ℕ → ℕ → M Bool
  changed_or_stop before sum = if sum == before then stop_unpaid else pure true

  abbrev pub sum_read : ℕ → Outcome ℕ → M Bool
  sum_read before thrown = stop_unpaid
  sum_read before (ok sum) = changed_or_stop before sum

  abbrev pub check_sum : ℕ → M Bool
  check_sum before w = sum_read before (get_balance_sum w).0 (get_balance_sum w).1

  abbrev pub pay_credits : PaidBlock → List Credit → M (Unit {0})
  pay_credits p cs =
      with_transaction env (insert_paid_block p >>= λ _. apply_balance_credits env cs)

  -- The transaction, whose failure is caught.
  abbrev pub committed_or_not : ℕ → Outcome (Unit {0}) → M Bool
  committed_or_not before thrown = pure false
  committed_or_not before (ok u) = check_sum before

  unfoldable pub commit_credits : ℕ → PaidBlock → List Credit → M Bool
  commit_credits before p cs w =
      committed_or_not before (pay_credits p cs w).0 (pay_credits p cs w).1

  abbrev pub total_credit : List Credit → ℕ
  total_credit = sum_by (λ c. c.amount)

  abbrev pub pay_resolved : ℕ → PaidBlock → List Credit → M Bool
  pay_resolved before p cs =
      if total_credit cs == 0 then stop_unpaid else commit_credits before p cs

  -- The rows of the block.
  unfoldable pub pay_rows : ℕ → PaidBlock → List BlockBalance → M Bool
  pay_rows before p [] = pure false
  pay_rows before p (r ∷ rs) =
      resolve_balance_credits env (credit_rows p.amount (r ∷ rs)) >>= pay_resolved before p

  abbrev pub rows_of : String → World → List BlockBalance
  rows_of hex w = keep_if (λ r. str_eq r.hex hex) w.tables.block_balances

  abbrev pub pay_block : PaidBlock → Outcome ℕ → M Bool
  pay_block p thrown = stop_unpaid
  pay_block p (ok before) = query env >>= λ _. λ v. pay_rows before p (rows_of p.hex v) v

  -- `doPPLNSPayments`, of a block with its reward, port and time.
  unfoldable pub do_pplns_payments : PaidBlock → M Bool
  do_pplns_payments p w = pay_block p (get_balance_sum w).0 (get_balance_sum w).1

  abbrev pub end_payment : {A : Type 0} → Outcome A × World → Outcome A × World
  end_payment (o, w) = (o, record w { payment_in_progress = false })

  -- `executePayout`, whose result says whether the block is unlocked.
  unfoldable pub execute_payout : PaidBlock → M Bool
  execute_payout p w =
      if w.payment_in_progress
      then pure false w
      else end_payment (do_pplns_payments p (record w { payment_in_progress = true }))
