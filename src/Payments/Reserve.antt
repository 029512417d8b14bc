-- ===== src/Payments/Reserve.antt =====
-- `reserveBatch` and `preflightWalletBalance` of lib/payments/planner.js. A transaction is a chain
-- of statements on the tables; `none` is an exception in it, after which the tables are as before
-- (lib/common/mysql_transaction.js).
pub mod Pins
use nodejs_pool.Prelude.{
  ℕ, suc, ◌+◌, Bool, true, false, not, Option, none, some, List, [], ◌∷◌, ◌++◌, map, ◌==◌, ltb,
  ◌&&◌, ◌||◌, if◌then◌else◌, length, count_if,
}
use nodejs_pool.Payments.Store.{Item, ItemRow, Balance, Batch, Status, Store, is_none, find_batch}
use nodejs_pool.Payments.Planner.{BatchPlan}

-- `id IN (…)`.
abbrev pub mem_id : ℕ → List ℕ → Bool
mem_id i [] = false
mem_id i (j ∷ js) = i == j || mem_id i js

abbrev pub balance_ids : List Item → List ℕ
balance_ids = map (λ i. i.balance_id)

-- The WHERE clause of the reservation: unreserved, and one of the ids.
abbrev pub is_free : List ℕ → Balance → Bool
is_free ids b = is_none b.pending_batch_id && mem_id b.id ids

unfoldable pub pin_balances : ℕ → List ℕ → List Balance → List Balance
pin_balances batch ids [] = []
pin_balances batch ids (b ∷ bs) =
    (if is_free ids b then record b { pending_batch_id = some batch } else b)
    ∷ pin_balances batch ids bs

-- `affectedRows` of that statement.
unfoldable pub pinned_rows : List ℕ → List Balance → ℕ
pinned_rows ids bs = count_if (is_free ids) bs

unfoldable pub item_rows : ℕ → ℕ → List Item → List ItemRow
item_rows batch index [] = []
item_rows batch index (i ∷ is) =
    record { batch_id = batch; destination_order = index; item = i }
    ∷ item_rows batch (suc index) is

-- The inserted row; the returned object has the same fields.
unfoldable pub reserved_batch : ℕ → ℕ → BatchPlan → Batch
reserved_batch i now plan = record {
  id = i;
  status = Status.reserved;
  batch_type = plan.batch_type;
  total_gross = plan.total_gross;
  total_net = plan.total_net;
  total_fee = some plan.total_fee;
  submit_started_at = none;
  submitted_at = none;
  finalized_at = none;
  released_at = none;
  last_reconciled_at = none;
  updated_at = now;
  tx_hash = none;
  tx_key = none;
  transaction_id = none;
  reconcile_attempts = 0;
  reconcile_clean_passes = 0;
}

-- `INSERT … VALUES ?` with no rows is an SQL error, and so is a primary key that is in use.
unfoldable pub reserve_batch : ℕ → BatchPlan → Store → Option (Batch × Store)
reserve_batch now plan db =
    let ids = balance_ids plan.items in
    let i = db.next_batch_id in
    if i == 0
    then none
    else if not (is_none (find_batch i db.batches))
    then none
    else if length plan.items == 0
    then none
    else if pinned_rows ids db.balances == length ids
    then some (
      reserved_batch i now plan,
      record db {
        balances = pin_balances i ids db.balances;
        batches = db.batches ++ reserved_batch i now plan ∷ [];
        items = db.items ++ item_rows i 0 plan.items;
        next_batch_id = suc i;
      },
    )
    else none

-- The reply to `getbalance`: two numbers where the wallet gave them, or a failure.
pub data BalanceReply : Type 0 where
  failed : BalanceReply
  balances : Option ℕ → Option ℕ → BalanceReply

pub data Preflight : Type 0 where
  passed : Preflight
  wallet_failed : Preflight
  invalid_total : Preflight
  insufficient : Bool → Preflight

-- `unlocked === null || unlocked < requiredTotal`.
abbrev pub below : Option ℕ → ℕ → Bool
below none required = true
below (some n) required = ltb n required

-- The flag of `insufficient` is `pendingBalanceEnough`.
unfoldable pub preflight_wallet_balance : ℕ → Option ℕ → BalanceReply → Preflight
preflight_wallet_balance fee_buffer total_net failed = wallet_failed
preflight_wallet_balance fee_buffer none (balances balance unlocked) = invalid_total
preflight_wallet_balance fee_buffer (some total_net) (balances balance unlocked) =
    let required_total = total_net + fee_buffer in
    if below unlocked required_total
    then insufficient (if below balance required_total then false else true)
    else passed
