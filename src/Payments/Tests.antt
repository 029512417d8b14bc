-- ===== src/Payments/Tests.antt =====
-- Concrete tables, batches, and a concrete wallet, for the runs of the payments.
mod Planning
mod Settling
mod Running
use nodejs_pool.Prelude.{ℕ, ◌+◌, ◌-◌, ◌*◌, true, false, none, some, List, [], ◌∷◌, ◌++◌, String}
use nodejs_pool.Payments.Store.{bulk, Status, Balance, Item, Batch, Store}
use nodejs_pool.Payments.Planner.{Config, PayoutRow, Payout, BatchPlan, plan_batches}
use nodejs_pool.Payments.Reserve.{reserved_batch, item_rows, balances}
use nodejs_pool.Payments.Matching.{Transfer, out}
use nodejs_pool.Payments.Runtime.{Env, World, key, listed, found, sent, owned}
use nodejs_pool.Payments.Processor.Settle.{transaction_row, payment_rows}
use nodejs_pool.Payments.Machine.{Steps, here}

abbrev pub config : Config
config = record {
  fee_slew_amount = 100;
  wallet_min = 1_000;
  fee_slew_end = 11_000;
  default_pay = 2_000;
  exchange_min = 5_000;
  fees_for_txn = 500;
  denom = 10;
  fee_address = "pool";
  max_payment_txns = 2;
}

abbrev pub balance_of : ℕ → String → ℕ → Balance
balance_of i a n = record {
  id = i;
  payment_address = a;
  payment_id = none;
  pool_type = "pplns";
  amount = n;
  pending_batch_id = none;
}

-- Three eligible balances, two of one recipient, and one that is too small.
abbrev pub tables : Store
tables = record {
  balances =
      balance_of 1 "alice" 3_005
      ∷ balance_of 2 "bob" 6_000
      ∷ balance_of 3 "alice" 9_000
      ∷ balance_of 4 "carol" 500
      ∷ [];
  users = [];
  batches = [];
  items = [];
  transactions = [];
  payments = [];
  next_batch_id = 7;
  next_transaction_id = 1;
  claims = [];
}

abbrev pub item_of : ℕ → String → ℕ → ℕ → Item
item_of i a gross fee = record {
  balance_id = i;
  pool_type = "pplns";
  payment_address = a;
  gross_amount = gross;
  net_amount = gross - fee;
  fee_amount = fee;
}

abbrev pub two_items : List Item
two_items = item_of 1 "alice" 3_000 80 ∷ item_of 2 "bob" 6_000 50 ∷ []

abbrev pub plan : BatchPlan
plan = record {
  batch_type = bulk;
  items = two_items;
  total_gross = 9_000;
  total_net = 8_870;
  total_fee = 130;
}

-- The row of "alice" as `plan_batches` reads it, and its payout.
abbrev pub alice : PayoutRow
alice = record {
  id = 1;
  payment_address = "alice";
  payment_id = none;
  pool_type = "pplns";
  amount = 3_005;
  payout_threshold = none;
}

abbrev pub alice_paid : Payout
alice_paid = record {
  item = item_of 1 "alice" 3_000 80;
  threshold = 2_000;
  custom_threshold = false;
  integrated_address_threshold = 5_000;
}

abbrev pub three_items : List Item
three_items = two_items ++ item_of 3 "dave" 9_000 20 ∷ []

-- The tables after the reservation of that plan at second 50.
abbrev pub batch : Batch
batch = reserved_batch 7 50 plan

abbrev pub pinned_of : Balance → Balance
pinned_of b = record b { pending_batch_id = some 7 }

abbrev pub reserved_tables : Store
reserved_tables = record tables {
  balances =
      pinned_of (balance_of 1 "alice" 3_005)
      ∷ pinned_of (balance_of 2 "bob" 6_000)
      ∷ balance_of 3 "alice" 9_000
      ∷ balance_of 4 "carol" 500
      ∷ [];
  batches = batch ∷ [];
  items = item_rows 7 0 two_items;
  next_batch_id = 8;
}

-- The transfer that a wallet lists for the batch, in another order.
abbrev pub transfer : Transfer
transfer = record {
  timestamp = some 70;
  payment_id = none;
  txid = some 4242;
  fee = some 40;
  transfer_type = out;
  double_spend_seen = false;
  destinations = ("bob", some 5_950) ∷ ("alice", some 2_920) ∷ [];
  address = "";
  amount = none;
}

abbrev pub submitted : Batch
submitted = record batch {
  status = Status.submitted;
  submit_started_at = some 60;
  submitted_at = some 65;
  tx_hash = some 4242;
  tx_key = some 99;
  total_fee = some 40;
}

abbrev pub submitted_tables : Store
submitted_tables = record reserved_tables { batches = submitted ∷ []; claims = 7 ∷ [] }

abbrev pub final_tables : Store
final_tables = record submitted_tables {
  balances =
      balance_of 1 "alice" 5
      ∷ balance_of 2 "bob" 0
      ∷ balance_of 3 "alice" 9_000
      ∷ balance_of 4 "carol" 500
      ∷ [];
  batches =
      record submitted {
        status = Status.finalized;
        finalized_at = some 90;
        updated_at = 90;
        transaction_id = some 1;
      }
      ∷ [];
  transactions = transaction_row 1 submitted two_items ∷ [];
  payments = payment_rows 90 1 two_items;
  next_transaction_id = 2;
}

-- A wallet that pays, seen by a runtime that is alone. The clock is at second 60 of the first tick.
abbrev pub wallet : Env
wallet = record {
  now = λ n. 60_000 + n * 1_000;
  others = λ _ s. s;
  lock = λ _. owned;
  balance = λ _. balances (some 50_000) (some 50_000);
  tx_key = λ _. key (some 99);
  height = λ _. some 1;
  transfers = λ _. listed (transfer ∷ []) [] [];
  by_txid = λ _. found (transfer ∷ []);
  transfer = λ _. sent (some 4242) (some 40) (some 99);
  fee_buffer = 100;
}

pub alone : (n : ℕ) (s : Store) → Steps s (wallet.others n s)
alone n s = here

abbrev pub world_of : Store → World
world_of s = record {
  store = s;
  mem = batch;
  is_fail_stop = false;
  lock_connection = true;
  ticks = 0;
  claimed = [];
  transferred = [];
}

-- A reserved batch, and one that waits for another submit.
abbrev pub retrying_tables : Store
retrying_tables = record reserved_tables {
  batches = record batch { status = Status.retrying } ∷ [];
}

abbrev pub submitted_world : World
submitted_world = record (world_of submitted_tables) { mem = submitted }

-- A statement of another runtime, which reviews the submitted batch.
abbrev pub reviewed_tables : Store
reviewed_tables = record submitted_tables {
  batches = record submitted { status = Status.manual_review } ∷ [];
}

abbrev pub review : Batch → Batch
review b = record b { status = Status.manual_review }
