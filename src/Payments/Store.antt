-- ===== src/Payments/Store.antt =====
-- The payout tables (`balance`, `users`, `payment_batches`, `payment_batch_items`, `transactions`
-- and `payments`) and the statements that lib/payments/planner.js and lib/payments/processor.js
-- run on them. A NULL column is `none`; times are Unix seconds; amounts are atomic units. A hash or
-- a key is the number of its hexadecimal digits.
use nodejs_pool.Prelude.{
  ℕ, Bool, true, false, Option, none, some, List, [], ◌∷◌, String, ◌==◌, if◌then◌else◌,
}

pub data BatchType : Type 0 where
  bulk integrated : BatchType

-- The `status` column of `payment_batches`.
pub data Status : Type 0 where
  reserved retrying submitting submitted finalized retryable manual_review : Status

-- A row of `balance`.
pub record Balance : Type 0 where
  pub id : ℕ
  pub payment_address : String
  pub payment_id : Option String
  pub pool_type : String
  pub amount : ℕ
  pub pending_batch_id : Option ℕ

-- A row of `users`: the columns that payouts read.
pub record User : Type 0 where
  pub username : String
  pub payout_threshold : Option ℕ

-- A planned destination; in `payment_batch_items` it stands with its batch and order.
pub record Item : Type 0 where
  pub balance_id : ℕ
  pub pool_type : String
  pub payment_address : String
  pub gross_amount : ℕ
  pub net_amount : ℕ
  pub fee_amount : ℕ

pub record ItemRow : Type 0 where
  pub batch_id : ℕ
  pub destination_order : ℕ
  pub item : Item

-- A row of `payment_batches`, and the batch object that the runtime carries along.
pub record Batch : Type 0 where
  pub id : ℕ
  pub status : Status
  pub batch_type : BatchType
  pub total_gross : ℕ
  pub total_net : ℕ
  pub total_fee : Option ℕ
  pub submit_started_at : Option ℕ
  pub submitted_at : Option ℕ
  pub finalized_at : Option ℕ
  pub released_at : Option ℕ
  pub last_reconciled_at : Option ℕ
  pub updated_at : ℕ
  pub tx_hash : Option ℕ
  pub tx_key : Option ℕ
  pub transaction_id : Option ℕ
  pub reconcile_attempts : ℕ
  pub reconcile_clean_passes : ℕ

-- A row of `transactions`.
pub record Transaction : Type 0 where
  pub id : ℕ
  pub address : Option String
  pub xmr_amt : ℕ
  pub transaction_hash : Option ℕ
  pub fees : Option ℕ
  pub payees : ℕ

-- A row of `payments`.
pub record Payment : Type 0 where
  pub paid_time : ℕ
  pub pool_type : String
  pub payment_address : String
  pub transaction_id : ℕ
  pub amount : ℕ
  pub transfer_fee : ℕ

-- The tables, in the order of their primary keys, with the next automatic ids. `claims` is a
-- history variable: the ids of the batches that were claimed for a submit, latest first.
pub record Store : Type 0 where
  pub balances : List Balance
  pub users : List User
  pub batches : List Batch
  pub items : List ItemRow
  pub transactions : List Transaction
  pub payments : List Payment
  pub next_batch_id : ℕ
  pub next_transaction_id : ℕ
  pub claims : List ℕ

abbrev pub is_none {ℓ} : {A : Type ℓ} → Option A → Bool
is_none none = true
is_none (some a) = false

abbrev pub status_eq : Status → Status → Bool
status_eq Status.reserved Status.reserved = true
status_eq Status.retrying Status.retrying = true
status_eq Status.submitting Status.submitting = true
status_eq Status.submitted Status.submitted = true
status_eq Status.finalized Status.finalized = true
status_eq Status.retryable Status.retryable = true
status_eq Status.manual_review Status.manual_review = true
status_eq _ _ = false

-- `SELECT * FROM payment_batches WHERE id = ? LIMIT 1`.
unfoldable pub find_batch : ℕ → List Batch → Option Batch
find_batch i [] = none
find_batch i (b ∷ bs) = if b.id == i then some b else find_batch i bs
