-- ===== src/Payments/Runtime.antt =====
-- The world of one payments runtime (lib/payments/processor.js, lib/payments.js): its tables, the
-- batch object in hand, its lock and its latch, and what it awaits. Every `await` is a tick, during
-- which other runtimes may write to the tables; replies are functions of the tick.
use nodejs_pool.Prelude.{
  ℕ, suc, ◌/◌, Bool, true, false, Option, none, some, List, [], ◌∷◌, ◌==◌, ◌&&◌, if◌then◌else◌,
}
use nodejs_pool.Payments.Store.{Batch, Store, Status, status_eq, is_none, find_batch}
use nodejs_pool.Payments.Reserve.{BalanceReply}
use nodejs_pool.Payments.Matching.{Transfer}

-- `get_tx_key`.
pub data TxKeyReply : Type 0 where
  unreachable : TxKeyReply
  refused : TxKeyReply
  key : Option ℕ → TxKeyReply

-- `get_transfers`: the three lists, where the reply has a result.
pub data TransfersReply : Type 0 where
  failed : TransfersReply
  listed : List Transfer → List Transfer → List Transfer → TransfersReply

-- `get_transfer_by_txid`: an error that says "not found", one with code 0 and no message, any other
-- failure, or the transfers of the result.
pub data TxidReply : Type 0 where
  not_found_error : TxidReply
  empty_error : TxidReply
  failed : TxidReply
  found : List Transfer → TxidReply

-- `transfer`: an error (with the flag of `HISTORY_CHECKED_SUBMIT_ERRORS`), no result, or a result
-- with its hash, fee and key where they are well formed.
pub data TransferReply : Type 0 where
  error : Bool → TransferReply
  no_result : TransferReply
  sent : Option ℕ → Option ℕ → Option ℕ → TransferReply

-- The check of the advisory lock.
pub data LockReply : Type 0 where
  owned lost failed : LockReply

pub record Env : Type 0 where
  pub now : ℕ → ℕ
  pub others : ℕ → Store → Store
  pub lock : ℕ → LockReply
  pub balance : ℕ → BalanceReply
  pub tx_key : ℕ → TxKeyReply
  pub height : ℕ → Option ℕ
  pub transfers : ℕ → TransfersReply
  pub by_txid : ℕ → TxidReply
  pub transfer : ℕ → TransferReply
  pub fee_buffer : ℕ

-- `claimed` and `transferred` are history variables: the batches whose claim this runtime won, and
-- those that it handed to the wallet, latest first.
pub record World : Type 0 where
  pub store : Store
  pub mem : Batch
  pub is_fail_stop : Bool
  pub lock_connection : Bool
  pub ticks : ℕ
  pub claimed : List ℕ
  pub transferred : List ℕ

abbrev pub M : Type 0 → Type 0
M A = World → A × World

abbrev pub pure : {A : Type 0} → A → M A
pure a w = (a, w)

infixl 5 ◌>>=◌ ◌>>◌
abbrev pub ◌>>=◌ : {A B : Type 0} → M A → (A → M B) → M B
◌>>=◌ m f w = f (m w).0 (m w).1

abbrev pub ◌>>◌ : {A B : Type 0} → M A → M B → M B
◌>>◌ m k w = k (m w).1

-- The row with a primary key, if it passes the rest of the WHERE clause.
unfoldable pub row_matches : ℕ → (Batch → Bool) → List Batch → Bool
row_matches i guard bs = elim (find_batch i bs) [ none ↦ false | some b ↦ guard b ]

unfoldable pub update_row : ℕ → (Batch → Bool) → (Batch → Batch) → List Batch → List Batch
update_row i guard fields [] = []
update_row i guard fields (b ∷ bs) =
    if b.id == i then (if guard b then fields b else b) ∷ bs else b ∷ update_row i guard fields bs

-- `expectedStatuses: [batch.status], requireNullFields: ["finalized_at", "transaction_id"]`.
abbrev pub is_current : Status → Batch → Bool
is_current expected b =
    status_eq b.status expected && (is_none b.finalized_at && is_none b.transaction_id)

-- `releaseBatchReservation` requires more columns to be NULL.
abbrev pub is_releasable : Status → Batch → Bool
is_releasable expected b =
    is_current expected b
    && (is_none b.submit_started_at
        && (is_none b.submitted_at && (is_none b.tx_hash && is_none b.tx_key)))

-- `Object.assign(batch, rows[0])`, where the row is there.
abbrev pub reload : Batch → List Batch → Batch
reload mem bs = elim (find_batch mem.id bs) [ none ↦ mem | some b ↦ b ]

-- `enterFailStop`: a latch.
abbrev pub enter_fail_stop : World → World
enter_fail_stop w = record w { is_fail_stop = true }

abbrev pub lock_result : LockReply → M Bool
lock_result owned w = (true, w)
lock_result lost w = (false, enter_fail_stop w)
lock_result failed w = (false, record w { is_fail_stop = true; lock_connection = false })

module _ (env : Env) where
  -- What may happen during an `await`.
  unfoldable pub elapse : World → World
  elapse w = record w { store = env.others w.ticks w.store; ticks = suc w.ticks }

  unfoldable pub await : {A : Type 0} → (ℕ → A) → M A
  await reply w = (reply w.ticks, elapse w)

  -- `updateBatchStatusIfCurrent`: compare and swap; a lost race reloads the batch object.
  unfoldable pub update_if_current : (Batch → Bool) → (Batch → Batch) → M Bool
  update_if_current guard fields w =
      let w' = elapse w in
      if row_matches w'.mem.id guard w'.store.batches
      then (
        true,
        record w' {
          store = record w'.store { batches = update_row w'.mem.id guard fields w'.store.batches };
          mem = fields w'.mem;
        },
      )
      else (false, record (elapse w') { mem = reload w'.mem (elapse w').store.batches })

  -- `updateGuardedBatch`.
  unfoldable pub update_guarded : (Batch → Batch) → M Bool
  update_guarded fields w = update_if_current (is_current w.mem.status) fields w

  -- `currentTime`, in seconds.
  abbrev pub current_time : World → ℕ
  current_time w = env.now w.ticks / 1000

  abbrev pub verify_with : Bool → M Bool
  verify_with true w = lock_result (env.lock w.ticks) (elapse w)
  verify_with false w = (false, w)

  -- `verifyAdvisoryLock` of lib/payments.js.
  unfoldable pub verify_advisory_lock : M Bool
  verify_advisory_lock w = verify_with w.lock_connection w

  abbrev pub unless_stopped : Bool → M Bool
  unless_stopped true w = (false, w)
  unless_stopped false w = verify_advisory_lock w

  -- `checkExclusiveAccess`.
  unfoldable pub check_exclusive_access : M Bool
  check_exclusive_access w = unless_stopped w.is_fail_stop w
