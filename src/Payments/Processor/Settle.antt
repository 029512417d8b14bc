-- ===== src/Payments/Processor/Settle.antt =====
-- lib/payments/processor.js: the guarded writes that hold, review, submit, finalize and release a
-- batch. The texts of errors, logs and mails are left out: no decision reads them.
use nodejs_pool.Prelude.{
  ℕ, suc, ◌+◌, ◌-◌, Bool, true, false, Option, none, some, List, [], ◌∷◌, ◌++◌, String, ◌==◌, ◌&&◌,
  ◌||◌, not, if◌then◌else◌, length, count_if,
}
use nodejs_pool.Payments.Store.{
  Batch, Item, Balance, BatchType, bulk, integrated, Transaction, Payment, Store, Status, is_none,
}
use nodejs_pool.Payments.Reserve.{mem_id, balance_ids}
use nodejs_pool.Payments.Runtime.{
  Env, M, pure, ◌>>=◌, ◌>>◌, elapse, update_guarded, row_matches, update_row, is_current,
  is_releasable, current_time, enter_fail_stop,
}
use nodejs_pool.Payments.Processor.Search.{TxKeyResult, retry, missing, ok, resolve_tx_key}

pub data Outcome : Type 0 where
  cleared unresolved manual_review : Outcome

-- `guardedTransitionOutcome`.
abbrev pub guarded_transition_outcome : Batch → Outcome
guarded_transition_outcome b = elim b.status [
  | Status.finalized ↦ cleared
  | Status.manual_review ↦ manual_review
  | _ ↦ unresolved
]

-- What a guarded write ends in: its outcome, or that of the batch as another runtime left it.
abbrev pub outcome_if : Outcome → Bool → M Outcome
outcome_if o updated w = (if updated then o else guarded_transition_outcome w.mem, w)

-- The columns that the writes set.
abbrev pub held : ℕ → Batch → Batch
held t b = record b { last_reconciled_at = some t; updated_at = t }

abbrev pub touched : ℕ → Batch → Batch
touched t b = record b { updated_at = t }

abbrev pub retried : ℕ → Batch → Batch
retried t b = record b {
  status = Status.retrying;
  submit_started_at = none;
  submitted_at = none;
  updated_at = t;
  last_reconciled_at = some t;
  tx_hash = none;
  tx_key = none;
}

-- The details of a match: its hash, key and fee, each where it is known.
pub record Details : Type 0 where
  pub tx_hash : Option ℕ
  pub tx_key : Option ℕ
  pub total_fee : Option ℕ

abbrev pub or_old : Option ℕ → Option ℕ → Option ℕ
or_old none old = old
or_old (some n) old = some n

abbrev pub reviewed : ℕ → Details → Batch → Batch
reviewed t d b = record b {
  status = Status.manual_review;
  updated_at = t;
  tx_hash = or_old d.tx_hash b.tx_hash;
  tx_key = or_old d.tx_key b.tx_key;
  total_fee = or_old d.total_fee b.total_fee;
}

abbrev pub submitted_as : ℕ → ℕ → Option ℕ → ℕ → Batch → Batch
submitted_as t hash k fee b = record b {
  status = Status.submitted;
  submitted_at = some t;
  updated_at = t;
  tx_hash = some hash;
  tx_key = k;
  total_fee = some fee;
}

abbrev pub counted : ℕ → ℕ → ℕ → Batch → Batch
counted t attempts passes b = record b {
  reconcile_attempts = attempts;
  reconcile_clean_passes = passes;
  last_reconciled_at = some t;
  updated_at = t;
}

abbrev pub finalized_as : ℕ → ℕ → Batch → Batch
finalized_as t transaction b = record b {
  status = Status.finalized;
  finalized_at = some t;
  updated_at = t;
  transaction_id = some transaction;
}

abbrev pub released : ℕ → Batch → Batch
released t b = record b { status = Status.retryable; released_at = some t; updated_at = t }

-- `if (batch.submit_started_at || batch.submitted_at || batch.tx_hash || batch.tx_key)`.
abbrev pub past_submit_boundary : Batch → Bool
past_submit_boundary b =
    not (is_none b.submit_started_at)
    || (not (is_none b.submitted_at) || (not (is_none b.tx_hash) || not (is_none b.tx_key)))

-- The statements of the finalizing transaction.
abbrev pub is_consumed : ℕ → List ℕ → Balance → Bool
is_consumed batch ids b =
    elim b.pending_batch_id [ none ↦ false | some j ↦ j == batch ] && mem_id b.id ids

-- `CASE id WHEN ? THEN ? … ELSE 0 END`: the first item with the id.
unfoldable pub gross_of : ℕ → List Item → ℕ
gross_of i [] = 0
gross_of i (x ∷ xs) = if i == x.balance_id then x.gross_amount else gross_of i xs

unfoldable pub consume_balances : ℕ → List Item → List Balance → List Balance
consume_balances batch items [] = []
consume_balances batch items (b ∷ bs) =
    (if is_consumed batch (balance_ids items) b
      then record b { amount = b.amount - gross_of b.id items; pending_batch_id = none }
      else b)
    ∷ consume_balances batch items bs

unfoldable pub payment_rows : ℕ → ℕ → List Item → List Payment
payment_rows t transaction [] = []
payment_rows t transaction (i ∷ is) =
    record {
      paid_time = t;
      pool_type = i.pool_type;
      payment_address = i.payment_address;
      transaction_id = transaction;
      amount = i.net_amount;
      transfer_fee = i.fee_amount;
    }
    ∷ payment_rows t transaction is

abbrev pub transaction_address : BatchType → List Item → Option String
transaction_address bulk items = none
transaction_address integrated [] = none
transaction_address integrated (i ∷ is) = some i.payment_address

unfoldable pub transaction_row : ℕ → Batch → List Item → Transaction
transaction_row i mem items = record {
  id = i;
  address = transaction_address mem.batch_type items;
  xmr_amt = mem.total_gross;
  transaction_hash = mem.tx_hash;
  fees = mem.total_fee;
  payees = length items;
}

abbrev pub finalized_columns : ℕ → ℕ → Batch → Batch → Batch
finalized_columns t transaction mem b =
    finalized_as t transaction
      (record b { tx_hash = mem.tx_hash; tx_key = mem.tx_key; total_fee = mem.total_fee })

-- The whole transaction, or `none` after its rollback. An empty VALUES list is an SQL error.
unfoldable pub finalize_transaction : ℕ → Batch → List Item → Store → Option Store
finalize_transaction t mem items db =
    let i = db.next_transaction_id in
    let guard = is_current mem.status in
    if length items == 0
    then none
    else if not (count_if (is_consumed mem.id (balance_ids items)) db.balances == length items)
    then none
    else if not (row_matches mem.id guard db.batches)
    then none
    else some (record db {
      balances = consume_balances mem.id items db.balances;
      batches = update_row mem.id guard (finalized_columns t i mem) db.batches;
      transactions = db.transactions ++ transaction_row i mem items ∷ [];
      payments = db.payments ++ payment_rows t i items;
      next_transaction_id = suc i;
    })

-- `UPDATE balance SET pending_batch_id = NULL WHERE pending_batch_id = ?`.
unfoldable pub unpin_balances : ℕ → List Balance → List Balance
unpin_balances batch [] = []
unpin_balances batch (b ∷ bs) =
    (if elim b.pending_batch_id [ none ↦ false | some j ↦ j == batch ]
      then record b { pending_batch_id = none }
      else b)
    ∷ unpin_balances batch bs

-- The end of `markBatchManualReview`: the latch is set, unless another runtime settled the batch.
abbrev pub left_as : Status → M Outcome
left_as Status.manual_review w = (manual_review, enter_fail_stop w)
left_as Status.finalized w = (cleared, w)
left_as _ w = (unresolved, w)

abbrev pub review_done : Bool → M Outcome
review_done true w = (manual_review, enter_fail_stop w)
review_done false w = left_as w.mem.status w

abbrev pub cleared_if : Bool → M Outcome
cleared_if done w = (if done then cleared else unresolved, w)

module _ (env : Env) where
  -- `holdBatch`.
  unfoldable pub hold_batch : M Outcome
  hold_batch w = (update_guarded env (held (current_time env w)) >>= outcome_if unresolved) w

  -- `holdBatchForRetry`.
  unfoldable pub hold_batch_for_retry : M Outcome
  hold_batch_for_retry w =
      if past_submit_boundary w.mem
      then hold_batch w
      else (update_guarded env (retried (current_time env w)) >>= outcome_if unresolved) w

  -- `recordBatchReconcileState`.
  unfoldable pub record_batch_reconcile_state : Bool → M Bool
  record_batch_reconcile_state healthy w =
      update_guarded env
        (counted (current_time env w) (w.mem.reconcile_attempts + 1)
          (w.mem.reconcile_clean_passes + (if healthy then 1 else 0)))
        w

  -- `holdAfterReconcile`.
  unfoldable pub hold_after_reconcile : Bool → M Outcome
  hold_after_reconcile healthy = record_batch_reconcile_state healthy >>= outcome_if unresolved

  -- `markBatchManualReview`.
  unfoldable pub mark_batch_manual_review : Details → M Outcome
  mark_batch_manual_review d w =
      (update_guarded env (reviewed (current_time env w) d) >>= review_done) w

  -- `persistSubmittedBatch`.
  unfoldable pub persist_submitted_batch : ℕ → Option ℕ → ℕ → M Bool
  persist_submitted_batch hash k fee w =
      update_guarded env (submitted_as (current_time env w) hash k fee) w

  -- The end of the transaction of `finalizeBatch`: its tables, or the error's hold.
  abbrev pub conclude_final : ℕ → Option Store → M Bool
  conclude_final t (some db) w =
      (true, record w { store = db; mem = finalized_as t w.store.next_transaction_id w.mem })
  conclude_final t none w = (false, (update_guarded env (held (current_time env w)) w).1)

  unfoldable pub commit_final : List Item → M Bool
  commit_final items w =
      let t = current_time env w in
      let w' = elapse env w in conclude_final t (finalize_transaction t w'.mem items w'.store) w'

  abbrev pub with_resolved_key : List Item → TxKeyResult → M Bool
  with_resolved_key items retry w = (hold_batch >> pure false) w
  with_resolved_key items missing w =
      (mark_batch_manual_review
            (record { tx_hash = w.mem.tx_hash; tx_key = none; total_fee = w.mem.total_fee })
          >> pure false)
        w
  with_resolved_key items (ok k) w =
      commit_final items (record w { mem = record w.mem { tx_key = some k } })

  -- `finalizeBatch`.
  abbrev pub finalize_with : List Item → Option ℕ → Option ℕ → M Bool
  finalize_with items none k =
      mark_batch_manual_review (record { tx_hash = none; tx_key = none; total_fee = none })
      >> pure false
  finalize_with items (some hash) (some k) = commit_final items
  finalize_with items (some hash) none = resolve_tx_key env >>= with_resolved_key items

  unfoldable pub finalize_batch : List Item → M Bool
  finalize_batch items w = finalize_with items w.mem.tx_hash w.mem.tx_key w

  -- `releaseBatchReservation`.
  unfoldable pub release_batch_reservation : M Bool
  release_batch_reservation w =
      let t = current_time env w in
      let w' = elapse env w in
      let guard = is_releasable w'.mem.status in
      if row_matches w'.mem.id guard w'.store.batches
      then (
        true,
        record w' {
          store = record w'.store {
            batches = update_row w'.mem.id guard (released t) w'.store.batches;
            balances = unpin_balances w'.mem.id w'.store.balances;
          };
        },
      )
      else (false, w')
