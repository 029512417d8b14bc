-- ===== src/Payments/Ledger.antt =====
-- The ledger of a finalized batch: what the transaction of `finalizeBatch`
-- (lib/payments/processor.js) does to balances, payments and the batch row.
use nodejs_pool.Prelude.{
  ℕ, ◌+◌, ◌≤◌, true, ◌≡◌, refl, some, List, [], ◌∷◌, if◌then◌else◌, length, length-append, count_if,
  sum_by, sum_by-append, arith, All, Bool-cases, inl, inr, Option-cases,
}
use nodejs_pool.Payments.Store.{Batch, Balance, Payment, Item, Store, Status, find_batch}
use nodejs_pool.Payments.Reserve.{balance_ids}
use nodejs_pool.Payments.Runtime.{row_matches, is_current}
use nodejs_pool.Payments.Processor.Settle.{
  is_consumed, gross_of, consume_balances, payment_rows, finalize_transaction, finalized_columns,
  transaction_row,
}
use nodejs_pool.Payments.Machine.Laws.{find_batch-update_row}

-- What the consumed balances pay.
abbrev pub consumed_amount : ℕ → List Item → List Balance → ℕ
consumed_amount batch items =
    sum_by (λ b. if is_consumed batch (balance_ids items) b then gross_of b.id items else 0)

-- Every consumed balance holds what is taken from it.
abbrev pub IsCovered : ℕ → List Item → List Balance → Type 0
IsCovered batch items =
    All (λ b. is_consumed batch (balance_ids items) b ≡ true → gross_of b.id items ≤ b.amount)

amounts-consume_balances :
    (batch : ℕ) (items : List Item) (bs : List Balance)
    → IsCovered batch items bs
    → sum_by (λ b. b.amount) (consume_balances batch items bs) + consumed_amount batch items bs
      ≡ sum_by (λ b. b.amount) bs
unfolding consume_balances
amounts-consume_balances batch items [] v = omega arith
amounts-consume_balances batch items (b ∷ bs) v =
    elim (Bool-cases (is_consumed batch (balance_ids items) b)) [
      | inl e ↦ rw e (omega (arith, amounts-consume_balances batch items bs v.1, v.0 e))
      | inr e ↦ rw e (omega (arith, amounts-consume_balances batch items bs v.1))
    ]

unpinned-consume_balances :
    (batch : ℕ) (items : List Item) (bs : List Balance)
    → count_if (is_consumed batch (balance_ids items)) (consume_balances batch items bs) ≡ 0
unfolding consume_balances
unpinned-consume_balances batch items [] = refl
unpinned-consume_balances batch items (b ∷ bs) =
    elim (Bool-cases (is_consumed batch (balance_ids items) b)) [
      | inl e ↦ rw e (unpinned-consume_balances batch items bs)
      | inr e ↦ rw (e, e) (unpinned-consume_balances batch items bs)
    ]

payments-total :
    (t transaction : ℕ) (items : List Item)
    → (sum_by (λ p. p.amount) (payment_rows t transaction items) ≡ sum_by (λ i. i.net_amount) items)
      × (length (payment_rows t transaction items) ≡ length items)
unfolding payment_rows
payments-total t transaction [] = (refl, refl)
payments-total t transaction (i ∷ is) = (
  omega (arith, (payments-total t transaction is).0),
  omega (arith, (payments-total t transaction is).1),
)

-- If the finalizing transaction commits, the batch's row is there, `finalized`, and refers to the new
-- row of `transactions`.
pub finalized_row :
    (t : ℕ) (mem : Batch) (items : List Item) (db db' : Store)
    → finalize_transaction t mem items db ≡ some db'
    → (b : Batch) × (find_batch mem.id db'.batches ≡ some b)
      × (b.status ≡ Status.finalized)
      × (b.transaction_id ≡ some db.next_transaction_id)
unfolding finalize_transaction row_matches
finalized_row t mem items db db' e = elim (Option-cases (find_batch mem.id db.batches)) [
  | inl n ↦ absurd (ground arith)
  | inr (r, f) ↦ (
    finalized_columns t db.next_transaction_id mem r,
    ground (
      arith,
      find_batch-update_row mem.id mem.id (is_current mem.status)
          (finalized_columns t db.next_transaction_id mem) db.batches (λ _ _. refl),
    ),
    refl,
    refl,
  )
]

-- If every consumed balance holds what its item takes, a finalizing transaction that commits adds the
-- net amounts of the items to the payments, takes the gross amounts of the consumed balances from the
-- balances and no more, leaves none of those pinned by the batch, and adds one transaction.
pub finalize_transaction_ledger :
    (t : ℕ) (mem : Batch) (items : List Item) (db db' : Store)
    → IsCovered mem.id items db.balances
    → finalize_transaction t mem items db ≡ some db'
    → (sum_by (λ p. p.amount) db'.payments
        ≡ sum_by (λ p. p.amount) db.payments + sum_by (λ i. i.net_amount) items)
      × (sum_by (λ b. b.amount) db'.balances + consumed_amount mem.id items db.balances
          ≡ sum_by (λ b. b.amount) db.balances)
      × (count_if (is_consumed mem.id (balance_ids items)) db'.balances ≡ 0)
      × (length db'.transactions ≡ length db.transactions + 1)
unfolding finalize_transaction
finalize_transaction_ledger t mem items db db' v e = ground (
  arith,
  amounts-consume_balances mem.id items db.balances v,
  unpinned-consume_balances mem.id items db.balances,
  (payments-total t db.next_transaction_id items).0,
  sum_by-append (λ (p : Payment). p.amount) db.payments
      (payment_rows t db.next_transaction_id items),
  length-append db.transactions (transaction_row db.next_transaction_id mem items ∷ []),
)
