-- ===== src/Payments/Reserve/Pins.antt =====
-- What a reservation does to `balance.pending_batch_id`.
use nodejs_pool.Prelude.{
  ℕ, ◌≡◌, ◌≢◌, refl, Bool, false, none, some, List, [], ◌∷◌, ◌++◌, ◌==◌, length, count_if, sum_by,
  arith, All,
}
use nodejs_pool.Payments.Store.{Item, Balance, Batch, Store, Status}
use nodejs_pool.Payments.Planner.{BatchPlan}
use nodejs_pool.Payments.Reserve.{
  pin_balances, pinned_rows, balance_ids, reserved_batch, reserve_batch,
}

abbrev pub is_pinned : ℕ → Balance → Bool
is_pinned batch b = elim b.pending_batch_id [ none ↦ false | some j ↦ j == batch ]

-- No balance points at the batch yet.
abbrev IsFresh : ℕ → List Balance → Type 0
IsFresh batch = All (λ b. is_pinned batch b ≡ false)

count-pin_balances :
    (batch : ℕ) (ids : List ℕ) (bs : List Balance)
    → IsFresh batch bs
    → count_if (is_pinned batch) (pin_balances batch ids bs) ≡ pinned_rows ids bs
unfolding pin_balances pinned_rows
count-pin_balances batch ids [] f = refl
count-pin_balances batch ids (b ∷ bs) f = ground (arith, count-pin_balances batch ids bs f.1)

-- How many balances another batch has pinned stays.
count-pin_balances_ne :
    (batch other : ℕ) (ids : List ℕ) (bs : List Balance)
    → batch ≢ other
    → count_if (is_pinned other) (pin_balances batch ids bs) ≡ count_if (is_pinned other) bs
unfolding pin_balances
count-pin_balances_ne batch other ids [] h = refl
count-pin_balances_ne batch other ids (b ∷ bs) h =
    ground (arith, count-pin_balances_ne batch other ids bs h)

amounts-pin_balances :
    (batch : ℕ) (ids : List ℕ) (bs : List Balance)
    → sum_by (λ b. b.amount) (pin_balances batch ids bs) ≡ sum_by (λ b. b.amount) bs
unfolding pin_balances
amounts-pin_balances batch ids [] = refl
amounts-pin_balances batch ids (b ∷ bs) = ground (arith, amounts-pin_balances batch ids bs)

length-balance_ids : (is : List Item) → length (balance_ids is) ≡ length is
length-balance_ids [] = refl
length-balance_ids (i ∷ is) = omega (arith, length-balance_ids is)

-- If no balance is pinned by the next batch id yet, a reservation that succeeds pins as many balances
-- as it has destinations, leaves every other batch as many as it had, moves no money and appends the
-- batch as `reserved`.
pub reserve_batch_pins :
    (now other : ℕ) (plan : BatchPlan) (db db' : Store) (b : Batch)
    → IsFresh db.next_batch_id db.balances
    → db.next_batch_id ≢ other
    → reserve_batch now plan db ≡ some (b, db')
    → (count_if (is_pinned b.id) db'.balances ≡ length plan.items)
      × (count_if (is_pinned other) db'.balances ≡ count_if (is_pinned other) db.balances)
      × (sum_by (λ r. r.amount) db'.balances ≡ sum_by (λ r. r.amount) db.balances)
      × (b.status ≡ Status.reserved)
      × (db'.batches ≡ db.batches ++ b ∷ [])
unfolding reserve_batch reserved_batch
reserve_batch_pins now other plan db db' b f h e = ground (
  arith,
  count-pin_balances db.next_batch_id (balance_ids plan.items) db.balances f,
  count-pin_balances_ne db.next_batch_id other (balance_ids plan.items) db.balances h,
  amounts-pin_balances db.next_batch_id (balance_ids plan.items) db.balances,
  length-balance_ids plan.items,
)
