-- ===== src/Payments/Planner/Bulk.antt =====
-- How bulk payouts are split into transactions: `bulk_batches` against its list of items.
use mathlib.Core.List.{append_assoc}
use nodejs_pool.Prelude.{
  ℕ, zero, suc, ◌≤◌, ◌<◌, ◌≡◌, refl, ap, sym, ◌∙◌, List, [], ◌∷◌, ◌++◌, length, take, drop,
  take-append-drop, length-take-le, length-drop, sum_by, arith, All,
}
use nodejs_pool.Payments.Store.{Item}
use nodejs_pool.Payments.Planner.{BatchPlan, bulk_batch, bulk_batches}

-- The items of all batches, in order.
abbrev pub plan_items : List BatchPlan → List Item
plan_items [] = []
plan_items (b ∷ bs) = b.items ++ plan_items bs

-- No item is lost, repeated or moved by the split, if the size is positive and there is fuel for one
-- batch an item.
pub plan_items-bulk_batches :
    (fuel size : ℕ) (is : List Item)
    → 0 < size
    → length is ≤ fuel
    → plan_items (bulk_batches fuel size is) ≡ is
unfolding bulk_batches bulk_batch
plan_items-bulk_batches fuel size [] p h = refl
plan_items-bulk_batches zero size (i ∷ is) p h = absurd (omega arith)
plan_items-bulk_batches (suc fuel) size (i ∷ is) p h =
    ap (◌++◌ (take size (i ∷ is))) (
      plan_items-bulk_batches fuel size (drop size (i ∷ is)) p
        (omega (arith, length-drop size (i ∷ is))))
    ∙ take-append-drop size (i ∷ is)

-- Every bulk transaction has at least one destination and at most as many as the size, if that is
-- positive.
pub bulk_batches-fit :
    (fuel size : ℕ) (is : List Item)
    → 0 < size
    → All (λ b. (1 ≤ length b.items) × (length b.items ≤ size)) (bulk_batches fuel size is)
unfolding bulk_batches bulk_batch
bulk_batches-fit fuel size [] p = tt
bulk_batches-fit zero size (i ∷ is) p = tt
bulk_batches-fit (suc fuel) (suc size) (i ∷ is) p = (
  (omega arith, omega (arith, length-take-le size is)),
  bulk_batches-fit fuel (suc size) (drop size is) p,
)
bulk_batches-fit (suc fuel) zero (i ∷ is) p = absurd (omega arith)

-- The totals of a batch are the sums over its items.
abbrev pub HasTotals : BatchPlan → Type 0
HasTotals b =
    (b.total_gross ≡ sum_by (λ i. i.gross_amount) b.items)
    × (b.total_net ≡ sum_by (λ i. i.net_amount) b.items)
    × (b.total_fee ≡ sum_by (λ i. i.fee_amount) b.items)

pub bulk_batches-HasTotals :
    (fuel size : ℕ) (is : List Item) → All HasTotals (bulk_batches fuel size is)
unfolding bulk_batches bulk_batch
bulk_batches-HasTotals fuel size [] = tt
bulk_batches-HasTotals zero size (i ∷ is) = tt
bulk_batches-HasTotals (suc fuel) size (i ∷ is) =
    ((refl, refl, refl), bulk_batches-HasTotals fuel size (drop size (i ∷ is)))

pub plan_items-append :
    (xs ys : List BatchPlan) → plan_items (xs ++ ys) ≡ plan_items xs ++ plan_items ys
plan_items-append [] ys = refl
plan_items-append (b ∷ bs) ys =
    ap (◌++◌ b.items) (plan_items-append bs ys)
    ∙ sym (append_assoc b.items (plan_items bs) (plan_items ys))
