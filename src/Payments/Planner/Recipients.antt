-- ===== src/Payments/Planner/Recipients.antt =====
-- Whom a plan pays: the loop of `planBatches` over its rows.
use nodejs_pool.Prelude.{
  ℕ, ◌+◌, ◌≤◌, ◌<◌, ◌≡◌, ap, ◌∙◌, inl, inr, Bool, false, Option, some, List, [], ◌∷◌, ◌++◌, String,
  str_eq, str_eq_iff, if◌then◌else◌, count_if, count_if-append, arith, Option-cases, length,
}
use nodejs_pool.Payments.Store.{Item, Store}
use nodejs_pool.Payments.Planner.{
  Config, PayoutRow, Payout, BatchPlan, Collected, contains, should_skip_payout_row,
  build_payout_item, integrated_batch_for, collect_integrated, collect_bulk, collect_row,
  collect_rows, bulk_batches, payout_rows, plan_of, plan_batches, nothing_collected,
}
use nodejs_pool.Payments.Planner.Items.{build_payout_item-IsPayout}
use nodejs_pool.Payments.Planner.Bulk.{
  plan_items, plan_items-append, plan_items-bulk_batches, HasTotals,
}

-- How often a list of items pays an address.
abbrev pub times_paid : String → List Item → ℕ
times_paid a is = count_if (λ i. str_eq a i.payment_address) is

-- An address is paid at most once, and only if it is in the set of seen recipients.
abbrev IsOnce : String → Collected → Type 0
IsOnce a s =
    times_paid a s.bulk_items + times_paid a (plan_items s.integrated_batches)
    ≤ (if contains a s.seen then 1 else 0)

pub integrated_batch_for-items :
    (i : Item) (t : ℕ) (b : Bool) (u : ℕ) (p : BatchPlan)
    → integrated_batch_for i t b u ≡ some p
    → (p.items ≡ i ∷ []) × (t ≤ i.gross_amount) × HasTotals p
unfolding integrated_batch_for
integrated_batch_for-items i t b u p e = ground arith

times_paid-push :
    (a : String) (bs : List BatchPlan) (b : BatchPlan) (i : Item)
    → b.items ≡ i ∷ []
    → times_paid a (plan_items (bs ++ b ∷ []))
      ≡ times_paid a (plan_items bs) + (if str_eq a i.payment_address then 1 else 0)
times_paid-push a [] b i e = rw e (ground arith)
times_paid-push a (x ∷ bs) b i e = omega (
  arith,
  count_if-append (λ (i : Item). str_eq a i.payment_address) x.items (plan_items (bs ++ b ∷ [])),
  count_if-append (λ (i : Item). str_eq a i.payment_address) x.items (plan_items bs),
  times_paid-push a bs b i e,
)

module _ (a : String) (s : Collected) (row : PayoutRow) (p : Payout) where
  collect_bulk-IsOnce :
      p.item.payment_address ≡ row.payment_address
      → contains row.payment_address s.seen ≡ false
      → IsOnce a s
      → IsOnce a (collect_bulk s row p)
  unfolding collect_bulk
  collect_bulk-IsOnce same fresh h = ground (
    arith,
    str_eq_iff a row.payment_address,
    count_if-append (λ (i : Item). str_eq a i.payment_address) s.bulk_items (p.item ∷ []),
  )

  collect_integrated-IsOnce :
      p.item.payment_address ≡ row.payment_address
      → contains row.payment_address s.seen ≡ false
      → IsOnce a s
      → IsOnce a (collect_integrated s row p)
  unfolding collect_integrated
  collect_integrated-IsOnce same fresh h = elim (Option-cases batch) [
    | inl e ↦ rw (e, collect_integrated) h
    | inr (b, e) ↦
        rw (e, collect_integrated)
          (ground (
            arith,
            str_eq_iff a row.payment_address,
            times_paid-push a s.integrated_batches b p.item
                (integrated_batch_for-items p.item p.threshold p.custom_threshold
                  p.integrated_address_threshold b e).0,
          ))
  ]
    where
      batch : Option BatchPlan
      batch =
          integrated_batch_for p.item p.threshold p.custom_threshold p.integrated_address_threshold

collect_row-IsOnce :
    (c : Config) (a : String) (s : Collected) (row : PayoutRow)
    → IsOnce a s
    → IsOnce a (collect_row c s row)
unfolding collect_row should_skip_payout_row
collect_row-IsOnce c a s row h = elim (Option-cases (build_payout_item c row)) [
  | inl e ↦ rw (e, collect_row) (ground arith)
  | inr (p, e) ↦
      rw (e, collect_row)
        (ground (
          arith,
          collect_bulk-IsOnce a s row p (build_payout_item-IsPayout c row p e).same_address,
          collect_integrated-IsOnce a s row p (build_payout_item-IsPayout c row p e).same_address,
        ))
]

collect_rows-IsOnce :
    (c : Config) (a : String) (s : Collected) (rows : List PayoutRow)
    → IsOnce a s
    → IsOnce a (collect_rows c s rows)
unfolding collect_rows
collect_rows-IsOnce c a s [] h = h
collect_rows-IsOnce c a s (row ∷ rows) h =
    collect_rows-IsOnce c a (collect_row c s row) rows (collect_row-IsOnce c a s row h)

plan_items-plan_of :
    (size : ℕ) (s : Collected)
    → 0 < size
    → plan_items (plan_of size s) ≡ s.bulk_items ++ plan_items s.integrated_batches
unfolding plan_of
plan_items-plan_of size s h =
    plan_items-append (bulk_batches (length s.bulk_items) size s.bulk_items) s.integrated_batches
    ∙ ap (λ is. is ++ plan_items s.integrated_batches)
        (plan_items-bulk_batches (length s.bulk_items) size s.bulk_items h (omega arith))

-- A plan comes from the collected rows, and the size of its transactions is positive.
pub plan_batches_cases :
    (c : Config) (db : Store) (plan : List BatchPlan)
    → plan_batches c db ≡ some plan
    → (0 < c.max_payment_txns)
      × (plan ≡ plan_of c.max_payment_txns (collect_rows c nothing_collected (payout_rows c db)))
unfolding plan_batches
plan_batches_cases c db plan e = ground arith

-- The items of a plan are the collected ones.
pub plan_batches-items :
    (c : Config) (db : Store) (plan : List BatchPlan)
    → plan_batches c db ≡ some plan
    → let s = collect_rows c nothing_collected (payout_rows c db) in
      plan_items plan ≡ s.bulk_items ++ plan_items s.integrated_batches
plan_batches-items c db plan e =
    let (h, q) = plan_batches_cases c db plan e in
    ap plan_items q ∙ plan_items-plan_of c.max_payment_txns _ h

-- If the planning gives a plan, an address is paid at most once in it, whatever rows stand under the
-- address.
pub plan_batches_pay_once :
    (c : Config) (db : Store) (plan : List BatchPlan) (address : String)
    → plan_batches c db ≡ some plan
    → times_paid address (plan_items plan) ≤ 1
plan_batches_pay_once c db plan a e = rw (plan_batches-items c db plan e) (
    ground (
      arith,
      count_if-append (λ (i : Item). str_eq a i.payment_address)
          (collect_rows c nothing_collected (payout_rows c db)).bulk_items
          (plan_items (collect_rows c nothing_collected (payout_rows c db)).integrated_batches),
      collect_rows-IsOnce c a nothing_collected (payout_rows c db),
    ))
