-- ===== src/Payments/Planner/Backing.antt =====
-- What stands behind the items of a plan: eligible balances, thresholds and totals.
use mathlib.Core.List.{Memᴰ}
use nodejs_pool.Prelude.{
  ◌≤◌, ◌≡◌, refl, Bool, true, Option, none, some, List, [], ◌∷◌, map, leb, leb→le, ◌&&◌, keep_if,
  All, All-append, arith, inl, inr, Bool-cases, Option-cases,
}
use nodejs_pool.Payments.Store.{Item, Balance, Store, is_none}
use nodejs_pool.Payments.Planner.{
  Config, PayoutRow, Payout, BatchPlan, Collected, payout_row, build_payout_item,
  collect_integrated, collect_bulk, collect_row, collect_rows, payout_rows, plan_batches,
  nothing_collected, integrated_batch_for,
}
use nodejs_pool.Payments.Planner.Items.{IsPayout, build_payout_item-IsPayout}
use nodejs_pool.Payments.Planner.Bulk.{plan_items, plan_items-append}
use nodejs_pool.Payments.Planner.Recipients.{integrated_batch_for-items, plan_batches-items}

-- A property of every payout that reaches its threshold is one of every collected item.
module _ (c : Config) (P : Item → Type 0) where
  abbrev Pays : PayoutRow → Type 0
  Pays row =
      (p : Payout) → build_payout_item c row ≡ some p → p.threshold ≤ p.item.gross_amount → P p.item

  abbrev AllPaid : Collected → Type 0
  AllPaid s = All P s.bulk_items × All P (plan_items s.integrated_batches)

  collect_bulk-AllPaid :
      (s : Collected) (row : PayoutRow) (p : Payout)
      → (p.threshold ≤ p.item.gross_amount → P p.item)
      → AllPaid s
      → AllPaid (collect_bulk s row p)
  unfolding collect_bulk
  collect_bulk-AllPaid s row p h v = elim (Bool-cases (leb p.threshold p.item.gross_amount)) [
    | inl e ↦ rw e (All-append P s.bulk_items (p.item ∷ []) v.0 (h (leb→le _ _ e), tt), v.1)
    | inr e ↦ rw e v
  ]

  collect_integrated-AllPaid :
      (s : Collected) (row : PayoutRow) (p : Payout)
      → (p.threshold ≤ p.item.gross_amount → P p.item)
      → AllPaid s
      → AllPaid (collect_integrated s row p)
  unfolding collect_integrated
  collect_integrated-AllPaid s row p h v = elim (Option-cases batch) [
    | inl e ↦ rw (e, collect_integrated) v
    | inr (b, e) ↦
        let (items, reached, _) = integrated_batch_for-items _ _ _ _ b e in
        rw (e, collect_integrated)
          (
            v.0,
            rw (plan_items-append s.integrated_batches (b ∷ []), items)
                (All-append P (plan_items s.integrated_batches) (p.item ∷ []) v.1 (h reached, tt)),
          )
  ]
    where
      batch : Option BatchPlan
      batch =
          integrated_batch_for p.item p.threshold p.custom_threshold p.integrated_address_threshold

  collect_row-AllPaid :
      (s : Collected) (row : PayoutRow) → Pays row → AllPaid s → AllPaid (collect_row c s row)
  unfolding collect_row
  collect_row-AllPaid s row h v = elim (Option-cases (build_payout_item c row)) [
    | inl e ↦ rw (e, collect_row) (ground arith)
    | inr (p, e) ↦
        let bulk : AllPaid (collect_bulk s row p) = collect_bulk-AllPaid s row p (h p e) v in
        let integrated : AllPaid (collect_integrated s row p) =
          collect_integrated-AllPaid s row p (h p e) v in
        rw (e, collect_row) (ground arith)
  ]

  collect_rows-AllPaid :
      (s : Collected) (rows : List PayoutRow)
      → All Pays rows
      → AllPaid s
      → AllPaid (collect_rows c s rows)
  unfolding collect_rows
  collect_rows-AllPaid s [] h v = v
  collect_rows-AllPaid s (row ∷ rows) h v =
      collect_rows-AllPaid (collect_row c s row) rows h.1 (collect_row-AllPaid s row h.0 v)

-- An item pays out a balance that is unreserved and reaches the wallet's minimum.
abbrev pub IsBacked : Config → Store → Item → Type 0
IsBacked c db i =
    (b : Balance) × Memᴰ b db.balances
    × (c.wallet_min ≤ b.amount)
    × (b.pending_batch_id ≡ none)
    × IsPayout c (payout_row db.users b) i

module _ (c : Config) (db : Store) where
  eligible : Balance → Bool
  eligible b = leb c.wallet_min b.amount && is_none b.pending_batch_id

  eligible_lem :
      (b : Balance) → eligible b ≡ true → (c.wallet_min ≤ b.amount) × (b.pending_batch_id ≡ none)
  unfolding eligible
  eligible_lem b e = ground arith

  rows_pay :
      (bs : List Balance)
      → ((b : Balance) → Memᴰ b bs → Memᴰ b db.balances)
      → All (Pays c (IsBacked c db)) (map (payout_row db.users) (keep_if eligible bs))
  rows_pay [] inside = tt
  rows_pay (b ∷ bs) inside = elim (Bool-cases (eligible b)) [
    | inl e ↦ rw e (
      λ p q _. (
        b,
        inside b (Memᴰ.head refl),
        (eligible_lem b e).0,
        (eligible_lem b e).1,
        build_payout_item-IsPayout c (payout_row db.users b) p q,
      ),
      rows_pay bs (λ x m. inside x (Memᴰ.tail m)),
    )
    | inr e ↦ rw e (rows_pay bs (λ x m. inside x (Memᴰ.tail m)))
  ]

  -- If the planning gives a plan, every item of it pays out an existing unreserved balance that
  -- reaches the wallet's minimum: no more than it holds, fee included, to its address.
  pub plan_batches-IsBacked :
      (plan : List BatchPlan)
      → plan_batches c db ≡ some plan
      → All (IsBacked c db) (plan_items plan)
  unfolding payout_rows eligible
  plan_batches-IsBacked plan e =
      let paid =
        collect_rows-AllPaid c (IsBacked c db) nothing_collected (payout_rows c db)
          (rows_pay db.balances (λ b m. m)) (tt, tt) in
      rw (plan_batches-items c db plan e) (All-append (IsBacked c db) _ _ paid.0 paid.1)
