-- ===== src/Blocks/Rewards.antt =====
-- lib/block_manager.js: the rows that `preCalculatePPLNSPayments` stores for a block earn the reward
-- of the block at most.
use nodejs_pool.Prelude.{
  ℕ, zero, suc, ◌≤◌, ◌<◌, ◌≡◌, ap, ◌∙◌, Bool, true, false, not, Option, none, some, List, [], ◌∷◌,
  ◌++◌, String, ◌==◌, str_eq, keep_if, arith, Bool-cases, inl, inr,
}
use nodejs_pool.Blocks.Runtime.{BlockBalance, Env, World, Outcome, ok, M, query}
use nodejs_pool.Blocks.Window.{
  Scan, window_of, total_payments, is_need_correction, pay_window, first_scan,
}
use nodejs_pool.Blocks.Totals.{IsBalanced, Pays, first_scan-IsBalanced}
use nodejs_pool.Blocks.Caps.{IsPercents, collect_share_payments-Pays}
use nodejs_pool.Blocks.Payout.{rows_of}
use nodejs_pool.Blocks.Atomic.{earned}
use nodejs_pool.Blocks.Precalc.{
  Feed, all_rows, has_hex, replace_block_balance_rows, timed_scan, store_scan, retry_at, scanned,
  pre_calculate,
}
use nodejs_pool.Blocks.Bounded.{
  times, keep_if-append, deleted-none, parts_of-all_rows, all_rows-IsWhole, All-keep_if, earned-le,
}

module _ (env : Env) (feed : Feed) (hex : String) (hexes : List String) where
  kept_rows :
      (rs rows : List BlockBalance)
      → has_hex hexes hex ≡ true
      → keep_if (λ r. str_eq r.hex hex) (keep_if (λ r. not (has_hex hexes r.hex)) rs ++ rows)
        ≡ keep_if (λ r. str_eq r.hex hex) rows
  kept_rows rs rows h =
      keep_if-append (λ r. str_eq r.hex hex) (keep_if (λ r. not (has_hex hexes r.hex)) rs) rows
      ∙ ap (λ l. l ++ keep_if (λ r. str_eq r.hex hex) rows) (deleted-none hex hexes rs h)

  -- After a replacement that succeeds a block has the rows given for it.
  replaced-rows_of :
      (rows : List BlockBalance) (w : World)
      → has_hex hexes hex ≡ true
      → (replace_block_balance_rows env feed hexes rows w).0 ≡ ok true
      → rows_of env hex (replace_block_balance_rows env feed hexes rows w).1
        ≡ keep_if (λ r. str_eq r.hex hex) rows
  unfolding replace_block_balance_rows query
  replaced-rows_of [] w k h = elim (Bool-cases (env.fails w.ticks)) [
    | inl f ↦ absurd (cc (rw f at h))
    | inr f ↦ rw f (deleted-none hex hexes w.tables.block_balances k)
  ]
  replaced-rows_of (r ∷ rows) w k h = elim (Bool-cases (env.fails w.ticks)) [
    | inl f ↦ absurd (cc (rw f at h))
    | inr f ↦ elim (Bool-cases (env.fails (suc w.ticks))) [
      | inl g ↦ absurd (cc (rw (f, g) at h))
      | inr g ↦ rw (f, g) (kept_rows w.tables.block_balances (r ∷ rows) k)
    ]
  ]

  pay_window-fits :
      (total window : ℕ)
      → total ≤ window
      → total == 0 ≡ false
      → (0 < pay_window total window) × (total ≤ pay_window total window)
  pay_window-fits total window le pos = elim (Bool-cases (is_need_correction total window)) [
    | inl q ↦ rw q (ground arith, omega arith)
    | inr q ↦ rw q (ground arith, le)
  ]

  -- A result that is true leaves rows that earn the reward at most.
  abbrev IsWithin : Outcome Bool × World → Type 0
  IsWithin r = r.0 ≡ ok true → (reward : ℕ) → earned reward (rows_of env hex r.1) ≤ reward

  store_scan-IsWithin :
      (window : ℕ) (s : Scan) (w : World)
      → times hex hexes ≤ 1
      → has_hex hexes hex ≡ true
      → total_payments s.payments == 0 ≡ false
      → total_payments s.payments ≤ window
      → IsWithin (store_scan env feed hexes window s w)
  store_scan-IsWithin window s w one k pos le h reward =
      let whole = pay_window (total_payments s.payments) window in
      let (p, fits) = pay_window-fits (total_payments s.payments) window le pos in
      rw (replaced-rows_of (all_rows hexes whole s.payments) w k h) (
        earned-le reward whole _ p
          (All-keep_if _ (λ r. str_eq r.hex hex) _ (all_rows-IsWhole hexes whole s.payments))
          (omega (arith, fits, parts_of-all_rows hex hexes whole s.payments one)))

  timed_scan-IsWithin :
      (window : ℕ) (s : Scan) (t u : Option ℕ) (w : World)
      → times hex hexes ≤ 1
      → has_hex hexes hex ≡ true
      → total_payments s.payments == 0 ≡ false
      → total_payments s.payments ≤ window
      → IsWithin (timed_scan env feed hexes window s t u w)
  timed_scan-IsWithin window s none u w one k pos le h = absurd (cc h)
  timed_scan-IsWithin window s (some t) none w one k pos le h = absurd (cc h)
  timed_scan-IsWithin window s (some t) (some u) w one k pos le h =
      store_scan-IsWithin window s w one k pos le h

  retry_at-IsWithin :
      (again : ℕ → M Bool) (height : ℕ) (o : Option ℕ) (w : World)
      → ((top : ℕ) (v : World) → IsWithin (again top v))
      → IsWithin (retry_at env feed again height o w)
  retry_at-IsWithin again height none w go = λ h. absurd (cc h)
  retry_at-IsWithin again height (some top) w go = elim (Bool-cases (top == height)) [
    | inl q ↦ λ h. absurd (cc (rw q at h))
    | inr q ↦ rw q (go top w)
  ]

  scanned-IsWithin :
      (again : ℕ → M Bool) (height window : ℕ) (s : Scan) (w : World)
      → times hex hexes ≤ 1
      → has_hex hexes hex ≡ true
      → ((top : ℕ) (v : World) → IsWithin (again top v))
      → IsBalanced feed.config window s
      → IsWithin (scanned env feed again hexes height window (some s) w)
  scanned-IsWithin again height window s w one k go b =
      elim (Bool-cases (total_payments s.payments == 0)) [
        | inl q ↦ rw q (retry_at-IsWithin again height _ _ go)
        | inr q ↦ rw q (
            timed_scan-IsWithin window s s.first_share_time s.last_share_time w one k q
              (omega (arith, b.sums, b.fits)))
      ]

  pre_calculate-IsWithin :
      (fuel height difficulty : ℕ) (w : World)
      → IsPercents feed.config
      → times hex hexes ≤ 1
      → has_hex hexes hex ≡ true
      → IsWithin (pre_calculate env feed fuel hexes height difficulty w)
  unfolding pre_calculate Pays
  pre_calculate-IsWithin zero height difficulty w percents one k = λ h. absurd (cc h)
  pre_calculate-IsWithin (suc fuel) height difficulty w percents one k =
      let window = window_of feed.config difficulty in
      let (s, e, b, paid, kept) =
        collect_share_payments-Pays feed.config percents window (feed.shares w.ticks) height
          (first_scan feed.config) (first_scan-IsBalanced feed.config window) in
      rw e (
        scanned-IsWithin _ height window s w one k
          (λ top v. pre_calculate-IsWithin fuel top difficulty v percents one k) b)

-- Whatever the shares are and whenever queries fail, with percentages that are in range, a
-- calculation of payouts for distinct blocks with the result true leaves rows for each of the blocks
-- that earn the reward of the block at most.
pub pre_calculate-earned :
    (env : Env) (feed : Feed) (fuel : ℕ) (hex : String) (hexes : List String)
    (height difficulty reward : ℕ) (w : World)
    → IsPercents feed.config
    → times hex hexes ≤ 1
    → has_hex hexes hex ≡ true
    → (pre_calculate env feed fuel hexes height difficulty w).0 ≡ ok true
    → earned reward (rows_of env hex (pre_calculate env feed fuel hexes height difficulty w).1)
      ≤ reward
pre_calculate-earned env feed fuel hex hexes height difficulty reward w percents one k h =
    pre_calculate-IsWithin env feed hex hexes fuel height difficulty w percents one k h reward
