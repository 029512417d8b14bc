-- ===== src/Blocks/Tests/Scans.antt =====
-- Runs of the calculation of payouts.
use nodejs_pool.Prelude.{
  ℕ, ◌*◌, ◌≤◌, ◌≡◌, refl, Bool, true, Option, none, some, List, [], ◌∷◌, String, ◌==◌, lookup,
  assign, map, if◌then◌else◌, arith,
}
use nodejs_pool.Blocks.Runtime.{ok, BlockBalance, World, Outcome, query}
use nodejs_pool.Blocks.Payout.{rows_of}
use nodejs_pool.Blocks.Window.{
  Config, ShareData, Scan, unit, collect_share_payments, first_scan, total_payments,
  create_payment_data, ensure_payment_row, add_payment, add_share_payments, add_port, collect_share,
  collect_height, payment_rows,
}
use nodejs_pool.Blocks.Totals.{capped}
use nodejs_pool.Blocks.Caps.{IsPercents, value_below, collect_share_payments-IsCapped}
use nodejs_pool.Blocks.Precalc.{Feed, all_rows, has_hex, replace_block_balance_rows, pre_calculate}
use nodejs_pool.Blocks.Timed.{pre_calculate-succeeds}
use nodejs_pool.Blocks.Rewards.{pre_calculate-earned}
use nodejs_pool.Blocks.Atomic.{earned}
use nodejs_pool.Blocks.Tests.Bank.{env, bank}

abbrev pub config : Config
config = record {
  fee_address = "4F";
  coin_dev_address = "4C";
  pool_dev_address = "4P";
  pplns_fee = 100;
  dev_donation = 1_000;
  pool_dev_donation = 2_000;
  share_multi = 200;
}

abbrev share : String → ℕ → ℕ → Option ShareData
share address n t = some (record {
  is_pplns = true;
  payment_address = address;
  payment_id = none;
  shares2 = n;
  port = some 3_333;
  timestamp = t;
})

abbrev pub shares_at : ℕ → List (Option ShareData)
shares_at h =
    if h == 9
    then share "4A" 30 7 ∷ none ∷ []
    else if h == 8
    then share "4B" 50 6 ∷ []
    else if h == 7
    then share "4A" 99 1 ∷ []
    else []

abbrev pub in_range : IsPercents config
in_range = (omega arith, omega arith)

-- The window is 40 shares: the share at height 8 is cut.
collect_share_payments-IsCapped_example :
    (s : Scan) × (collect_share_payments config (40 * unit) shares_at 9 (first_scan config)
      ≡ some s)
    × (total_payments s.payments ≡ s.total_paid)
    × (s.total_paid ≡ capped (40 * unit) (value_below shares_at 9))
collect_share_payments-IsCapped_example =
    collect_share_payments-IsCapped config (40 * unit) shares_at 9 in_range

value_below_all : value_below shares_at 9 ≡ 179 * unit
unfolding value_below
value_below_all = refl

abbrev pub feed : Feed
feed = record { config = config; shares = λ t. shares_at; top_height = λ t. some 40 }

abbrev calculated : Outcome Bool × World
calculated = pre_calculate env feed 3 ("b1" ∷ "b3" ∷ []) 9 20 bank

abbrev amount_of : BlockBalance → String × ℕ
amount_of r = (r.payment_address, r.part)

calculated_parts :
    map amount_of (rows_of env "b1" calculated.1)
    ≡ ("4F", 21_000_000)
      ∷ ("4C", 3_000_000)
      ∷ ("4P", 6_000_000)
      ∷ ("4A", 2_970_000_000)
      ∷ ("4B", 1_000_000_000)
      ∷ []
unfolding pre_calculate collect_share_payments collect_height collect_share ensure_payment_row
    add_share_payments add_payment add_port create_payment_data total_payments
    replace_block_balance_rows all_rows has_hex payment_rows query lookup assign
calculated_parts = refl

pre_calculate-earned_example : earned 1_000 (rows_of env "b1" calculated.1) ≤ 1_000
unfolding pre_calculate collect_share_payments collect_height collect_share ensure_payment_row
    add_share_payments add_payment add_port create_payment_data total_payments
    replace_block_balance_rows all_rows has_hex payment_rows query lookup assign
pre_calculate-earned_example =
    pre_calculate-earned env feed 3 "b1" ("b1" ∷ "b3" ∷ []) 9 20 1_000 bank in_range (omega arith)
      refl refl

pre_calculate-succeeds_example : calculated.0 ≡ ok true
unfolding value_below
pre_calculate-succeeds_example =
    pre_calculate-succeeds env feed 2 ("b1" ∷ "b3" ∷ []) 9 20 bank in_range (λ t. refl)
      (omega arith) (omega arith)
