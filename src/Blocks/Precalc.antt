-- ===== src/Blocks/Precalc.antt =====
-- lib/block_manager.js: `preCalculatePPLNSPayments` and `replaceBlockBalanceRows`. The caches of
-- statistics and the dump of the shares are left out. A payout without shares is tried again at the
-- top height, with fuel for the times that the top moves on; without fuel the result is false.
use nodejs_pool.Prelude.{
  ℕ, zero, suc, Bool, true, false, not, Option, none, some, List, [], ◌∷◌, ◌++◌, String, ◌==◌,
  str_eq, if◌then◌else◌, keep_if,
}
use nodejs_pool.Blocks.Runtime.{
  BlockBalance, Env, World, ok, thrown, M, pure, ◌>>=◌, catch_outcome, query,
}
use nodejs_pool.Blocks.Window.{
  Config, ShareData, PaymentData, Scan, window_of, collect_share_payments, first_scan,
  total_payments, pay_window, payment_rows,
}

-- What the daemon and the share database say at a tick.
pub record Feed : Type 0 where
  pub config : Config
  pub shares : ℕ → ℕ → List (Option ShareData)
  pub top_height : ℕ → Option ℕ

-- The rows of all payments that are not zero.
unfoldable pub all_rows : List String → ℕ → PaymentData → List BlockBalance
all_rows hexes whole [] = []
all_rows hexes whole ((k, p) ∷ m) =
    (if p.amount == 0 then [] else payment_rows hexes whole p) ++ all_rows hexes whole m

unfoldable pub has_hex : List String → String → Bool
has_hex [] hex = false
has_hex (h ∷ hs) hex = if str_eq h hex then true else has_hex hs hex

abbrev pub tick : World → World
tick w = record w { ticks = suc w.ticks }

abbrev pub with_rows : List BlockBalance → World → World
with_rows rows w = record w { tables = record w.tables { block_balances = rows } }

abbrev pub delete_rows : List String → World → World
delete_rows hexes w = with_rows (keep_if (λ r. not (has_hex hexes r.hex)) w.tables.block_balances) w

abbrev pub insert_rows : List BlockBalance → World → World
insert_rows rows w = with_rows (w.tables.block_balances ++ rows) w

module _ (env : Env) (feed : Feed) where
  abbrev pub insert_or_done : List BlockBalance → M Bool
  insert_or_done [] = pure true
  insert_or_done (r ∷ rows) = query env >>= λ _. λ w. (ok true, insert_rows (r ∷ rows) w)

  abbrev pub replace_rows : List String → List BlockBalance → M Bool
  replace_rows hexes rows = query env >>= λ _. λ w. insert_or_done rows (delete_rows hexes w)

  -- `replaceBlockBalanceRows`, whose failures are caught.
  unfoldable pub replace_block_balance_rows : List String → List BlockBalance → M Bool
  replace_block_balance_rows hexes rows w =
      catch_outcome (replace_rows hexes rows w).0 (replace_rows hexes rows w).1 (pure false)

  abbrev pub scan_of : ℕ → ℕ → World → Option Scan
  scan_of height difficulty w =
      let window = window_of feed.config difficulty in
      collect_share_payments feed.config window (feed.shares w.ticks) height
        (first_scan feed.config)

  -- The rows of a scan that has payments.
  abbrev pub store_scan : List String → ℕ → Scan → M Bool
  store_scan hexes window s =
      replace_block_balance_rows hexes
        (all_rows hexes (pay_window (total_payments s.payments) window) s.payments)

  abbrev pub timed_scan : List String → ℕ → Scan → Option ℕ → Option ℕ → M Bool
  timed_scan hexes window s (some t) (some u) = store_scan hexes window s
  timed_scan hexes window s _ _ = pure false

  -- `getTopBlockHeight`.
  abbrev pub get_top_block_height : World → Option ℕ × World
  get_top_block_height w = (feed.top_height w.ticks, tick w)

  abbrev pub retry_at : (ℕ → M Bool) → ℕ → Option ℕ → M Bool
  retry_at again height none = pure false
  retry_at again height (some top) = if top == height then pure false else again top

  abbrev pub scanned : (ℕ → M Bool) → List String → ℕ → ℕ → Option Scan → M Bool
  scanned again hexes height window none w = (thrown, w)
  scanned again hexes height window (some s) w =
      if total_payments s.payments == 0
      then retry_at again height (get_top_block_height w).0 (get_top_block_height w).1
      else timed_scan hexes window s s.first_share_time s.last_share_time w

  -- `preCalculatePPLNSPayments`.
  unfoldable pub pre_calculate : ℕ → List String → ℕ → ℕ → M Bool
  pre_calculate zero hexes height difficulty w = (ok false, w)
  pre_calculate (suc fuel) hexes height difficulty w =
      scanned (λ top. pre_calculate fuel hexes top difficulty) hexes height
        (window_of feed.config difficulty) (scan_of height difficulty w) w
