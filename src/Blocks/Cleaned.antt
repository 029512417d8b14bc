-- ===== src/Blocks/Cleaned.antt =====
-- lib/common/local_comms.js, `cleanShareDB`: its runs and the payouts that are waiting.
use nodejs_pool.Prelude.{
  ℕ, ◌*◌, ◌≤◌, ◌≡◌, Bool, true, false, Option, some, List, [], ◌∷◌, ◌++◌, ◌==◌, if◌then◌else◌,
}
use nodejs_pool.Blocks.Window.{Config, unit, collect_share_payments, first_scan}
use nodejs_pool.Blocks.Caps.{IsPercents}
use nodejs_pool.Blocks.Chain.{Chain}
use nodejs_pool.Blocks.Oldest.{waiting_anchors, waiting_heights}
use nodejs_pool.Blocks.Unlocker.{Header}
use nodejs_pool.Blocks.Cleanup.{Shares, CleanError, CleanEnv, Cleaner, kept_shares}

abbrev pub has_height : ℕ → List ℕ → Bool
has_height h [] = false
has_height h (n ∷ ns) = if n == h then true else has_height h ns

-- The heights that a payout waits for.
abbrev pub waiting : Chain → List ℕ
waiting c = waiting_anchors c.alt_blocks ++ waiting_heights c.blocks

module _ (env : CleanEnv) (c : Config) (percents : IsPercents c) (window height : ℕ)
    (old : Shares) where
  -- The scan of the window is the one before.
  abbrev IsSame : Option CleanError × Cleaner → Type 0
  IsSame r =
      collect_share_payments c window r.1.shares height (first_scan c)
      ≡ collect_share_payments c window old height (first_scan c)

  -- The difficulty of the oldest block that a header gives keeps the window.
  abbrev Keeps : ℕ → Option Header → Type 0
  Keeps oldest body =
      (h : Header) (d : ℕ)
      → body ≡ some h
      → h.difficulty ≡ some d
      → window ≤ kept_shares env d * unit
