-- ===== src/Blocks.antt =====
-- The block manager (lib/block_manager.js): what the shares of a block's window earn, the credits of
-- the balances, and the unlocking of blocks.
pub mod Runtime
pub mod Credits
pub mod Payout
pub mod Window
pub mod Chain
pub mod Oldest
pub mod Cleanup
pub mod Kept
pub mod Cleaned
pub mod Precalc
pub mod Unlocker
pub mod AltUnlocker
pub mod Honest
pub mod Unlocks
pub mod Cycles
pub mod Ripe
pub mod Bounded
pub mod Rewards
pub mod Timed
pub mod Recipients
pub mod Found
pub mod Succeeds
pub mod Totals
pub mod Caps
pub mod Crediting
pub mod Conserves
pub mod Keeps
pub mod Atomic
pub mod Tests
