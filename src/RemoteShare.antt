-- ===== src/RemoteShare.antt =====
-- What arrives from the pool's worker processes and remote leaves (lib/remote_share).
pub mod Shares
pub mod Cache
pub mod Store
pub mod Totals
pub mod Distinct
pub mod Merges
pub mod Commits
pub mod Tests
