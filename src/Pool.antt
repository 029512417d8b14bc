-- ===== src/Pool.antt =====
-- The miner-facing process (lib/pool).
pub mod Security
pub mod RateLimit
pub mod Registry
mod Tests
