-- ===== src/Payments.antt =====
-- The payout runtime (lib/payments).
pub mod Store
pub mod Planner
pub mod Reserve
pub mod Matching
pub mod Runtime
pub mod Processor
pub mod Cycle
pub mod Machine
pub mod Ledger
mod Tests
