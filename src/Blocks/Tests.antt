-- ===== src/Blocks/Tests.antt =====
-- Runs of the block manager at concrete blocks.
mod Bank
mod Payouts
mod Scans
mod Cycles
