-- ===== src/Payments/Processor.antt =====
-- lib/payments/processor.js: the durable state machine of payment batches.
pub mod Search
pub mod Settle
pub mod Reconcile
pub mod Submit
