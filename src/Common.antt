-- ===== src/Common.antt =====
-- What the services share (lib/common).
pub mod TaskQueue
pub mod WorkerHistory
pub mod WorkCodec
mod Tests
