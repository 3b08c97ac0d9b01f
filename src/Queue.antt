-- ===== src/Queue.antt =====
-- The concurrency queue: src/utils/concurrencyQueue.ts.
pub mod State
pub mod Process
pub mod Steps
pub mod Settled
pub mod Progress
pub mod Stats
mod Tests
