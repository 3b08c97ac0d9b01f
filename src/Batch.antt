-- ===== src/Batch.antt =====
-- Batches of transactions: src/batch/.
pub mod Types
pub mod Cycles
pub mod Validator
pub mod Executor
pub mod Builder
pub mod Dfs
pub mod Fuel
pub mod Checks
pub mod Accepts
pub mod Results
pub mod Counts
pub mod Summary
pub mod Building
mod Tests
