-- ===== src/Retry.antt =====
-- Retry of operations: src/retry/.
pub mod Error
pub mod Classes
pub mod Policy
pub mod Delay
pub mod Loop
pub mod Rounds
pub mod Ends
mod Tests
