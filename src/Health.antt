-- ===== src/Health.antt =====
-- The monitor of RPC endpoints (src/monitoring).
pub mod Endpoint
pub mod Monitor
pub mod Metrics
pub mod Rounds
pub mod Reports
mod Tests
