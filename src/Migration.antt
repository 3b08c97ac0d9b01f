-- ===== src/Migration.antt =====
-- Migrations of contract state: src/migrations/.
pub mod Types
pub mod Registry
pub mod Edges
pub mod Scan
pub mod Found
pub mod Paths
pub mod Fuel
pub mod Resolve
pub mod Validator
pub mod Runner
pub mod Undo
pub mod Outcomes
mod Tests
