-- ===== src/Features.antt =====
-- The feature flags: src/features/.
pub mod Flag
pub mod Policy
pub mod Evaluation
pub mod BuiltIn
pub mod Service
pub mod Registry
pub mod Enabled
pub mod Summary
pub mod Story
mod Tests
