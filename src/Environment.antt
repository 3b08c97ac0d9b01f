-- ===== src/Environment.antt =====
-- The environments of the client: src/network/environmentPresets.ts and src/network/environmentManager.ts.
pub mod Presets
pub mod Manager
pub mod Fit
pub mod Histories
mod Tests
