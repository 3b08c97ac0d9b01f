-- ===== src/Lifecycle.antt =====
-- The transaction lifecycle: src/lifecycle/, src/events/lifecycleEvents.ts and src/transactions/.
pub mod State
pub mod Events
pub mod Manager
pub mod Query
pub mod Calls
pub mod Trace
pub mod History
pub mod Notice
pub mod Frame
mod Tests
