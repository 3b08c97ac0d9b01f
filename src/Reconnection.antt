-- ===== src/Reconnection.antt =====
-- Reconnection after a lost connection: src/network/reconnectionManager.ts.
pub mod Manager
pub mod Steps
pub mod Orderly
pub mod Outage
mod Tests
