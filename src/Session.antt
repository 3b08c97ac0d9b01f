-- ===== src/Session.antt =====
-- Contract sessions: src/session/contractSession.ts and src/session/sessionManager.ts.
pub mod Contracts
pub mod Manager
pub mod Acts
pub mod Histories
mod Tests
