-- ===== src/Middleware.antt =====
-- The middleware around the operations of the client: src/middleware/pipeline.ts.
pub mod Pipeline
pub mod Onion
pub mod Order
mod Tests
