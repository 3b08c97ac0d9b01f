-- ===== src/Network.antt =====
-- Endpoints of RPC servers: src/network/rpcEndpointManager.ts.
pub mod Endpoints
pub mod Picks
pub mod Failover
pub mod Best
mod Tests
