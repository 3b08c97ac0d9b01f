-- ===== src/Plugin.antt =====
-- The plugins of the SDK (src/plugin).
pub mod Types
pub mod Lifecycle
pub mod SemVer
pub mod Versions
pub mod Grammar
pub mod Validation
pub mod Cycles
pub mod Order
pub mod Runs
pub mod Manager
pub mod Clients
pub mod Calls
pub mod Keeps
pub mod Moves
pub mod Steps
pub mod Installs
pub mod Histories
pub mod Members
pub mod Explored
pub mod Searches
pub mod Sorted
pub mod Placed
pub mod Topology
pub mod Traced
pub mod Uncycled
pub mod Settled
pub mod Keyed
pub mod Required
pub mod Precedence
pub mod Satisfied
pub mod Departed
pub mod Overrides
pub mod Standing
pub mod Enabling
pub mod Tests
pub mod Witnesses
mod Discovery
pub mod Registry
pub mod Resolved
pub mod Listed
pub mod Resolution
