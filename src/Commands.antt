-- ===== src/Commands.antt =====
-- src/thruk_mcp/tools/commands.py: the tools that send Thruk an external command.
pub mod Quote
pub mod Paths
pub mod Calls
pub mod Values
pub mod Single
pub mod Switch
pub mod Switched
pub mod Scope
pub mod Targets
pub mod Bulk
pub mod Acknowledged
pub mod Deletions
pub mod Settled
pub mod Active
pub mod Wanted
pub mod Filtered
pub mod Scoped
pub mod HostLevel
mod Tests
