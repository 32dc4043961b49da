-- ===== src/Authz.antt =====
-- app/authz: who may call which tool.
pub mod Catalog
pub mod Routes
pub mod Keys
pub mod Policy
pub mod Request
pub mod Paths
pub mod Authentication
pub mod Aliases
pub mod Dispatch
pub mod ToolAuthz
pub mod Middleware
pub mod Audit
pub mod Rates
pub mod Categories
pub mod Decisions
pub mod Revocation
pub mod Isolation
pub mod Access
mod Tests
