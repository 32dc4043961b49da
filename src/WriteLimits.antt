-- ===== src/WriteLimits.antt =====
-- app/authz/write_limits.py: the limits of the writes that each account sends to its messenger.
pub mod Settings
pub mod Counters
pub mod Windows
pub mod Reserve
pub mod Fits
pub mod Leaving
pub mod Waits
pub mod RetryAfter
pub mod Admission
pub mod Bundle
pub mod World
pub mod Sliding
pub mod Spacing
pub mod Dialogs
pub mod Slots
pub mod Changes
pub mod Status
pub mod Left
mod Tests
