-- ===== src/Session.antt =====
-- app/max/session.py with app/max/errors.py and app/max/auth.py: one MAX account's session.
pub mod Errors
pub mod Login
pub mod State
pub mod Supervisor
pub mod Operations
pub mod Sound
pub mod Calls
pub mod Pauses
pub mod Ends
pub mod Imports
mod Tests
