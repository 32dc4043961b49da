-- ===== src/Sync.antt =====
-- app/max/sync.py: the history of a chat of MAX, with the new tables (app/max/store_new.py).
pub mod Cursors
pub mod Backward
pub mod Forward
pub mod CatchUp
pub mod Ends
pub mod Kept
pub mod Pages
pub mod Latest
pub mod Complete
pub mod Gaps
pub mod Honest
mod Tests
