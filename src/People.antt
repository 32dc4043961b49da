-- ===== src/People.antt =====
-- app/repo/people.py: contacts as people and their identities, in app/models.py's tables.
-- Texts are code points. What a decimal digit is and the database's `DISTINCT … ORDER BY` of tags are
-- parameters. A platform is one of the two, so the check of its name is its type. Times of the rows
-- are left out, since nothing here reads them.
pub mod Rows
pub mod Upsert
pub mod Owner
pub mod Linked
pub mod Moves
pub mod Absorb
pub mod Merged
pub mod Kept
pub mod OwnerKept
pub mod Pins
pub mod Users
pub mod Merges
mod Tests
