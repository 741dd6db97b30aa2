-- ===== src/Db.antt =====
-- The documents of the databases (src/db/DB.cpp), and what the crates get of them.
pub mod Json
pub mod Constants
pub mod Overrides
pub mod Layout
pub mod Packed
pub mod CrateInit
pub mod Received
pub mod Defaults
pub mod Shapes
pub mod Sources
mod Tests
pub mod Ecal
pub mod Generate
pub mod Counting
pub mod Posting
pub mod Hits
pub mod Posted
pub mod Location
pub mod Removed
pub mod Update
pub mod Places
pub mod Written
pub mod Crates
pub mod Standing
pub mod Cleared
pub mod Steps
pub mod Moved
pub mod Trees
