-- ===== src/Service/Journal.antt =====
-- service/journal.py: one hash chain over the rows of the store.
pub mod Hashes
pub mod Contents
pub mod Verify
pub mod Append
pub mod Lines
pub mod Chain
pub mod History
pub mod Evidence
pub mod Walked
pub mod Growth
