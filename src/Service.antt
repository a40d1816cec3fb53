-- ===== src/Service.antt =====
-- The service package (src/uas_workbench/service): the tables of the store, the write journal over them,
-- and the writes that keep both.
pub mod Tables
pub mod Journal
pub mod Writes
pub mod Reads
pub mod Kept
pub mod Tests
