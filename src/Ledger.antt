-- ===== src/Ledger.antt =====
-- The ledger package (src/uas_workbench/ledger): append-only entries, the records folded from the
-- live ones, and the validation of a write.
pub mod Model
pub mod Codec
pub mod Project
pub mod Store
pub mod Judged
pub mod Validate
pub mod Tests
