-- ===== src/Ledger/Validate.antt =====
-- ledger/validate.py: an entry is judged before anything is written.
pub mod Text
pub mod Shape
pub mod Checks
pub mod Transitions
pub mod Change
pub mod Hours
pub mod Write
pub mod Agreement
pub mod Statuses
pub mod Effects
pub mod Cut
pub mod Accepted
pub mod Windows
