-- ===== src/Ledger/Project.antt =====
-- ledger/project.py: the live entries, the order they fold in, and the records folded from them.
pub mod Order
pub mod Fold
pub mod Records
pub mod Liveness
pub mod Roots
pub mod Places
