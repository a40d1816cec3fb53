-- ===== src/Life.antt =====
-- The life package (src/uas_workbench/life): maintenance records, life rules, usage and due list, the
-- board state, and flights logged while the aircraft was grounded.
pub mod Model
pub mod Policy
pub mod Engine
pub mod Grounded
pub mod Tests
