-- ===== src/Life/Engine.antt =====
-- life/engine.py: usage, the due list and the board.
pub mod Usage
pub mod Rounding
pub mod Items
pub mod Inspections
pub mod Due
pub mod Board
