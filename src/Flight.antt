-- ===== src/Flight.antt =====
-- The flight package (src/uas_workbench/flight): the flight record, and the reconciliation of a
-- sequence of logs with the autopilot's lifetime counter.
pub mod Record
pub mod Codec
pub mod Reconcile
pub mod Dataflash
pub mod Ardupilot
pub mod Px4
pub mod Tests
