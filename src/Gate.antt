-- ===== src/Gate.antt =====
-- backend/app/modules/access_control/service.py: GateDecisionService. `process_plate_event` reads
-- the database and decides (Gate/Decide), then writes what it decided in one transaction
-- (Gate/Commit), which other transactions may have preceded.
pub mod Request
pub mod Exit
pub mod Decide
pub mod Commit
pub mod Process
