-- ===== src/VehicleSync.antt =====
-- backend/app/modules/vehicle_sync/service.py: vehicles are brought in line with a sheet.
pub mod Dates
pub mod Cells
pub mod Tables
pub mod Permits
pub mod Create
pub mod Change
pub mod Upsert
pub mod Run
pub mod Protection
pub mod NonDestructive
pub mod Counting
pub mod DryRun
