-- ===== src/VehicleSync/Upsert.antt =====
-- `_upsert_vehicle` of backend/app/modules/vehicle_sync/service.py.
use parking_system.Common.{Bool, Option, none, some, if◌then◌else◌, first}
use parking_system.Python.{Text, codes}
use parking_system.VehicleSync.Cells.{Rec, get, text_of, truthy, plate_of}
use parking_system.VehicleSync.Tables.{
  ExternalRef, SyncDb, SyncConfig, Row, RowEnd, created, raised, broken,
}
use parking_system.VehicleSync.Create.{is_ref, create_vehicle}
use parking_system.VehicleSync.Change.{update_vehicle}

-- `rec.get("plate_normalized") or normalize_plate(rec.get("plate_raw"))`; the outer option is an
-- exception.
unfoldable pub row_plate : SyncConfig → Rec → Option (Option Text)
unfolding truthy plate_of
row_plate c rec = elim (truthy (get (codes "plate_normalized") rec)) [
  | some cell ↦ some (some (text_of cell))
  | none ↦ elim (get (codes "plate_raw") rec) [
    | none ↦ some none
    | some cell ↦ plate_of c.py c.mapping cell
  ]
]

-- By the reference of the key; the column `plate_normalized` must not be null.
unfoldable pub upsert_known :
    Bool → SyncConfig → Row → SyncDb → Option Text → Option ExternalRef → RowEnd
unfolding create_vehicle update_vehicle
upsert_known dry c r d norm (some ref) = update_vehicle dry c r norm ref d
upsert_known dry c r d none none = if dry then created d else broken
upsert_known dry c r d (some n) none = create_vehicle dry c r n d

unfoldable pub upsert_plate : Bool → SyncConfig → Row → SyncDb → Option (Option Text) → RowEnd
unfolding upsert_known
upsert_plate dry c r d none = raised d
upsert_plate dry c r d (some norm) = upsert_known dry c r d norm (first (is_ref r.key) d.refs)

-- `_upsert_vehicle`
unfoldable pub upsert_vehicle : Bool → SyncConfig → Row → SyncDb → RowEnd
unfolding row_plate upsert_known upsert_plate
upsert_vehicle dry c r d = upsert_plate dry c r d (row_plate c r.rec)
