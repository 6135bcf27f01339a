-- ===== src/VehicleSync/Permits.antt =====
-- `_maybe_permit` of backend/app/modules/vehicle_sync/service.py.
use parking_system.Common.{
  ℕ, ◌+◌, Bool, ◌&&◌, Option, none, some, [], ◌∷◌, ◌++◌, if◌then◌else◌, any, is_id,
}
use parking_system.Python.{Text, codes, upper_all}
use parking_system.Model.{Vehicle, AccessPermit, ActiveStatus, Decoded}
use parking_system.Vehicles.{is_active}
use parking_system.VehicleSync.Dates.{DateResult, raises, date, parse_any_date}
use parking_system.VehicleSync.Cells.{Cell, get, text_of, truthy, method_text}
use parking_system.VehicleSync.Tables.{
  permit_change, pending, SyncConflict, SyncDb, SyncConfig, Row, RowEnd, raised,
}

abbrev pub mine : ℕ → AccessPermit → Bool
mine vehicle_id p = is_id p.vehicle_id vehicle_id && is_active p.status

-- A date for the permit's columns; none is an exception.
abbrev pub stored_date : DateResult → Option (Option ℕ)
stored_date (date t) = some (some t)
stored_date raises = none
stored_date _ = some none

unfoldable pub new_permit : Vehicle → Text → Option ℕ → Option ℕ → ℕ → ℕ → AccessPermit
new_permit v permit_type from until id now = record {
  id = id;
  vehicle_id = some v.id;
  permit_type = permit_type;
  plate_normalized = v.plate_normalized;
  valid_from = from;
  valid_until = until;
  allowed_days = Decoded.absent;
  allowed_from_time = none;
  allowed_until_time = none;
  max_entries = none;
  used_entries = 0;
  allowed_gate_ids = Decoded.absent;
  status = ActiveStatus.active;
  created_at = now;
}

-- The end of `_maybe_permit`: done, or an exception that keeps what was flushed.
abbrev pub add_permit :
    (SyncDb → RowEnd)
    → Option (Option ℕ)
    → Option (Option ℕ)
    → Vehicle
    → Text
    → ℕ
    → ℕ
    → SyncDb
    → RowEnd
add_permit end (some from) (some until) v permit_type id now d = end (record d {
  db = record d.db { permits = d.db.permits ++ new_permit v permit_type from until id now ∷ [] };
})
add_permit end _ _ v permit_type id now d = raised d

abbrev pub date_text : Option Cell → Option Text
date_text none = none
date_text (some c) = some (text_of c)

abbrev pub permit_conflict : Row → SyncConflict
permit_conflict r = record {
  id = r.fresh + 3;
  run_id = r.run_id;
  row_number = none;
  key = none;
  conflict_type = permit_change;
  incoming = r.rec;
  status = pending;
  resolved_by = none;
  resolved_at = none;
  resolution_note = none;
}

-- The part of `_maybe_permit` that is under a permit type.
unfoldable pub permit_of_type :
    (SyncDb → RowEnd) → SyncConfig → Row → Vehicle → SyncDb → Text → RowEnd
unfolding new_permit
permit_of_type end c r v d [] = end d
permit_of_type end c r v d (a ∷ s) =
    if any (mine v.id) d.db.permits
    then end (record d { conflicts = d.conflicts ++ permit_conflict r ∷ [] })
    else add_permit end
        (stored_date (parse_any_date c.py (date_text (get (codes "permit_valid_from") r.rec))))
        (stored_date (parse_any_date c.py (date_text (get (codes "permit_valid_until") r.rec)))) v
        (a ∷ s) (r.fresh + 1) c.now d

-- `_maybe_permit` of a run that writes, and then the end of the row.
unfoldable pub maybe_permit : (SyncDb → RowEnd) → SyncConfig → Row → Vehicle → SyncDb → RowEnd
unfolding permit_of_type
maybe_permit end c r v d = elim (truthy (get (codes "permit_type") r.rec)) [
  | none ↦ end d
  | some cell ↦ elim (method_text cell) [
    | none ↦ raised d
    | some t ↦ permit_of_type end c r v d (upper_all c.py t)
  ]
]
